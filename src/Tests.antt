-- ===== src/Tests.antt =====
-- The main theorems at concrete inputs.
mod Instances
mod Files
mod Server
mod Rpc
mod Host
mod Ring
mod Primitives
mod Client
mod ShortCodec
mod Direct
mod Apart
mod Service
mod Serve
mod Registration
mod Begin
mod Program
