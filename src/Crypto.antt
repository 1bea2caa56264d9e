-- ===== src/Crypto.antt =====
-- crypto: AES in CBC mode with PKCS7 padding, RSA, and keys in PEM form.
pub mod Padding
pub mod Aes
pub mod Rsa
pub mod Pem
