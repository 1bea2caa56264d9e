-- ===== src/Tests/Direct.antt =====
-- The theorems of Client.Files against one node, with small codecs.
use peerstore.Base.{
  ℕ, ◌-◌, ◌≡◌, ◌≢◌, refl, ap, string_eq, bytes_eq, true, none, some, [], ◌∷◌, ◌++◌, Bytes, length,
  length-append, length-replicate, take, take-append, replicate, arith,
}
use peerstore.Base.Dict.{lookup}
use peerstore.Base.Result.{ok}
use peerstore.Models.Node.{Node, zero_node, zero_identifier}
use peerstore.Crypto.Aes.{IsCbc}
use peerstore.Crypto.Rsa.{Rsa, IsRsa}
use peerstore.Protocol.Envelope.{Suite}
use peerstore.Client.Requests.{Codecs, log_id}
use peerstore.Client.Log.{get_transaction_log, put_transaction_log}
use peerstore.Client.Files.{delete_file}
use peerstore.Client.Files.Frame.{delete_file_keeps}
use peerstore.Client.Files.Lost.{short_log_lost}
use peerstore.Client.Direct.{Site, direct, own_machine}
use peerstore.Tests.Instances.{plain_suite, plain_cbc-IsCbc, own_key, ones}

abbrev pub first : Bytes → ℕ
first [] = 0
first (b ∷ bs) = b

pub differ : (xs ys : Bytes) → first xs ≢ first ys → xs ≢ ys
differ xs ys n e = n (ap first e)

-- A ciphertext is the message with 240 zeros.
unfoldable pub padded_rsa : Rsa
padded_rsa = record {
  sha256 = λ m. m;
  sign_pkcs1v15 = λ k h. none;
  verify_pkcs1v15 = λ k h s. true;
  encrypt_pkcs1v15 = λ e k m. some (m ++ replicate 240 0);
  decrypt_pkcs1v15 = λ k c. some (take (length c - 240) c);
}

take-padded :
    (m c : Bytes) → some (m ++ replicate 240 0) ≡ some c → some (take (length c - 240) c) ≡ some m
take-padded m c h =
    let same : m ++ replicate 240 0 ≡ c = cc in
    let size : length m ≡ length (m ++ replicate 240 0) - 240 =
      omega (arith, length-append m (replicate 240 0), length-replicate {A = ℕ} 240 0) in
    rw (← same) (ap some (take-append _ m (replicate 240 0) size))

padded_rsa-IsRsa : IsRsa padded_rsa
unfolding padded_rsa
padded_rsa-IsRsa = record {
  verify-sign = λ k h s e. cc;
  decrypt-encrypt = λ e k m c h. take-padded m c h;
}

unfoldable pub padded_suite : Suite
unfolding plain_suite
padded_suite = record plain_suite { rsa = padded_rsa }

-- An identifier is the first bytes, filled up with zeros.
abbrev pub codecs : Codecs
codecs = record {
  sha1 = λ b. take 20 (b ++ replicate 20 0);
  text = λ s. [];
  gob_key = λ k. k.modulus ∷ [];
  encode_id = λ id. id;
  decode_node = λ b. (zero_node, true);
  encode_log = λ tl. some (1 ∷ 2 ∷ []);
  decode_log = λ b. none;
}

abbrev pub nodes : Node → Bytes
nodes n = []

abbrev pub site : Site
site = record {
  files = record { disk = []; clock = 0 };
  own_files = ("a", 7 ∷ 8 ∷ []) ∷ [];
  own_clock = 0;
}

pub padded_cbc : IsCbc padded_suite.cbc
unfolding padded_suite plain_suite
padded_cbc = plain_cbc-IsCbc

pub padded_laws : IsRsa padded_suite.rsa
unfolding padded_suite plain_suite
padded_laws = padded_rsa-IsRsa

abbrev pub secret : Bytes
secret = ones ++ replicate 240 0

delete_file_keeps_example :
    (lookup
        (replicate 20 5)
        (delete_file
          (direct nodes zero_node)
          own_machine
          codecs
          (λ p. p)
          own_key
          zero_identifier
          "a"
          zero_node
          site).1.files.disk
      ≡ lookup (replicate 20 5) site.files.disk)
    × ((delete_file
          (direct nodes zero_node)
          own_machine
          codecs
          (λ p. p)
          own_key
          zero_identifier
          "a"
          zero_node
          site).1.own_files
        ≡ site.own_files)
unfolding log_id
delete_file_keeps_example =
    delete_file_keeps nodes zero_node codecs (λ p. p) own_key zero_identifier "a" zero_node
      (replicate 20 5) site (λ e. differ _ _ (omega arith) e)

short_log_lost_example :
    let net = direct nodes zero_node in
    let stored =
      (put_transaction_log net codecs own_machine zero_identifier zero_node own_key.public own_key
        [] site).1 in
    ((put_transaction_log net codecs own_machine zero_identifier zero_node own_key.public own_key []
        site).0
      ≡ ok tt)
    × (get_transaction_log net codecs zero_identifier zero_node own_key.public own_key stored
        ≡ (ok [], stored))
    × ((put_transaction_log net codecs own_machine zero_identifier zero_node own_key.public own_key
          [] stored).0
        ≡ ok tt)
    × (lookup
          (log_id codecs own_key.public)
          (put_transaction_log net codecs own_machine zero_identifier zero_node own_key.public
            own_key [] stored).1.files.disk
        ≡ lookup (log_id codecs own_key.public) stored.files.disk)
unfolding lookup
short_log_lost_example =
    short_log_lost nodes zero_node codecs own_key zero_identifier zero_node refl [] [] (1 ∷ 2 ∷ [])
      (1 ∷ 2 ∷ []) site refl refl refl (omega arith) refl
