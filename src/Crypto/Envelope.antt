-- ===== src/Crypto/Envelope.antt =====
-- Compression and encryption of `src/crypto.rs`. The bytes of `OsRng` are an argument.
use neural_swarm_ai.Common.{
  ℕ, ◌*◌, ltb, if◌then◌else◌, String, [], ◌++◌, length, take, drop, Result, ok, err, ◌>>=◌, ok_or,
}
use neural_swarm_ai.Protocol.{Bytes}
use neural_swarm_ai.Crypto.Primitives.{Primitives, as_bytes}

pub data CryptoError : Type 0 where
  too_short encryption_failed decryption_failed io_error : CryptoError

abbrev pub level : ℕ
level = 3

-- 256 MB
abbrev pub size_limit : ℕ
size_limit = 256 * 1024 * 1024

module _ (c : Primitives) where
  unfoldable pub compress : Bytes → Result CryptoError Bytes
  compress bytes = ok_or io_error (c.zstd_compress level bytes)

  unfoldable pub decompress : Bytes → Result CryptoError Bytes
  decompress bytes = ok_or io_error (c.zstd_decompress size_limit bytes)

  -- The 12 bytes of the nonce stand before the ciphertext.
  unfoldable pub encrypt_with_aad : Bytes → Bytes → Bytes → Bytes → Result CryptoError Bytes
  encrypt_with_aad nonce_bytes bytes key aad = do
    ciphertext ← ok_or encryption_failed (c.seal key nonce_bytes bytes aad)
    ok (nonce_bytes ++ ciphertext)

  unfoldable pub decrypt_with_aad : Bytes → Bytes → Bytes → Result CryptoError Bytes
  decrypt_with_aad bytes key aad =
      if ltb (length bytes) 12
      then err too_short
      else ok_or decryption_failed (c.unseal key (take 12 bytes) (drop 12 bytes) aad)

  -- The legacy wrappers.
  unfoldable pub encrypt : Bytes → Bytes → String → Result CryptoError Bytes
  unfolding encrypt_with_aad
  encrypt nonce_bytes bytes secret =
      encrypt_with_aad nonce_bytes bytes (c.sha256 (as_bytes secret)) []

  unfoldable pub decrypt : Bytes → String → Result CryptoError Bytes
  unfolding decrypt_with_aad
  decrypt bytes secret = decrypt_with_aad bytes (c.sha256 (as_bytes secret)) []
