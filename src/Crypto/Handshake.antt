-- ===== src/Crypto/Handshake.antt =====
-- Authentication and key agreement of `src/crypto.rs`. The bytes of `OsRng` are an argument.
use neural_swarm_ai.Common.{Bool, true, false, ◌&&◌, ◌==◌, String, [], ◌∷◌}
use neural_swarm_ai.Protocol.{Bytes}
use neural_swarm_ai.Crypto.Primitives.{Primitives, as_bytes}

-- `verify_slice` compares the whole tag.
abbrev pub bytes_eq : Bytes → Bytes → Bool
bytes_eq [] [] = true
bytes_eq [] (b ∷ bs) = false
bytes_eq (a ∷ as') [] = false
bytes_eq (a ∷ as') (b ∷ bs) = a == b && bytes_eq as' bs

module _ (c : Primitives) where
  unfoldable pub sign_hmac : Bytes → String → Bytes
  sign_hmac nonce secret = c.hmac_sha256 (as_bytes secret) nonce

  unfoldable pub verify_hmac : Bytes → String → Bytes → Bool
  verify_hmac nonce secret received_hash =
      bytes_eq (c.hmac_sha256 (as_bytes secret) nonce) received_hash

  -- `generate_ecdh_keys`, from the random bytes of the secret.
  unfoldable pub generate_ecdh_keys : Bytes → Bytes × Bytes
  generate_ecdh_keys secret = (secret, c.public_of secret)

  unfoldable pub derive_session_key : Bytes → Bytes → Bytes → Bytes
  derive_session_key my_secret their_public salt =
      c.hkdf salt (c.diffie_hellman my_secret their_public)
        (as_bytes "neural-swarm-ai-v0.2-session")
