-- ===== src/Crypto/Roundtrip.antt =====
-- What is sealed can be opened, by the holder of the key and for the same additional data.
use neural_swarm_ai.Common.{
  ◌≤◌, ◌≡◌, ◌↔◌, ap, true, false, ltb, some, String, [], ◌∷◌, ◌++◌, length, length-append, take,
  drop, take-append_self, drop-append_self, take-append-drop, length-take, ok, ok_or,
  ok_or_inversion, arith,
}
use neural_swarm_ai.Protocol.{Bytes}
use neural_swarm_ai.Crypto.Primitives.{Primitives, IsSound, as_bytes}
use neural_swarm_ai.Crypto.Envelope.{
  io_error, level, decryption_failed, size_limit, compress, decompress, encrypt_with_aad,
  decrypt_with_aad,
}
use neural_swarm_ai.Crypto.Handshake.{
  bytes_eq, sign_hmac, verify_hmac, generate_ecdh_keys, derive_session_key,
}

pub bytes_eq_iff : (xs ys : Bytes) → (bytes_eq xs ys ≡ true) ↔ (xs ≡ ys)
bytes_eq_iff [] [] = ground arith
bytes_eq_iff [] (y ∷ ys) = ground arith
bytes_eq_iff (x ∷ xs) [] = ground arith
bytes_eq_iff (x ∷ xs) (y ∷ ys) = ground (arith, bytes_eq_iff xs ys)

module _ (c : Primitives) where
  -- `verify_hmac` accepts exactly the tag that `sign_hmac` makes of the same nonce and secret.
  pub verify_hmac_iff :
      (nonce : Bytes) (secret : String) (tag : Bytes)
      → (verify_hmac c nonce secret tag ≡ true) ↔ (sign_hmac c nonce secret ≡ tag)
  unfolding verify_hmac sign_hmac
  verify_hmac_iff nonce secret tag = bytes_eq_iff _ tag

  pub encrypt_inversion :
      (nonce bytes key aad sealed : Bytes)
      → encrypt_with_aad c nonce bytes key aad ≡ ok sealed
      → (text : Bytes) × (c.seal key nonce bytes aad ≡ some text) × (sealed ≡ nonce ++ text)
  unfolding encrypt_with_aad
  encrypt_inversion nonce bytes key aad sealed e = ground arith

  -- An envelope with a nonce of 12 bytes is opened with just that nonce and text.
  decrypt-envelope :
      (nonce text key aad : Bytes)
      → length nonce ≡ 12
      → decrypt_with_aad c (nonce ++ text) key aad
        ≡ ok_or decryption_failed (c.unseal key nonce text aad)
  unfolding decrypt_with_aad
  decrypt-envelope nonce text key aad n =
      let long : ltb (length (nonce ++ text)) 12 ≡ false =
        ground (arith, length-append nonce text) in
      let front : take 12 (nonce ++ text) ≡ nonce = rw (← n) (take-append_self nonce text) in
      let back : drop 12 (nonce ++ text) ≡ text = rw (← n) (drop-append_self nonce text) in
      rw (long, front, back)

  pub decrypt_inversion :
      (sealed key aad bytes : Bytes)
      → decrypt_with_aad c sealed key aad ≡ ok bytes
      → (12 ≤ length sealed) × (c.unseal key (take 12 sealed) (drop 12 sealed) aad ≡ some bytes)
  unfolding decrypt_with_aad
  decrypt_inversion sealed key aad bytes e = ground arith

  module _ (sound : IsSound c) where
    -- With a nonce of 12 bytes, `decrypt_with_aad` undoes `encrypt_with_aad` under the same key and
    -- additional data.
    pub decrypt-encrypt :
        (nonce bytes key aad sealed : Bytes)
        → length nonce ≡ 12
        → encrypt_with_aad c nonce bytes key aad ≡ ok sealed
        → decrypt_with_aad c sealed key aad ≡ ok bytes
    decrypt-encrypt nonce bytes key aad sealed n e =
        let (text, made, shape) = encrypt_inversion nonce bytes key aad sealed e in
        rw (shape, decrypt-envelope nonce text key aad n)
          (rw (sound.unseal_seal key nonce bytes aad text n made))

    -- What `decrypt_with_aad` accepts is the envelope that `encrypt_with_aad` makes of its result,
    -- under the same key and additional data and the nonce of 12 bytes that the envelope carries.
    pub encrypt-decrypt :
        (sealed bytes key aad : Bytes)
        → decrypt_with_aad c sealed key aad ≡ ok bytes
        → (length (take 12 sealed) ≡ 12)
          × (encrypt_with_aad c (take 12 sealed) bytes key aad ≡ ok sealed)
    unfolding encrypt_with_aad
    encrypt-decrypt sealed bytes key aad e =
        let (long, opened) = decrypt_inversion sealed key aad bytes e in
        let n : length (take 12 sealed) ≡ 12 = length-take 12 sealed long in
        let made = sound.seal_unseal key (take 12 sealed) bytes aad (drop 12 sealed) n opened in
        (n, rw (made, encrypt_with_aad) (ap ok (take-append-drop 12 sealed)))

    -- `decompress` undoes `compress` on data of at most 256 MB.
    pub decompress-compress :
        (bytes packed : Bytes)
        → length bytes ≤ size_limit
        → compress c bytes ≡ ok packed
        → decompress c packed ≡ ok bytes
    unfolding compress decompress
    decompress-compress bytes packed small e =
        let made = ok_or_inversion io_error (c.zstd_compress level bytes) e in
        rw (sound.decompress_compress level size_limit bytes packed small made)

    -- The two sides of a handshake derive the same session key for the same salt.
    pub derive_session_key_agree :
        (a b salt : Bytes)
        → derive_session_key c (generate_ecdh_keys c a).0 (generate_ecdh_keys c b).1 salt
          ≡ derive_session_key c (generate_ecdh_keys c b).0 (generate_ecdh_keys c a).1 salt
    unfolding derive_session_key generate_ecdh_keys
    derive_session_key_agree a b salt =
        ap (λ k. c.hkdf salt k (as_bytes "neural-swarm-ai-v0.2-session")) (sound.dh_agree a b)
