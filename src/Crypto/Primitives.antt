-- ===== src/Crypto/Primitives.antt =====
-- What `src/crypto.rs` calls of other crates (aes-gcm, zstd, hmac, sha2, x25519-dalek, hkdf), as an
-- interface, with the behaviour that they document as a record of laws.
use Prim.Native.String.{String as Text}
use Prim.Native.Char.{code}
use neural_swarm_ai.Common.{
  ℕ, ◌+◌, ◌/◌, ◌%◌, ◌≤◌, ◌≡◌, String, [], ◌∷◌, ◌++◌, length, Option, some, ltb, if◌then◌else◌,
}
use neural_swarm_ai.Protocol.{Bytes}

-- `str::as_bytes`: the UTF-8 bytes of a text.
abbrev utf8 : ℕ → Bytes
utf8 c =
    if ltb c 0x80
    then c ∷ []
    else if ltb c 0x800
    then (0xc0 + c / 64) ∷ (0x80 + c % 64) ∷ []
    else if ltb c 0x10000
    then (0xe0 + c / 4096) ∷ (0x80 + c / 64 % 64) ∷ (0x80 + c % 64) ∷ []
    else (0xf0 + c / 262144) ∷ (0x80 + c / 4096 % 64) ∷ (0x80 + c / 64 % 64) ∷ (0x80 + c % 64) ∷ []

unfoldable pub as_bytes : String → Bytes
as_bytes Text.[] = []
as_bytes (Text.◌∷◌ c s) = utf8 (code c) ++ as_bytes s

-- `none` is the error of the crate.
pub record Primitives : Type 0 where
  -- AES-256-GCM: key, nonce, message or ciphertext, additional data.
  pub seal : Bytes → Bytes → Bytes → Bytes → Option Bytes
  pub unseal : Bytes → Bytes → Bytes → Bytes → Option Bytes
  -- zstd: the level, and the limit on the size of the output.
  pub zstd_compress : ℕ → Bytes → Option Bytes
  pub zstd_decompress : ℕ → Bytes → Option Bytes
  -- HMAC-SHA256 of a message under a key, and SHA-256.
  pub hmac_sha256 : Bytes → Bytes → Bytes
  pub sha256 : Bytes → Bytes
  -- X25519 and HKDF-SHA256 (salt, key material, info), 32 bytes long.
  pub public_of : Bytes → Bytes
  pub diffie_hellman : Bytes → Bytes → Bytes
  pub hkdf : Bytes → Bytes → Bytes → Bytes

pub record IsSound (c : Primitives) : Type 0 where
  -- Decryption with the key, the nonce and the additional data of the encryption gives the message,
  -- and succeeds on nothing but the ciphertext of what it returns.
  pub unseal_seal :
      (key nonce msg aad sealed : Bytes)
      → length nonce ≡ 12
      → c.seal key nonce msg aad ≡ some sealed
      → c.unseal key nonce sealed aad ≡ some msg
  pub seal_unseal :
      (key nonce msg aad sealed : Bytes)
      → length nonce ≡ 12
      → c.unseal key nonce sealed aad ≡ some msg
      → c.seal key nonce msg aad ≡ some sealed
  -- Decompression within the limit gives the data, and never gives more than the limit.
  pub decompress_compress :
      (level limit : ℕ) (bytes packed : Bytes)
      → length bytes ≤ limit
      → c.zstd_compress level bytes ≡ some packed
      → c.zstd_decompress limit packed ≡ some bytes
  pub decompress_limit :
      (limit : ℕ) (bytes packed : Bytes)
      → c.zstd_decompress limit packed ≡ some bytes
      → length bytes ≤ limit
  pub dh_agree :
      (a b : Bytes) → c.diffie_hellman a (c.public_of b) ≡ c.diffie_hellman b (c.public_of a)
