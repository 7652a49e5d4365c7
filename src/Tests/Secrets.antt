-- ===== src/Tests/Secrets.antt =====
-- Encryption, compression and authentication at sample inputs.
use neural_swarm_ai.Common.{◌≡◌, refl, [], ◌∷◌, ok}
use neural_swarm_ai.Protocol.{Bytes}
use neural_swarm_ai.Crypto.Primitives.{as_bytes}
use neural_swarm_ai.Crypto.Envelope.{encrypt_with_aad, decrypt_with_aad}
use neural_swarm_ai.Crypto.Roundtrip.{decrypt-encrypt}
use neural_swarm_ai.Tests.Samples.{toy, toy-IsSound}

abbrev nonce : Bytes
nonce = 1 ∷ 2 ∷ 3 ∷ 4 ∷ 5 ∷ 6 ∷ 7 ∷ 8 ∷ 9 ∷ 10 ∷ 11 ∷ 12 ∷ []

-- What encryption with the key 5, 6 makes of 7, 8 for the task "t".
abbrev sealed : Bytes
sealed = 1 ∷ 2 ∷ 3 ∷ 4 ∷ 5 ∷ 6 ∷ 7 ∷ 8 ∷ 9 ∷ 10 ∷ 11 ∷ 12 ∷ 127 ∷ 7 ∷ 8 ∷ []

decrypt-encrypt_example : decrypt_with_aad toy sealed (5 ∷ 6 ∷ []) (as_bytes "t") ≡ ok (7 ∷ 8 ∷ [])
unfolding encrypt_with_aad as_bytes
decrypt-encrypt_example =
    decrypt-encrypt toy toy-IsSound nonce (7 ∷ 8 ∷ []) (5 ∷ 6 ∷ []) (as_bytes "t") sealed refl refl
