-- ===== src/Transport/Client.antt =====
-- `connect_to_cluster` of `src/transport.rs`: a node that joins the cluster, in two parts, before and
-- after the answer to its announcement. The halves of one stream always reunite.
use neural_swarm_ai.Common.{
  ℕ, ◌%◌, ◌^◌, ◌==◌, Bool, if◌then◌else◌, String, Option, none, some, length, Result, ok, err,
  ok_or, map_err, ◌>>=◌,
}
use neural_swarm_ai.Compute.Profile.{NodeProfile}
use neural_swarm_ai.Compute.Status.{NodeStatus}
use neural_swarm_ai.Protocol.{
  Bytes, SwarmMessage, auth_challenge, auth_response, node_announce, join_response,
}
use neural_swarm_ai.Crypto.Primitives.{Primitives}
use neural_swarm_ai.Crypto.Envelope.{CryptoError, decrypt_with_aad}
use neural_swarm_ai.Crypto.Handshake.{sign_hmac, generate_ecdh_keys, derive_session_key}
use neural_swarm_ai.Transport.Wire.{Frame, binary, other, Wire}
use neural_swarm_ai.Transport.Server.{handshake_aad}

pub data JoinError : Type 0 where
  no_challenge wrong_challenge not_serialized not_sent no_cluster_key : JoinError
  not_decrypted : CryptoError → JoinError
  -- `copy_from_slice` of other than 32 bytes
  panic : JoinError

-- What the node sends, and the session key.
pub record Hello : Type 0 where
  pub session_key : Bytes
  pub auth_bin : Bytes
  pub announce_bin : Bytes

module _ {F P : Type 0} (c : Primitives) (w : Wire F P) where
  abbrev pub respond : Bytes → String → Bytes → Bytes → NodeProfile → SwarmMessage F P
  respond my_secret shared_secret nonce master_public profile =
      auth_response profile.hostname (sign_hmac c nonce shared_secret)
        (generate_ecdh_keys c my_secret).1

  abbrev pub announcement : NodeProfile → NodeStatus F → ℕ → SwarmMessage F P
  announcement profile status latency =
      node_announce profile.hostname none profile
        (record status { latency_ms = some (latency % 2 ^ 32) })

  -- The answer to a challenge, where the flags say whether its two frames can be sent.
  unfoldable pub answer_challenge :
      Bytes
      → String
      → NodeProfile
      → NodeStatus F
      → ℕ
      → Bool
      → Bool
      → SwarmMessage F P
      → Result JoinError Hello
  unfolding sign_hmac generate_ecdh_keys
  answer_challenge my_secret shared_secret profile status latency sends_auth sends_announce
        (auth_challenge nonce master_public) =
      do
        auth_bin ←
            ok_or not_serialized
              (w.serialize (respond my_secret shared_secret nonce master_public profile))
        _ ← if sends_auth then ok (tt {0}) else err not_sent
        announce_bin ← ok_or not_serialized (w.serialize (announcement profile status latency))
        _ ← if sends_announce then ok (tt {0}) else err not_sent
        ok (record {
          session_key = derive_session_key c (generate_ecdh_keys c my_secret).0 master_public nonce;
          auth_bin = auth_bin;
          announce_bin = announce_bin;
        })
  answer_challenge my_secret shared_secret profile status latency sends_auth sends_announce _ =
      err wrong_challenge

  -- Up to the announcement, from the first frame, if there is one.
  unfoldable pub hello :
      Bytes
      → String
      → NodeProfile
      → NodeStatus F
      → ℕ
      → Bool
      → Bool
      → Option Frame
      → Result JoinError Hello
  unfolding answer_challenge
  hello my_secret shared_secret profile status latency sends_auth sends_announce none =
      err no_challenge
  hello my_secret shared_secret profile status latency sends_auth sends_announce (some other) =
      err no_challenge
  hello my_secret shared_secret profile status latency sends_auth sends_announce
        (some (binary bin)) =
      do
        m ← ok_or wrong_challenge (w.deserialize bin)
        answer_challenge my_secret shared_secret profile status latency sends_auth sends_announce m

  -- The cluster key of a join response.
  unfoldable pub open_key : Bytes → SwarmMessage F P → Result JoinError Bytes
  open_key session_key (join_response assigned_layers total_layers encrypted_cluster_key) = do
    dec ←
        map_err (λ e. not_decrypted e)
          (decrypt_with_aad c encrypted_cluster_key session_key handshake_aad)
    if length dec == 32 then ok dec else err panic
  open_key session_key _ = err no_cluster_key

  -- The next frame, if there is one, after the announcement.
  unfoldable pub joined : Bytes → Option Frame → Result JoinError Bytes
  unfolding open_key
  joined session_key none = err no_cluster_key
  joined session_key (some other) = err no_cluster_key
  joined session_key (some (binary bin)) = do
    m ← ok_or no_cluster_key (w.deserialize bin)
    open_key session_key m
