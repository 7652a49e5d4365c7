-- ===== src/Transport/Wire.antt =====
-- The frames of a WebSocket, and `bincode` on the messages: what `src/transport.rs` reads and sends.
use neural_swarm_ai.Common.{Option, none, some, ◌≡◌}
use neural_swarm_ai.Compute.Status.{NodeStatus}
use neural_swarm_ai.Protocol.{Bytes, SwarmMessage, node_announce, status_update}

-- `Message::Binary`, and all other kinds of message.
pub data Frame : Type 0 where
  binary : Bytes → Frame
  other : Frame

pub record Wire (F P : Type 0) : Type 0 where
  pub serialize : SwarmMessage F P → Option Bytes
  pub deserialize : Bytes → Option (SwarmMessage F P)

-- `#[serde(skip)]` of `measured_at`: a status is read without the time of its measurement.
abbrev pub skipped : {F : Type 0} → NodeStatus F → NodeStatus F
skipped status = record status { measured_at = none }

-- What is read of a message that was written.
abbrev pub received : {F P : Type 0} → SwarmMessage F P → SwarmMessage F P
received (node_announce device_id peer_id profile status) =
    node_announce device_id peer_id profile (skipped status)
received (status_update status) = status_update (skipped status)
received m = m

-- The message can be written, and is read back but for what the serialization skips.
abbrev pub Carries : {F P : Type 0} → Wire F P → SwarmMessage F P → Type 0
Carries w m = (bin : Bytes) × (w.serialize m ≡ some bin) × (w.deserialize bin ≡ some (received m))
