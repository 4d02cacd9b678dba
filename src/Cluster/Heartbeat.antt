-- ===== src/Cluster/Heartbeat.antt =====
-- internal/cluster/heartbeat.go: the heartbeats that a node sends until its context ends.
pub mod Laws
use distributed_log_query_en.Rpc.{Code}
use distributed_log_query_en.Prelude.{true, false, [], some, ◌∷◌, List, ℕ, Bool, none, Option}
use distributed_log_query_en.Prelude.Text.{Text}
use distributed_log_query_en.Cluster.Client.{send_heartbeat, ClusterClient}

-- The client that sends the heartbeats, and what the health gauge of the node shows.
pub record HeartbeatSender : Type 0 where
  pub beater : ClusterClient
  pub health : Option Bool

abbrev pub new_heartbeat_sender : ClusterClient → HeartbeatSender
new_heartbeat_sender client = record { beater = client; health = none }

module _ (dial : Text → Bool) where
  -- A tick of the timer, with the answers of the coordinators then.
  unfoldable pub beat_once : (ℕ → Text → Option Code) → HeartbeatSender → HeartbeatSender
  beat_once answers h =
      let (failed, client) = send_heartbeat dial answers h.beater in
      elim failed [
        | some e ↦ record { beater = client; health = some false }
        | none ↦ record { beater = client; health = some true }
      ]

  -- The ticks are those until the context ends.
  unfoldable pub run : List (ℕ → Text → Option Code) → HeartbeatSender → HeartbeatSender
  unfolding beat_once
  run [] h = h
  run (answers ∷ ticks) h = run ticks (beat_once answers h)
