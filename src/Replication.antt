-- ===== src/Replication.antt =====
-- internal/replication/replicator.go: the queues of log entries on their way to the replicas. Each
-- address has a channel of 256 places and one goroutine that drains it. The metrics and the log are
-- left out; the request ID of a job is only logged.
pub mod Laws
use distributed_log_query_en.Prelude.Int.{ℤ}
use distributed_log_query_en.Prelude.{
  zero, length, none, ltb, suc, ◌++◌, Option, if◌then◌else◌, some, ℕ, List, [], ◌∷◌,
}
use distributed_log_query_en.Prelude.Text.{Text, text_key}
use distributed_log_query_en.Prelude.Dict.{Dict, get, put}
use distributed_log_query_en.Types.{to_int32, LogEntry}

abbrev pub channel_capacity : ℕ
channel_capacity = 256

pub record ReplicaJob : Type 0 where
  pub entry : LogEntry
  pub shard_id : ℕ

-- The jobs that wait in a channel, the oldest first.
abbrev pub Channel : Type 0
Channel = List ReplicaJob

pub record Replicator : Type 0 where
  pub channels : Dict Text Channel

abbrev pub new_replicator : Replicator
new_replicator = record { channels = [] }

-- The channel of the address; a new one is empty.
unfoldable pub get_or_create_channel : Text → Replicator → Channel × Replicator
get_or_create_channel addr r = elim (get addr r.channels) [
  | some ch ↦ (ch, r)
  | none ↦ ([], record { channels = put addr [] r.channels })
]

-- The non-blocking send of a job; a full channel drops it.
unfoldable pub offer : ReplicaJob → Channel → Channel
offer job ch = if ltb (length ch) channel_capacity then ch ++ job ∷ [] else ch

unfoldable pub enqueue : LogEntry → ℕ → Text → Replicator → Replicator
unfolding get_or_create_channel offer
enqueue entry shard_id addr r =
    let (ch, r') = get_or_create_channel addr r in
    record {
      channels = put addr (offer (record { entry = entry; shard_id = shard_id }) ch) r'.channels;
    }

pub record ReplicateEntryRequest : Type 0 where
  pub entry : Option LogEntry
  pub shard_id : ℤ

-- The copy leaves the namespace out.
unfoldable pub entry_to_proto : LogEntry → LogEntry
entry_to_proto e = record {
  id = e.id;
  timestamp = e.timestamp;
  received_at = e.received_at;
  namespace = [];
  service = e.service;
  level = e.level;
  message = e.message;
  fields = e.fields;
}

-- The request that `send` makes of a job. The answer is only logged.
unfoldable pub send : ReplicaJob → ReplicateEntryRequest
unfolding entry_to_proto
send job = record { entry = some (entry_to_proto job.entry); shard_id = to_int32 job.shard_id }

-- A channel and what was sent from it so far, the oldest first.
abbrev pub Drained : Type 0
Drained = Channel × List ReplicateEntryRequest

-- One turn of the loop of `drain`: the job at the front is sent. With no job the loop waits, or ends
-- if the replicator was stopped.
unfoldable pub drain_one : Drained → Drained
unfolding send
drain_one ([], sent) = ([], sent)
drain_one (job ∷ ch, sent) = (ch, sent ++ send job ∷ [])

-- The inner loop of `drain` after `Stop`. One turn for each waiting job empties the channel.
unfoldable pub drain_rest : ℕ → Drained → Drained
unfolding drain_one
drain_rest zero d = d
drain_rest (suc turns) d = drain_rest turns (drain_one d)
