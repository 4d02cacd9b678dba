-- ===== src/Metadata/Snapshot.antt =====
-- internal/metadata/fsm.go and state.go: copies of the state, and snapshots that Raft writes and
-- restores. `encoding/json` is an argument: what it wrote is read back.
pub mod Laws
use distributed_log_query_en.Prelude.{Option, none, some, List, [], ◌∷◌, ◌≡◌, Key, nat_key, ℕ}
use distributed_log_query_en.Prelude.Text.{Text, text_key}
use distributed_log_query_en.Prelude.Dict.{Dict, put}
use distributed_log_query_en.Types.{Bytes}
use distributed_log_query_en.Metadata.State.{NodeRecord, ShardRecord, ClusterState}

pub record StateJson : Type 0 where
  pub marshal : ClusterState → Option Bytes
  pub unmarshal : Bytes → Option ClusterState
  pub unmarshal-marshal :
      (st : ClusterState) (bytes : Bytes) → marshal st ≡ some bytes → unmarshal bytes ≡ some st

-- copy(shards, v.Shards)
unfoldable pub copy_list : List ℕ → List ℕ
copy_list [] = []
copy_list (s ∷ ss) = s ∷ copy_list ss

unfoldable pub copy_node : NodeRecord → NodeRecord
unfolding copy_list
copy_node n = record n { shards = copy_list n.shards }

-- for k, v := range m { to[k] = f(v) }
unfoldable pub copy_into {ℓ κ} :
    {K : Type ℓ} {V : Type κ} ⦃k : Key K⦄ → (V → V) → Dict K V → Dict K V → Dict K V
copy_into f [] to = to
copy_into f ((j, v) ∷ m) to = copy_into f m (put j (f v) to)

unfoldable pub clone : ClusterState → ClusterState
unfolding copy_into copy_node
clone st = record {
  nodes = copy_into copy_node st.nodes [];
  shards = copy_into (λ (sr : ShardRecord). sr) st.shards [];
}

-- The calls of a sink.
pub data SinkCall : Type 0 where
  write : Bytes → SinkCall
  close cancel : SinkCall

pub data SnapshotError : Type 0 where
  marshal_failed decode_failed : SnapshotError
  sink_failed : Text → SnapshotError

-- The calls that `Persist` makes, and its error. `write_error` and `close_error` are what the sink
-- answers.
unfoldable pub persist :
    StateJson
    → Option SnapshotError
    → Option SnapshotError
    → ClusterState
    → List SinkCall × Option SnapshotError
persist json write_error close_error st = elim (json.marshal st) [
  | none ↦ (cancel ∷ [], some marshal_failed)
  | some bytes ↦ elim write_error [
    | some e ↦ (write bytes ∷ cancel ∷ [], some e)
    | none ↦ (write bytes ∷ close ∷ [], close_error)
  ]
]

unfoldable pub snapshot : ClusterState → ClusterState
unfolding clone
snapshot st = clone st

unfoldable pub restore : StateJson → Bytes → ClusterState → ClusterState × Option SnapshotError
restore json bytes st = elim (json.unmarshal bytes) [
  | none ↦ (st, some decode_failed)
  | some state ↦ (state, none)
]
