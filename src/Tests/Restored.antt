-- ===== src/Tests/Restored.antt =====
-- A snapshot of the cluster state that is restored, with a toy encoding of states without nodes.
use distributed_log_query_en.Metadata.Snapshot.Laws.{restore-apply_all}
use distributed_log_query_en.Prelude.Int.{pos}
use distributed_log_query_en.Metadata.Fsm.{
  register_node, new_fsm, apply_all, update_heartbeat, Command,
}
use distributed_log_query_en.Prelude.Text.{text, Text}
use distributed_log_query_en.Metadata.Snapshot.{close, write, snapshot, restore, persist, StateJson}
use distributed_log_query_en.Types.{Bytes}
use distributed_log_query_en.Prelude.Dict.{Dict}
use distributed_log_query_en.Prelude.{
  refl, ◌++◌, sym, ap, none, some, ◌≡◌, ◌∷◌, Option, [], List, ℕ,
}
use mathlib.Core.Option.{some-injective}
use distributed_log_query_en.Metadata.State.{NodeRecord, ShardRecord, ClusterState}

unfoldable code_shard : ℕ → ℕ → Text → Text → Option Bytes
code_shard s i [] [] = some (s ∷ i ∷ [])
code_shard s i [] (_ ∷ _) = none
code_shard s i (_ ∷ _) r = none

unfoldable code : Dict Text NodeRecord → Dict ℕ ShardRecord → Option Bytes
unfolding code_shard
code [] [] = some []
code [] ((s, r) ∷ []) = code_shard s r.shard_id r.primary_node r.replica_node
code [] (_ ∷ _ ∷ _) = none
code (_ ∷ _) ss = none

unfoldable decode : Bytes → Option ClusterState
decode [] = some (record { nodes = []; shards = [] })
decode (_ ∷ []) = none
decode (s ∷ i ∷ []) = some (record {
  nodes = [];
  shards = (s, record { shard_id = i; primary_node = []; replica_node = [] }) ∷ [];
})
decode (_ ∷ _ ∷ _ ∷ _) = none

decode-code_shard :
    (s i : ℕ) (p r : Text) (bytes : Bytes)
    → code_shard s i p r ≡ some bytes
    → decode bytes
      ≡ some (record {
        nodes = [];
        shards = (s, record { shard_id = i; primary_node = p; replica_node = r }) ∷ [];
      })
unfolding code_shard decode
decode-code_shard s i [] [] bytes h = ap decode (sym (some-injective (s ∷ i ∷ []) bytes h))
decode-code_shard s i [] (_ ∷ _) bytes h = cc h
decode-code_shard s i (_ ∷ _) r bytes h = cc h

decode-code :
    (nodes : Dict Text NodeRecord) (shards : Dict ℕ ShardRecord) (bytes : Bytes)
    → code nodes shards ≡ some bytes
    → decode bytes ≡ some (record { nodes = nodes; shards = shards })
unfolding code decode
decode-code [] [] bytes h = ap decode (sym (some-injective [] bytes h))
decode-code [] ((s, r) ∷ []) bytes h =
    decode-code_shard s r.shard_id r.primary_node r.replica_node bytes h
decode-code [] (_ ∷ _ ∷ _) bytes h = cc h
decode-code (_ ∷ _) ss bytes h = cc h

abbrev toy_json : StateJson
toy_json = record {
  marshal = λ st. code st.nodes st.shards;
  unmarshal = decode;
  unmarshal-marshal = λ st bytes h. decode-code st.nodes st.shards bytes h;
}

abbrev late_heartbeat : List Command
late_heartbeat = update_heartbeat (text "n1") (pos 5) ∷ []

abbrev registration : List Command
registration = register_node (text "n1") (text "h1") (pos 6) ∷ []

abbrev behind : ClusterState
behind = record { nodes = []; shards = [] }

abbrev written : Bytes
written = 0 ∷ 0 ∷ []

persisted :
    persist toy_json none none (snapshot (apply_all late_heartbeat (new_fsm 1)))
    ≡ (write written ∷ close ∷ [], none)
unfolding persist snapshot apply_all new_fsm code decode code_shard
    distributed_log_query_en.Metadata.Snapshot.clone
    distributed_log_query_en.Metadata.Snapshot.copy_into distributed_log_query_en.Metadata.Fsm.apply
    distributed_log_query_en.Metadata.Fsm.apply_update_heartbeat
    distributed_log_query_en.Metadata.Fsm.new_shards distributed_log_query_en.Prelude.Dict.get
    distributed_log_query_en.Prelude.Dict.put
persisted = refl

restore-apply_all_example :
    (restore toy_json written behind ≡ (apply_all late_heartbeat (new_fsm 1), none))
    × (apply_all registration (restore toy_json written behind).0
        ≡ apply_all (late_heartbeat ++ registration) (new_fsm 1))
restore-apply_all_example =
    restore-apply_all toy_json none none 1 late_heartbeat registration written behind persisted
