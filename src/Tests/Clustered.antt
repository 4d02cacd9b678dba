-- ===== src/Tests/Clustered.antt =====
-- Runs of the coordinator's merge and of the metadata at concrete inputs.
use distributed_log_query_en.Entries.{ids}
use distributed_log_query_en.Coordinator.Merge.Results.{
  merge_results-IsMerged, merge_results_same, IsMerged,
}
use distributed_log_query_en.Prelude.PathSet.{contains}
use distributed_log_query_en.Prelude.Int.{pos}
use distributed_log_query_en.Types.{LogEntry}
use distributed_log_query_en.Metadata.Assignment.Commands.{apply_all-IsAssigned, IsAssigned}
use distributed_log_query_en.Metadata.Fsm.{
  new_fsm, mark_unhealthy, apply_all, register_node, Command,
}
use distributed_log_query_en.Coordinator.Merge.Laws.{any_error, answers}
use distributed_log_query_en.Coordinator.Merge.{merge_results, MergeOutput, NodeResult}
use distributed_log_query_en.Prelude.{arith, ◌≡◌, refl, List, [], ◌∷◌, none, some}
use distributed_log_query_en.Prelude.Text.{Text, text, text_key}
use distributed_log_query_en.Tests.Toy.{sample}

abbrev answer : Text → List LogEntry → NodeResult
answer id entries = record { node_id = id; entries = entries; total = pos 1; error = none }

-- The primary and the replica answer with one entry each, and the replica also with the other's.
abbrev primary_first : List NodeResult
primary_first =
    answer (text "n1") (sample (text "a") ∷ [])
    ∷ answer (text "n2") (sample (text "b") ∷ sample (text "a") ∷ [])
    ∷ []

abbrev replica_first : List NodeResult
replica_first =
    answer (text "n2") (sample (text "b") ∷ sample (text "a") ∷ [])
    ∷ answer (text "n1") (sample (text "a") ∷ [])
    ∷ []

merge_results-IsMerged_example :
    (out : MergeOutput) × (merge_results primary_first (pos 0) (pos 10) ≡ some out)
    × IsMerged primary_first 0 (pos 10) out
merge_results-IsMerged_example = merge_results-IsMerged primary_first 0 (pos 10)

same_ids :
    (a : Text) → contains (ids (answers primary_first)) a ≡ contains (ids (answers replica_first)) a
unfolding answers contains
same_ids a = ground arith

merge_results_same_example :
    merge_results primary_first (pos 0) (pos 10) ≡ merge_results replica_first (pos 0) (pos 10)
merge_results_same_example =
    merge_results_same sample primary_first replica_first (pos 0) (pos 10)
      (unfold answers in (refl, (refl, (refl, tt)))) (unfold answers in (refl, (refl, (refl, tt))))
      same_ids (unfold any_error in refl)

abbrev commands : List Command
commands =
    register_node (text "n1") (text "host1:1") (pos 1)
    ∷ register_node (text "n2") (text "host2:1") (pos 2)
    ∷ mark_unhealthy (text "n1")
    ∷ []

apply_all-IsAssigned_example : IsAssigned (apply_all commands (new_fsm 4)) 3
apply_all-IsAssigned_example = apply_all-IsAssigned 4 commands 3 refl
