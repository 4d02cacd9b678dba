-- ===== src/Storage/Bloom.antt =====
-- internal/storage/bloom.go, over the bloom filter library as a parameter.
use distributed_log_query_en.Prelude.{
  ℕ, ◌-◌, ◌≡◌, Bool, true, List, [], ◌∷◌, ◌++◌, arith, ltb, length, take, if◌then◌else◌,
}
use distributed_log_query_en.Prelude.Text.{Text, text, to_lower, text_key}
use distributed_log_query_en.Prelude.Dict.{put}
use distributed_log_query_en.Prelude.PathSet.{contains}
use distributed_log_query_en.Storage.Disk.{Disk, has_suffix}

-- github.com/bits-and-blooms/bloom: a filter never forgets what was added.
pub record BloomLib : Type 1 where
  pub Filter : Type 0
  pub new_with_estimates : ℕ → Filter
  pub add_string : Filter → Text → Filter
  pub test_string : Filter → Text → Bool
  pub test-add_self : (f : Filter) (s : Text) → test_string (add_string f s) s ≡ true
  pub test-add_keep :
      (f : Filter) (s t : Text) → test_string f t ≡ true → test_string (add_string f s) t ≡ true

-- strings.TrimSuffix(segPath, ".seg") + ".bloom"
unfoldable pub bloom_path : Text → Text
bloom_path seg_path =
    (if has_suffix seg_path (text ".seg") then take (length seg_path - 4) seg_path else seg_path)
    ++ text ".bloom"

module _ (lib : BloomLib) where
  open lib use {Filter, new_with_estimates, add_string, test_string, test-add_self, test-add_keep}

  unfoldable pub add_tokens : List Text → Filter → Filter
  add_tokens [] bf = bf
  add_tokens (tok ∷ toks) bf = add_tokens toks (add_string bf (to_lower tok))

  unfoldable pub build_bloom : List Text → ℕ → Filter
  unfolding add_tokens
  build_bloom tokens expected_n =
      add_tokens tokens (new_with_estimates (if ltb expected_n 100 then 100 else expected_n))

  unfoldable pub write_bloom : Text → Filter → Disk Filter → Disk Filter
  write_bloom path bf d = record d { sidecars = put path bf d.sidecars }

  add_tokens-keep :
      (toks : List Text) (bf : Filter) (t : Text)
      → test_string bf t ≡ true
      → test_string (add_tokens toks bf) t ≡ true
  unfolding add_tokens
  add_tokens-keep [] bf t h = h
  add_tokens-keep (tok ∷ toks) bf t h =
      add_tokens-keep toks (add_string bf (to_lower tok)) t (test-add_keep bf (to_lower tok) t h)

  -- Every token of the list passes the test of the filter that was built, in lower case.
  pub add_tokens-contains :
      (toks : List Text) (bf : Filter) (tok : Text)
      → contains toks tok ≡ true
      → test_string (add_tokens toks bf) (to_lower tok) ≡ true
  unfolding add_tokens contains
  add_tokens-contains [] bf tok h = cc
  add_tokens-contains (t ∷ toks) bf tok h = ground (
    arith,
    text_key.eqb_iff t tok,
    add_tokens-contains toks (add_string bf (to_lower t)) tok,
    add_tokens-keep toks (add_string bf (to_lower t)) (to_lower tok),
    test-add_self bf (to_lower t),
  )
