-- ===== src/Coordinator/Cache.antt =====
-- internal/coordinator/cache.go: the cache of query results. The map and the linked list of the
-- source hold the same entries; here they are one list, the most recently used first. Times are
-- nanoseconds.
pub mod Key
pub mod Laws
use distributed_log_query_en.Prelude.{
  ℕ, Bool, not, Option, none, some, List, [], ◌∷◌, ◌==◌, length, keep, init, ltb, leb, ◌-◌,
  if◌then◌else◌,
}
use distributed_log_query_en.Prelude.Text.{Text, text_key}
use distributed_log_query_en.Types.{QueryResult}

pub record CacheEntry : Type 0 where
  pub key : Text
  pub result : QueryResult
  pub inserted_at : ℕ

pub record QueryCache : Type 0 where
  pub ttl : ℕ
  pub max_size : ℕ
  pub entries : List CacheEntry

abbrev pub new_query_cache : ℕ → ℕ → QueryCache
new_query_cache ttl max_size = record { ttl = ttl; max_size = max_size; entries = [] }

-- e, ok := c.items[key]
unfoldable pub item : Text → List CacheEntry → Option CacheEntry
item key [] = none
item key (e ∷ es) = if e.key == key then some e else item key es

-- Unlinks the entry of the key and deletes it from the map.
unfoldable pub unlink : Text → List CacheEntry → List CacheEntry
unlink key es = keep (λ e. not (e.key == key)) es

unfoldable pub move_to_front : CacheEntry → List CacheEntry → List CacheEntry
unfolding unlink
move_to_front e es = e ∷ unlink e.key es

-- The last entry is the least recently used one.
unfoldable pub evict_lru : List CacheEntry → List CacheEntry
evict_lru es = init es

unfoldable pub cached : Text → ℕ → QueryCache → Option QueryResult × QueryCache
unfolding move_to_front
cached key now c = elim (item key c.entries) [
  | none ↦ (none, c)
  | some e ↦
      if ltb c.ttl (now - e.inserted_at)
      then (none, record c { entries = unlink key c.entries })
      else (some e.result, record c { entries = move_to_front e c.entries })
]

unfoldable pub store : Text → QueryResult → ℕ → QueryCache → QueryCache
unfolding move_to_front evict_lru
store key result now c =
    let e : CacheEntry = record { key = key; result = result; inserted_at = now } in
    elim (item key c.entries) [
      | some old ↦ record c { entries = move_to_front e c.entries }
      | none ↦ record c {
        entries =
            e ∷ (if leb c.max_size (length c.entries) then evict_lru c.entries else c.entries);
      }
    ]
