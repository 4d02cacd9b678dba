-- ===== src/Coordinator/Cache/Laws.antt =====
-- What the cache of internal/coordinator/cache.go keeps and returns.
use distributed_log_query_en.Types.{QueryResult}
use distributed_log_query_en.Coordinator.Cache.{
  evict_lru, store, cached, move_to_front, unlink, item, QueryCache, CacheEntry,
}
use distributed_log_query_en.Prelude.{
  sym, ap, ◌&&◌, ◌||◌, false, Bool, ◌+◌, leb, ltb, ==_refl, Option-cases, ◌∙◌, not, inr,
  length-keep-le, inl, ◌<◌, ◌==◌, some, ◌-◌, Bool-cases, arith, if◌then◌else◌, ◌≤◌, keep, length,
  none, init, ℕ, ◌≡◌, refl, List, [], ◌∷◌,
}
use distributed_log_query_en.Prelude.Text.{Text, text_key}

-- No key stands twice in the list.
abbrev pub UniqueKeys : List CacheEntry → Type 0
UniqueKeys [] = Unit
UniqueKeys (e ∷ es) = (item e.key es ≡ none) × UniqueKeys es

-- The cache is within its capacity and has each key once.
pub record IsCache (c : QueryCache) : Type 0 where
  pub unique : UniqueKeys c.entries
  pub within : length c.entries ≤ c.max_size

item-unlink :
    (key a : Text) (es : List CacheEntry)
    → item a (unlink key es) ≡ (if key == a then none else item a es)
unfolding item unlink keep
item-unlink key a [] = ground arith
item-unlink key a (e ∷ es) = ground (
  arith,
  item-unlink key a es,
  text_key.eqb_iff e.key key,
  text_key.eqb_iff e.key a,
  text_key.eqb_iff key a,
)

item-init-none : (a : Text) (es : List CacheEntry) → item a es ≡ none → item a (init es) ≡ none
unfolding item init
item-init-none a [] h = refl
item-init-none a (e ∷ []) h = refl
item-init-none a (e ∷ f ∷ es) h = ground (arith, item-init-none a (f ∷ es))

UniqueKeys-init : (es : List CacheEntry) → UniqueKeys es → UniqueKeys (init es)
unfolding init
UniqueKeys-init [] u = tt
UniqueKeys-init (e ∷ []) u = tt
UniqueKeys-init (e ∷ f ∷ es) (n, u) = (item-init-none e.key (f ∷ es) n, UniqueKeys-init (f ∷ es) u)

unlink-cons :
    (key : Text) (e : CacheEntry) (es : List CacheEntry)
    → unlink key (e ∷ es) ≡ (if e.key == key then unlink key es else e ∷ unlink key es)
unfolding unlink keep
unlink-cons key e es = ground arith

UniqueKeys-unlink : (key : Text) (es : List CacheEntry) → UniqueKeys es → UniqueKeys (unlink key es)
UniqueKeys-unlink key [] u = unfold unlink keep in tt
UniqueKeys-unlink key (e ∷ es) (n, u) = elim (Bool-cases (e.key == key)) [
  | inl here ↦ rw (unlink-cons, here) (UniqueKeys-unlink key es u)
  | inr other ↦
      rw (unlink-cons, other)
        (ground (arith, item-unlink key e.key es, n), UniqueKeys-unlink key es u)
]

length-init : (es : List CacheEntry) → length (init es) ≡ length es - 1
unfolding init
length-init [] = omega arith
length-init (e ∷ []) = omega arith
length-init (e ∷ f ∷ es) = omega (arith, length-init (f ∷ es))

-- Taking out a key that is there makes the list shorter.
length-unlink :
    (key : Text) (es : List CacheEntry) (e : CacheEntry)
    → item key es ≡ some e
    → length (unlink key es) < length es
unfolding item unlink keep
length-unlink key [] e h = cc h
length-unlink key (f ∷ es) e h =
    ground (arith, length-unlink key es e, length-keep-le (λ x. not (x.key == key)) es)

item-key : (key : Text) (es : List CacheEntry) (e : CacheEntry) → item key es ≡ some e → e.key ≡ key
unfolding item
item-key key [] e h = cc h
item-key key (f ∷ es) e h = ground (arith, item-key key es e, text_key.eqb_iff f.key key)

move_to_front-IsCache :
    (c : QueryCache) (e old : CacheEntry)
    → IsCache c
    → item e.key c.entries ≡ some old
    → IsCache (record c { entries = move_to_front e c.entries })
unfolding move_to_front
move_to_front-IsCache c e old h found = record {
  unique = (
    item-unlink e.key e.key c.entries ∙ ground (arith, ==_refl e.key),
    UniqueKeys-unlink e.key c.entries h.unique,
  );
  within = omega (arith, length-unlink e.key c.entries old found, h.within);
}

-- A lookup leaves the cache within its capacity and with each key once, whether it finds the key,
-- drops an expired entry, or misses.
pub cached-IsCache :
    (key : Text) (now : ℕ) (c : QueryCache) → IsCache c → IsCache (cached key now c).1
unfolding cached
cached-IsCache key now c h = elim (Option-cases (item key c.entries)) [
  | inl miss ↦ rw (miss, cached) h
  | inr (e, hit) ↦ elim (Bool-cases (ltb c.ttl (now - e.inserted_at))) [
    | inl old ↦
        rw (hit, cached, old)
          (record {
            unique = UniqueKeys-unlink key c.entries h.unique;
            within = omega (arith, length-unlink key c.entries e hit, h.within);
          })
    | inr fresh ↦
        rw (hit, cached, fresh)
          (move_to_front-IsCache c e e h (cc (hit, item-key key c.entries e hit)))
  ]
]

-- The key is that of the last entry.
abbrev pub is_last : Text → List CacheEntry → Bool
is_last a [] = false
is_last a (e ∷ []) = e.key == a
is_last a (e ∷ f ∷ es) = is_last a (f ∷ es)

-- A store under the key pushes out the entry of the other one: it is the last, and the cache is full
-- and has no entry of the key.
unfoldable pub is_victim : Text → Text → QueryCache → Bool
is_victim a key c = elim (item key c.entries) [
  | some old ↦ false
  | none ↦ leb c.max_size (length c.entries) && is_last a c.entries
]

item-none-is_last : (a : Text) (es : List CacheEntry) → item a es ≡ none → is_last a es ≡ false
unfolding item
item-none-is_last a [] h = refl
item-none-is_last a (e ∷ []) h = ground arith
item-none-is_last a (e ∷ f ∷ es) h = item-none-is_last a (f ∷ es) (ground arith)

keep-absent :
    (key : Text) (es : List CacheEntry)
    → item key es ≡ none
    → keep (λ e. not (e.key == key || false)) es ≡ es
unfolding item keep
keep-absent key [] h = refl
keep-absent key (e ∷ es) h = ground (arith, keep-absent key es)

keep-init :
    (key : Text) (es : List CacheEntry)
    → UniqueKeys es
    → item key es ≡ none
    → keep (λ e. not (e.key == key || is_last e.key es)) es ≡ init es
unfolding item keep init
keep-init key [] u h = refl
keep-init key (e ∷ []) u h = ground (arith, ==_refl e.key)
keep-init key (e ∷ f ∷ es) (n, u) h =
    ground (arith, item-none-is_last e.key (f ∷ es) n, keep-init key (f ∷ es) u)

unlink-keep :
    (key : Text) (es : List CacheEntry) → unlink key es ≡ keep (λ e. not (e.key == key || false)) es
unfolding unlink keep
unlink-keep key [] = refl
unlink-keep key (e ∷ es) = ground (arith, unlink-keep key es)

keep-same :
    (f g : CacheEntry → Bool) (es : List CacheEntry)
    → ((e : CacheEntry) → f e ≡ g e)
    → keep f es ≡ keep g es
unfolding keep
keep-same f g [] same = refl
keep-same f g (e ∷ es) same = ground (arith, same e, keep-same f g es same)

keep-victims :
    (key : Text) (c : QueryCache) (victim : Text → Bool)
    → ((a : Text) → is_victim a key c ≡ victim a)
    → keep (λ e. not (e.key == key || victim e.key)) c.entries
      ≡ keep (λ e. not (e.key == key || is_victim e.key key c)) c.entries
keep-victims key c victim same =
    keep-same _ _ c.entries (λ e. ap (λ b. not (e.key == key || b)) (sym (same e.key)))

store-IsCache_only :
    (key : Text) (result : QueryResult) (now : ℕ) (c : QueryCache)
    → 0 < c.max_size
    → IsCache c
    → IsCache (store key result now c)
unfolding store evict_lru
store-IsCache_only key result now c room h = elim (Option-cases (item key c.entries)) [
  | inr (old, hit) ↦ rw (hit, store) (move_to_front-IsCache c _ old h hit)
  | inl miss ↦ elim (Bool-cases (leb c.max_size (length c.entries))) [
    | inl full ↦
        rw (miss, store, full)
          (record {
            unique = (item-init-none key c.entries miss, UniqueKeys-init c.entries h.unique);
            within = omega (arith, length-init c.entries, h.within);
          })
    | inr free ↦
        rw (miss, store, free) (record { unique = (miss, h.unique); within = ground arith })
  ]
]

-- A store, in a cache that has room for at least one entry, leaves the cache within its capacity and
-- with each key once. What is stored stands first, and behind it every entry that was there, in the
-- same order, except the old one of the same key, or, if there is none and the cache is full, the last
-- one.
pub store-IsCache :
    (key : Text) (result : QueryResult) (now : ℕ) (c : QueryCache)
    → 0 < c.max_size
    → IsCache c
    → IsCache (store key result now c)
      × ((store key result now c).entries
          ≡ record { key = key; result = result; inserted_at = now }
            ∷ keep (λ e. not (e.key == key || is_victim e.key key c)) c.entries)
unfolding store evict_lru move_to_front is_victim
store-IsCache key result now c room h =
    let new : CacheEntry = record { key = key; result = result; inserted_at = now } in
    (
      store-IsCache_only key result now c room h,
      elim (Option-cases (item key c.entries)) [
        | inr (old, hit) ↦
            rw (hit, store)
              (ap (◌∷◌ new) (
                unlink-keep key c.entries
                ∙ keep-victims key c (λ a. false) (λ a. rw (is_victim, hit) refl)))
        | inl miss ↦ elim (Bool-cases (leb c.max_size (length c.entries))) [
          | inl full ↦
              rw (miss, store, full)
                (ap (◌∷◌ new) (
                  sym (keep-init key c.entries h.unique miss)
                  ∙ keep-victims key c (λ a. is_last a c.entries)
                      (λ a. rw (is_victim, miss, full) refl)))
          | inr free ↦
              rw (miss, store, free)
                (ap (◌∷◌ new) (
                  sym (keep-absent key c.entries miss)
                  ∙ keep-victims key c (λ a. false) (λ a. rw (is_victim, miss, free) refl)))
        ]
      ],
    )

-- What was stored is returned until its time to live is over.
pub cached-store :
    (key : Text) (result : QueryResult) (now later : ℕ) (c : QueryCache)
    → later ≤ now + c.ttl
    → (cached key later (store key result now c)).0 ≡ some result
unfolding cached store move_to_front item
cached-store key result now later c soon = elim (Option-cases (item key c.entries)) [
  | inr (old, hit) ↦ rw (hit, store) (ground (arith, ==_refl key))
  | inl miss ↦ rw (miss, store) (ground (arith, ==_refl key))
]
