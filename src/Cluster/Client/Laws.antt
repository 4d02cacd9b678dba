-- ===== src/Cluster/Client/Laws.antt =====
-- When the heartbeats of internal/cluster/client.go arrive.
use mathlib.Core.Path.{subst}
use distributed_log_query_en.Rpc.{Code}
use distributed_log_query_en.Prelude.Text.{Text}
use distributed_log_query_en.Prelude.{
  ap, sym, ◌≢◌, inr, ◌∙◌, inl, Option-cases, ◌*◌, zero, Option, none, suc, ◌⊎◌, arith, ◌≤◌, some,
  true, ◌≡◌, ◌%◌, length, Bool, ◌+◌, ◌<◌, ℕ,
}
use distributed_log_query_en.Cluster.Client.{
  send_heartbeat, heartbeat_at, beat, rotates, connect_to, advance_and_reconnect, addr_at,
  ClusterClient,
}
use distributed_log_query_en.Prelude.{refl}
use native.Mathlib.Nat.{mod-lt, mod-eq_of_lt, mod_self}

-- A client that is connected to the address at its index.
pub record IsConnected (c : ClusterClient) : Type 0 where
  pub in_range : c.idx < length c.addrs
  pub open_at : c.conn ≡ some (addr_at c.addrs c.idx)

next-lt : (i n : ℕ) → i + 1 < n → (i + 1) % n ≡ i + 1
next-lt i n h = mod-eq_of_lt h

next-wraps : (i n : ℕ) → i + 1 ≡ n → (i + 1) % n ≡ 0
next-wraps i n h = subst (λ m. m % n ≡ 0) (sym h) (mod_self n)

module _ (dial : Text → Bool) (dials : (a : Text) → dial a ≡ true) where
  -- A rotation connects to the next address, and to the first after the last.
  pub advance_and_reconnect-IsConnected :
      (c : ClusterClient)
      → IsConnected c
      → (c' : ClusterClient) × (advance_and_reconnect dial c ≡ (none, c'))
        × IsConnected c'
        × (c'.addrs ≡ c.addrs)
        × (c'.idx ≡ (c.idx + 1) % length c.addrs)
  unfolding advance_and_reconnect connect_to
  advance_and_reconnect-IsConnected c h =
      let next = (c.idx + 1) % length c.addrs in
      let lt : next < length c.addrs =
        mod-lt (c.idx + 1) {m = length c.addrs} (omega (arith, h.in_range)) in
      (
        record c { idx = next; conn = some (addr_at c.addrs next) },
        rw dials refl,
        record { in_range = lt; open_at = refl },
        refl,
        refl,
      )

  module _ (answers : ℕ → Text → Option Code) where
    -- Every answer is yes, or one on which the next address is tried.
    abbrev pub IsPatient : Type 0
    IsPatient = (n : ℕ) (a : Text) (code : Code) → answers n a ≡ some code → rotates code ≡ true

    beat_done :
        (k : ℕ) (c : ClusterClient)
        → heartbeat_at (answers k) c.conn ≡ none
        → (beat dial answers (suc k) c).0 ≡ none
    unfolding beat
    beat_done k c h = ground arith

    pub beat_next :
        (k : ℕ) (c c' : ClusterClient) (code : Code)
        → heartbeat_at (answers k) c.conn ≡ some code
        → rotates code ≡ true
        → advance_and_reconnect dial c ≡ (none, c')
        → beat dial answers (suc k) c ≡ beat dial answers k c'
    unfolding beat
    beat_next k c c' code h turn moved = ground arith

    -- Where the address of the leader is reached in fewer turns than there are attempts.
    beat_arrives :
        (leader k : ℕ) (c : ClusterClient)
        → IsConnected c
        → IsPatient
        → leader < length c.addrs
        → ((n : ℕ) → answers n (addr_at c.addrs leader) ≡ none)
        → ((c.idx ≤ leader) × (leader < c.idx + k))
          ⊎ ((leader < c.idx) × (length c.addrs + leader < c.idx + k))
        → (beat dial answers k c).0 ≡ none
    beat_arrives leader zero c h patient here leads near = absurd (omega (arith, h.in_range))
    beat_arrives leader (suc k) c h patient here leads near =
        let asked = ap (heartbeat_at (answers k)) h.open_at in
        elim (Option-cases (answers k (addr_at c.addrs c.idx))) [
          | inl e ↦ beat_done k c (asked ∙ e)
          | inr (code, e) ↦
              let (c', moved, h', same, next) = advance_and_reconnect-IsConnected c h in
              let up = next-lt c.idx (length c.addrs) in
              let wrap = next-wraps c.idx (length c.addrs) in
              let apart : c.idx ≢ leader =
                λ here'. cc (ap (λ i. answers k (addr_at c.addrs i)) here', e, leads k) in
              let counted = ap (λ l. length l) same in
              ap (λ r. r.0) (beat_next k c c' code (asked ∙ e) (patient k _ code e) moved)
              ∙ beat_arrives leader k c' h' patient (omega arith)
                  (λ n. ap (λ l. answers n (addr_at l leader)) same ∙ leads n)
                  (ground (arith, up, wrap, h.in_range))
        ]

    -- If each coordinator answers a heartbeat, refuses it as no leader or is unavailable, and one of
    -- them takes it whenever it is asked, then `SendHeartbeat` succeeds within its attempts, two for
    -- each address, wherever the rotation stands; every dial is taken to succeed.
    pub send_heartbeat-arrives :
        (leader : ℕ) (c : ClusterClient)
        → IsConnected c
        → IsPatient
        → leader < length c.addrs
        → ((n : ℕ) → answers n (addr_at c.addrs leader) ≡ none)
        → (send_heartbeat dial answers c).0 ≡ none
    unfolding send_heartbeat
    send_heartbeat-arrives leader c h patient here leads =
        beat_arrives leader (length c.addrs * 2) c h patient here leads (ground (arith, h.in_range))
