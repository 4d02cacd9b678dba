-- ===== src/Cluster/Heartbeat/Laws.antt =====
-- What the health gauge of a node shows, internal/cluster/heartbeat.go.
use mathlib.Core.Path.{subst}
use distributed_log_query_en.Cluster.Client.{
  rotates, heartbeat_at, addr_at, ClusterClient, send_heartbeat, beat,
}
use distributed_log_query_en.Rpc.{Code}
use distributed_log_query_en.Prelude.Text.{Text}
use distributed_log_query_en.Prelude.{
  [], refl, zero, ◌∙◌, Bool-cases, inr, inl, sym, Option-cases, none, ◌*◌, suc, ◌∷◌, length, All,
  some, ◌<◌, true, ◌≡◌, Option, Bool, ℕ, List,
}
use distributed_log_query_en.Cluster.Client.Laws.{
  beat_next, IsConnected, IsPatient, send_heartbeat-arrives, advance_and_reconnect-IsConnected,
}
use distributed_log_query_en.Cluster.Heartbeat.{beat_once, run, HeartbeatSender}

module _ (dial : Text → Bool) (dials : (a : Text) → dial a ≡ true) where
  -- Every answer is yes or makes the client try the next address, and one of the addresses takes the
  -- heartbeat whenever it is asked.
  pub record IsLed (addrs : List Text) (answers : ℕ → Text → Option Code) : Type 0 where
    pub patient : IsPatient dial dials answers
    pub leader : ℕ
    pub here : leader < length addrs
    pub leads : (n : ℕ) → answers n (addr_at addrs leader) ≡ none

  beat-IsConnected :
      (answers : ℕ → Text → Option Code) (k : ℕ) (c : ClusterClient)
      → IsConnected c
      → IsConnected (beat dial answers k c).1 × ((beat dial answers k c).1.addrs ≡ c.addrs)
  unfolding beat
  beat-IsConnected answers zero c h = (h, refl)
  beat-IsConnected answers (suc k) c h = elim (Option-cases (heartbeat_at (answers k) c.conn)) [
    | inl e ↦ rw (beat, e) (h, refl)
    | inr (code, e) ↦ elim (Bool-cases (rotates code)) [
      | inr stays ↦ rw (beat, e, stays) (h, refl)
      | inl turn ↦
          let (c', moved, h', same, next) = advance_and_reconnect-IsConnected dial dials c h in
          let (connected, kept) = beat-IsConnected answers k c' h' in
          subst (λ r. IsConnected r.1 × (r.1.addrs ≡ c.addrs))
            (sym (beat_next dial dials answers k c c' code e turn moved)) (connected, kept ∙ same)
    ]
  ]

  beat_once-healthy :
      (answers : ℕ → Text → Option Code) (h : HeartbeatSender)
      → IsConnected h.beater
      → IsLed h.beater.addrs answers
      → (beat_once dial answers h).health ≡ some true
  unfolding beat_once
  beat_once-healthy answers h connected led =
      rw
        (
          beat_once,
          send_heartbeat-arrives dial dials answers led.leader h.beater connected led.patient
              led.here led.leads,
        )
        refl

  beat_once-IsConnected :
      (answers : ℕ → Text → Option Code) (h : HeartbeatSender)
      → IsConnected h.beater
      → IsConnected (beat_once dial answers h).beater
        × ((beat_once dial answers h).beater.addrs ≡ h.beater.addrs)
  unfolding beat_once send_heartbeat
  beat_once-IsConnected answers h connected =
      let both = beat-IsConnected answers (length h.beater.addrs * 2) h.beater connected in
      elim (Option-cases (send_heartbeat dial answers h.beater).0) [
        | inl e ↦ rw (beat_once, e) both
        | inr (x, e) ↦ rw (beat_once, e) both
      ]

  -- A connected node that sends heartbeats, at least one, shows healthy after the last of them if at
  -- every tick one of the coordinators takes the heartbeat whenever it is asked, and each error that a
  -- coordinator answers is one on which the client tries the next address. It may be another
  -- coordinator at each tick, and the node may have shown anything before. Every dial is taken to
  -- succeed.
  pub run-healthy :
      (answers : ℕ → Text → Option Code) (ticks : List (ℕ → Text → Option Code))
      (h : HeartbeatSender)
      → IsConnected h.beater
      → All (IsLed h.beater.addrs) (answers ∷ ticks)
      → (run dial (answers ∷ ticks) h).health ≡ some true
  unfolding run
  run-healthy answers [] h connected (led, _) = beat_once-healthy answers h connected led
  run-healthy answers (next ∷ ticks) h connected (led, leds) =
      let (still, same) = beat_once-IsConnected answers h connected in
      run-healthy next ticks (beat_once dial answers h) still
        (subst (λ l. All (IsLed l) (next ∷ ticks)) (sym same) leds)
