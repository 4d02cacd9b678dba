-- ===== src/Replication/Laws.antt =====
-- What the channels of internal/replication/replicator.go keep, drop and deliver.
use mathlib.Core.List.{append_assoc, append-nil}
use distributed_log_query_en.Prelude.{◌∙◌, inr, refl}
use distributed_log_query_en.Prelude.{
  inl, length-append, sym, Bool-cases, arith, [], ◌≤◌, ap, ltb, length, ◌≡◌, if◌then◌else◌, ◌∷◌,
  ◌++◌, List,
}
use distributed_log_query_en.Replication.{
  channel_capacity, send, Channel, ReplicateEntryRequest, Drained, drain_rest, drain_one, offer,
  ReplicaJob,
}

-- What happens at one channel: a job is offered, or the drain goroutine takes the front job.
pub data Event : Type 0 where
  offered : ReplicaJob → Event
  taken : Event

unfoldable pub run_event : Event → Drained → Drained
unfolding offer drain_one
run_event (offered job) (ch, sent) = (offer job ch, sent)
run_event taken d = drain_one d

unfoldable pub run_events : List Event → Drained → Drained
unfolding run_event
run_events [] d = d
run_events (v ∷ vs) d = run_events vs (run_event v d)

unfoldable pub sends : List ReplicaJob → List ReplicateEntryRequest
sends [] = []
sends (job ∷ jobs) = send job ∷ sends jobs

-- The jobs that the channel had room for when they were offered.
unfoldable pub kept : List Event → Drained → List ReplicaJob
kept [] d = []
kept (offered job ∷ vs) (ch, sent) =
    let rest = kept vs (run_event (offered job) (ch, sent)) in
    if ltb (length ch) channel_capacity then job ∷ rest else rest
kept (taken ∷ vs) d = kept vs (run_event taken d)

sends-append : (xs ys : List ReplicaJob) → sends (xs ++ ys) ≡ sends xs ++ sends ys
unfolding sends
sends-append [] ys = refl
sends-append (x ∷ xs) ys = ap (◌∷◌ (send x)) (sends-append xs ys)

-- A turn of the drain loop sends the front job behind what was sent, and loses nothing.
drain_one-keeps : (d : Drained) → (drain_one d).1 ++ sends (drain_one d).0 ≡ d.1 ++ sends d.0
unfolding drain_one sends
drain_one-keeps ([], sent) = refl
drain_one-keeps (job ∷ ch, sent) = append_assoc sent (send job ∷ []) (sends ch)

length-drain_one :
    (d : Drained) → length d.0 ≤ channel_capacity → length (drain_one d).0 ≤ channel_capacity
unfolding drain_one
length-drain_one ([], sent) h = h
length-drain_one (job ∷ ch, sent) h = omega arith

length-offer :
    (job : ReplicaJob) (ch : Channel)
    → length ch ≤ channel_capacity
    → length (offer job ch) ≤ channel_capacity
unfolding offer
length-offer job ch h = ground (arith, length-append ch (job ∷ []))

kept_offer :
    (job : ReplicaJob) (ch : Channel) (sent : List ReplicateEntryRequest) (rest : List ReplicaJob)
    → (sent ++ sends (offer job ch)) ++ sends rest
      ≡ (sent ++ sends ch) ++ sends (if ltb (length ch) channel_capacity then job ∷ rest else rest)
unfolding offer sends
kept_offer job ch sent rest = elim (Bool-cases (ltb (length ch) channel_capacity)) [
  | inl fits ↦
      rw (fits, sends-append ch (job ∷ []))
        (append_assoc sent (sends ch ++ send job ∷ []) (sends rest)
          ∙ ap (◌++◌ sent) (append_assoc (sends ch) (send job ∷ []) (sends rest))
          ∙ sym (append_assoc sent (sends ch) (send job ∷ sends rest)))
  | inr full ↦ rw full refl
]

-- Whatever the order of offers and of turns of the drain loop, the channel never holds more than its
-- capacity, and the attempts to send and what waits, together, are the attempts and what waited before
-- and then the jobs that had room, in the order of the offers. So a job for which there was room waits
-- or had its one attempt, and none is overtaken; whether an attempt succeeds is not said, since the
-- replicator does not try again.
pub run_events-fifo :
    (vs : List Event) (d : Drained)
    → length d.0 ≤ channel_capacity
    → (length (run_events vs d).0 ≤ channel_capacity)
      × ((run_events vs d).1 ++ sends (run_events vs d).0 ≡ (d.1 ++ sends d.0) ++ sends (kept vs d))
unfolding run_events kept sends
run_events-fifo [] d h = (h, sym (append-nil _))
run_events-fifo (offered job ∷ vs) (ch, sent) h =
    let (room, e) = run_events-fifo vs (offer job ch, sent) (length-offer job ch h) in
    (room, e ∙ kept_offer job ch sent (kept vs (offer job ch, sent)))
run_events-fifo (taken ∷ vs) d h =
    let (room, e) = run_events-fifo vs (drain_one d) (length-drain_one d h) in
    (room, e ∙ ap (λ front. front ++ sends (kept vs (drain_one d))) (drain_one-keeps d))

-- After `Stop`, as many turns as jobs wait empty the channel and send each of them, in order, behind
-- what was sent before.
drain_rest-empties :
    (ch : Channel) (sent : List ReplicateEntryRequest)
    → drain_rest (length ch) (ch, sent) ≡ ([], sent ++ sends ch)
unfolding drain_rest drain_one sends
drain_rest-empties [] sent = rw append-nil refl
drain_rest-empties (job ∷ ch) sent =
    drain_rest-empties ch (sent ++ send job ∷ [])
    ∙ ap (λ all. ([], all)) (append_assoc sent (send job ∷ []) (sends ch))
