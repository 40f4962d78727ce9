-- ===== src/Signing/Queue/Bounds.antt =====
-- The limits of `ApprovalQueue` in queue.ts hold after every history of events.
use nostr_wot_sdk.Prelude.{
  ℕ, suc, ◌≤◌, ◌≡◌, refl, inl, inr, Bool, true, false, Option, none, List, [], ◌∷◌, Text, text_eq,
  nat_eq, ==_iff, length, count_if, count_if-append, length-append, lookup, remove, put_absent,
  length-remove-le, Option-cases, arith,
}
use nostr_wot_sdk.Signing.Queue.{
  PendingEntry, Code, Settlement, Tracked, Promise, Queue, Event, is_approval, create, entry_key,
  is_actionable, is_of_origin, actionable_count, origin_count, refusal, settle_promise, settle,
  fail_promise, fail, admit, track, fail_all, reject_where, reject, reject_pending_for_account,
  reject_pending_for_origin, dispose, track_event, work_event, timer_event, reject_event,
  account_event, origin_event, dispose_event, step, run,
}

-- The limits: all entries, one origin's entries, and one origin's prompts.
pub record Bounded (q : Queue) : Type 0 where
  pub global : length q.entries ≤ q.max_in_flight_global
  pub per_origin : (o : Text) → origin_count q o ≤ q.max_in_flight_per_origin
  pub pending : (o : Text) → actionable_count q o ≤ q.max_pending_per_origin

count_if-remove {ℓ} :
    {V : Type ℓ} (p : Text × V → Bool) (k : Text) (m : List (Text × V))
    → count_if p (remove k m) ≤ count_if p m
unfolding remove
count_if-remove p k [] = omega arith
count_if-remove p k ((j, v) ∷ m) = ground (arith, count_if-remove p k m)

-- The same limits, and no more entries in any count.
pub record Shrinks (q r : Queue) : Type 0 where
  pub limits :
      (r.max_in_flight_global ≡ q.max_in_flight_global)
      × (r.max_in_flight_per_origin ≡ q.max_in_flight_per_origin)
      × (r.max_pending_per_origin ≡ q.max_pending_per_origin)
  pub fewer : length r.entries ≤ length q.entries
  pub counts : (p : Text × Tracked → Bool) → count_if p r.entries ≤ count_if p q.entries

Shrinks-refl : (q : Queue) → Shrinks q q
Shrinks-refl q = record {
  limits = (refl, refl, refl);
  fewer = omega arith;
  counts = λ p. omega arith;
}

Shrinks-trans : (q r s : Queue) → Shrinks q r → Shrinks r s → Shrinks q s
Shrinks-trans q r s a b = record {
  limits = ground (arith, a.limits, b.limits);
  fewer = omega (arith, a.fewer, b.fewer);
  counts = λ p. omega (arith, a.counts p, b.counts p);
}

Shrinks-Bounded : (q r : Queue) → Shrinks q r → Bounded q → Bounded r
Shrinks-Bounded q r s b = record {
  global = ground (arith, s.limits, s.fewer, b.global);
  per_origin = λ o. ground (arith, s.limits, s.counts (is_of_origin o), b.per_origin o);
  pending = λ o. ground (arith, s.limits, s.counts (is_actionable o), b.pending o);
}

settle_promise-Shrinks :
    (q : Queue) (t : ℕ) (s : Settlement) (p : Promise) → Shrinks q (settle_promise q t s p)
unfolding settle_promise
settle_promise-Shrinks q t s p = elim (Option-cases p.settlement) [
  | inr (x, e) ↦ rw (e, settle_promise) (Shrinks-refl q)
  | inl e ↦
      rw (e, settle_promise)
        (record {
          limits = (refl, refl, refl);
          fewer = length-remove-le p.key q.entries;
          counts = λ f. count_if-remove f p.key q.entries;
        })
]

settle-Shrinks : (q : Queue) (t : ℕ) (s : Settlement) → Shrinks q (settle q t s)
unfolding settle
settle-Shrinks q t s = elim (Option-cases (lookup t q.promises)) [
  | inl e ↦ rw (e, settle) (Shrinks-refl q)
  | inr (p, e) ↦ rw (e, settle) (settle_promise-Shrinks q t s p)
]

fail_promise-Shrinks :
    (q : Queue) (t : ℕ) (c : Code) (r : Text) (p : Promise) → Shrinks q (fail_promise q t c r p)
unfolding fail_promise settle_promise
fail_promise-Shrinks q t c r p =
    let s = settle_promise-Shrinks q t (Settlement.failed c) p in
    elim (Option-cases p.settlement) [
      | inr (x, e) ↦ rw (e, fail_promise) (Shrinks-refl q)
      | inl e ↦
          rw (e, fail_promise) (record { limits = s.limits; fewer = s.fewer; counts = s.counts })
    ]

fail-Shrinks : (q : Queue) (t : ℕ) (c : Code) (r : Text) → Shrinks q (fail q t c r)
unfolding fail
fail-Shrinks q t c r = elim (Option-cases (lookup t q.promises)) [
  | inl e ↦ rw (e, fail) (Shrinks-refl q)
  | inr (p, e) ↦ rw (e, fail) (fail_promise-Shrinks q t c r p)
]

fail_all-Shrinks :
    (ts : List Tracked) (c : Code) (r : Text) (q : Queue) → Shrinks q (fail_all ts c r q)
unfolding fail_all
fail_all-Shrinks [] c r q = Shrinks-refl q
fail_all-Shrinks (t ∷ ts) c r q =
    Shrinks-trans q (fail q t.ticket c r) (fail_all ts c r (fail q t.ticket c r))
      (fail-Shrinks q t.ticket c r) (fail_all-Shrinks ts c r (fail q t.ticket c r))

-- What the guards say of an entry that they let in.
pub refusal-none :
    (q : Queue) (e : PendingEntry)
    → refusal q e ≡ none
    → (lookup (entry_key e.origin e.id e.kind) q.entries ≡ none)
      × (suc (length q.entries) ≤ q.max_in_flight_global)
      × (suc (origin_count q e.origin) ≤ q.max_in_flight_per_origin)
      × (is_approval e.kind ≡ true → suc (actionable_count q e.origin) ≤ q.max_pending_per_origin)
unfolding refusal
refusal-none q e free =
    (ground (arith, free), ground (arith, free), ground (arith, free), λ a. ground (arith, free, a))

admit-Bounded :
    (q : Queue) (e : PendingEntry) → refusal q e ≡ none → Bounded q → Bounded (admit q e)
unfolding admit
admit-Bounded q e free b =
    let key = entry_key e.origin e.id e.kind in
    let tracked : Tracked = record { entry = e; ticket = q.issued } in
    let (absent, room, origin_room, prompt_room) = refusal-none q e free in
    let shape = put_absent key tracked q.entries absent in
    let added : List (Text × Tracked) = (key, tracked) ∷ [] in
    record {
      global = rw (shape, length-append q.entries added) (omega arith);
      per_origin = λ o.
          rw (shape, count_if-append (is_of_origin o) q.entries added)
            (ground (arith, origin_room, b.per_origin o, ==_iff e.origin o));
      pending = λ o.
          rw (shape, count_if-append (is_actionable o) q.entries added)
            (ground (arith, prompt_room, b.pending o, ==_iff e.origin o));
    }

track-Bounded : (q : Queue) (e : PendingEntry) (s : Bool) → Bounded q → Bounded (track q e s).0
unfolding track
track-Bounded q e true b = elim (Option-cases (refusal q e)) [
  | inr (c, refused) ↦ rw (refused, track) b
  | inl free ↦ rw (free, track) (admit-Bounded q e free b)
]
track-Bounded q e false b = elim (Option-cases (refusal q e)) [
  | inr (c, refused) ↦ rw (refused, track) b
  | inl free ↦
      rw (free, track)
        (Shrinks-Bounded (admit q e) (settle (admit q e) q.issued Settlement.thrown)
          (settle-Shrinks (admit q e) q.issued Settlement.thrown) (admit-Bounded q e free b))
]

reject_where-Bounded :
    (f : PendingEntry → Bool) (c : Code) (r : Text) (q : Queue)
    → Bounded q
    → Bounded (reject_where f c r q).0
unfolding reject_where
reject_where-Bounded f c r q b = Shrinks-Bounded q _ (fail_all-Shrinks _ c r q) b

dispose-Bounded : (q : Queue) → Bounded q → Bounded (dispose q)
unfolding dispose
dispose-Bounded q b =
    reject_where-Bounded _ _ _ (record q { disposed = true })
      (record { global = b.global; per_origin = b.per_origin; pending = b.pending })

step-Bounded : (q : Queue) (e : Event) → Bounded q → Bounded (step q e)
unfolding step reject reject_pending_for_account reject_pending_for_origin
step-Bounded q (track_event e s) b = track-Bounded q e s b
step-Bounded q (work_event t s) b = Shrinks-Bounded q _ (settle-Shrinks q t _) b
step-Bounded q (timer_event t) b = Shrinks-Bounded q _ (fail-Shrinks q t _ _) b
step-Bounded q (reject_event o i r) b = reject_where-Bounded _ _ r q b
step-Bounded q (account_event [] r) b = b
step-Bounded q (account_event (c ∷ s) r) b = reject_where-Bounded _ _ r q b
step-Bounded q (origin_event [] r) b = b
step-Bounded q (origin_event (c ∷ s) r) b = reject_where-Bounded _ _ r q b
step-Bounded q dispose_event b = dispose-Bounded q b

run-Bounded : (q : Queue) (es : List Event) → Bounded q → Bounded (run q es)
unfolding run
run-Bounded q [] b = b
run-Bounded q (e ∷ es) b = run-Bounded (step q e) es (step-Bounded q e b)

-- Whatever happens to a queue, it never holds more entries than its global limit, more of one origin
-- than the limit per origin, or more prompts of one origin than the limit on prompts.
pub run-create-Bounded :
    (pending per_origin global : Option ℕ) (es : List Event)
    → Bounded (run (create pending per_origin global) es)
unfolding create
run-create-Bounded pending per_origin global es =
    run-Bounded (create pending per_origin global) es
      (record { global = omega arith; per_origin = λ o. omega arith; pending = λ o. omega arith })
