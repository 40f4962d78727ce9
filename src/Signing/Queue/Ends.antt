-- ===== src/Signing/Queue/Ends.antt =====
-- How the promises of `ApprovalQueue` in queue.ts end: once, and all of them when the queue is disposed.
use nostr_wot_sdk.Prelude.{
  ℕ, ◌≡◌, refl, ◌⊎◌, inl, inr, Bool, true, false, none, some, List, [], ◌∷◌, Text, text_eq, nat_eq,
  ==_iff, lookup, lookup-put, lookup-remove, Option-cases, arith,
}
use nostr_wot_sdk.Signing.Queue.{
  PendingEntry, Code, Settlement, Tracked, Promise, Queue, Event, entry_key, refusal,
  settle_promise, settle, fail_promise, fail, admit, track, fail_all, reject_where, reject,
  reject_pending_for_account, reject_pending_for_origin, dispose, track_event, work_event,
  timer_event, reject_event, account_event, origin_event, dispose_event, step, run, thrown, failed,
}
use nostr_wot_sdk.Signing.Queue.Tickets.{Linked, step-Linked, fail-Linked}

-- The promise of the ticket has ended like this.
abbrev pub Ended : Queue → ℕ → Settlement → Type 0
Ended q t s = (p : Promise) × (lookup t q.promises ≡ some p) × (p.settlement ≡ some s)

settle-Ended :
    (q : Queue) (u : ℕ) (o : Settlement) (t : ℕ) (s : Settlement)
    → Ended q t s
    → Ended (settle q u o) t s
unfolding settle settle_promise
settle-Ended q u o t s (x, found, over) = elim (Option-cases (lookup u q.promises)) [
  | inl e ↦ rw (e, settle) (x, found, over)
  | inr (p, e) ↦ elim (Option-cases p.settlement) [
    | inr (y, n) ↦ rw (e, settle) (rw (n, settle_promise) (x, found, over))
    | inl n ↦
        rw (e, settle)
          (rw (n, settle_promise)
            (
              x,
              ground (
                arith,
                found,
                over,
                e,
                n,
                ==_iff u t,
                lookup-put u t (record p { settlement = some o }) q.promises,
              ),
              over,
            ))
  ]
]

fail-Ended :
    (q : Queue) (u : ℕ) (c : Code) (r : Text) (t : ℕ) (s : Settlement)
    → Ended q t s
    → Ended (fail q u c r) t s
unfolding fail fail_promise settle_promise
fail-Ended q u c r t s (x, found, over) = elim (Option-cases (lookup u q.promises)) [
  | inl e ↦ rw (e, fail) (x, found, over)
  | inr (p, e) ↦ elim (Option-cases p.settlement) [
    | inr (y, n) ↦ rw (e, fail) (rw (n, fail_promise) (x, found, over))
    | inl n ↦
        let kept : lookup t (settle_promise q u (failed c) p).promises ≡ some x =
          rw (n, settle_promise)
            (ground (
              arith,
              found,
              over,
              e,
              n,
              ==_iff u t,
              lookup-put u t (record p { settlement = some (failed c) }) q.promises,
            )) in
        rw (e, fail) (rw (n, fail_promise) (x, kept, over))
  ]
]

fail_all-Ended :
    (ts : List Tracked) (c : Code) (r : Text) (q : Queue) (t : ℕ) (s : Settlement)
    → Ended q t s
    → Ended (fail_all ts c r q) t s
unfolding fail_all
fail_all-Ended [] c r q t s d = d
fail_all-Ended (u ∷ ts) c r q t s d =
    fail_all-Ended ts c r (fail q u.ticket c r) t s (fail-Ended q u.ticket c r t s d)

admit-Ended :
    (q : Queue) (e : PendingEntry) (t : ℕ) (s : Settlement)
    → Linked q
    → Ended q t s
    → Ended (admit q e) t s
unfolding admit
admit-Ended q e t s l (x, found, over) =
    let promise : Promise = record {
      key = entry_key e.origin e.id e.kind;
      entry = e;
      settlement = none;
    } in
    (
      x,
      ground (
        arith,
        found,
        l.issued t x found,
        ==_iff q.issued t,
        lookup-put q.issued t promise q.promises,
      ),
      over,
    )

track-Ended :
    (q : Queue) (e : PendingEntry) (b : Bool) (t : ℕ) (s : Settlement)
    → Linked q
    → Ended q t s
    → Ended (track q e b).0 t s
unfolding track
track-Ended q e true t s l d = elim (Option-cases (refusal q e)) [
  | inr (c, refused) ↦ rw (refused, track) d
  | inl free ↦ rw (free, track) (admit-Ended q e t s l d)
]
track-Ended q e false t s l d = elim (Option-cases (refusal q e)) [
  | inr (c, refused) ↦ rw (refused, track) d
  | inl free ↦
      rw (free, track) (settle-Ended (admit q e) q.issued thrown t s (admit-Ended q e t s l d))
]

step-Ended :
    (q : Queue) (e : Event) (t : ℕ) (s : Settlement) → Linked q → Ended q t s → Ended (step q e) t s
unfolding step reject reject_pending_for_account reject_pending_for_origin dispose reject_where
step-Ended q (track_event e b) t s l d = track-Ended q e b t s l d
step-Ended q (work_event u b) t s l d = settle-Ended q u _ t s d
step-Ended q (timer_event u) t s l d = fail-Ended q u _ _ t s d
step-Ended q (reject_event o i r) t s l d = fail_all-Ended _ _ r q t s d
step-Ended q (account_event [] r) t s l d = d
step-Ended q (account_event (c ∷ a) r) t s l d = fail_all-Ended _ _ r q t s d
step-Ended q (origin_event [] r) t s l d = d
step-Ended q (origin_event (c ∷ o) r) t s l d = fail_all-Ended _ _ r q t s d
step-Ended q dispose_event t s l d = fail_all-Ended _ _ _ (record q { disposed = true }) t s d

-- A promise that has ended never ends another way: whatever happens later, it keeps its outcome.
pub run-Ended :
    (q : Queue) (es : List Event) (t : ℕ) (s : Settlement)
    → Linked q
    → Ended q t s
    → Ended (run q es) t s
unfolding run
run-Ended q [] t s l d = d
run-Ended q (e ∷ es) t s l d =
    run-Ended (step q e) es t s (step-Linked q e l) (step-Ended q e t s l d)

-- `tr` is one of the list.
abbrev pub Among : Tracked → List Tracked → Type 0
Among tr [] = ⊥
Among tr (u ∷ ts) = (tr ≡ u) ⊎ Among tr ts

fail-entries :
    (q : Queue) (u : ℕ) (c : Code) (r : Text) (k : Text)
    → (lookup k (fail q u c r).entries ≡ lookup k q.entries)
      ⊎ (lookup k (fail q u c r).entries ≡ none)
unfolding fail fail_promise settle_promise
fail-entries q u c r k = elim (Option-cases (lookup u q.promises)) [
  | inl e ↦ rw (e, fail) (inl refl)
  | inr (p, e) ↦ elim (Option-cases p.settlement) [
    | inr (y, n) ↦ rw (e, fail) (rw (n, fail_promise) (inl refl))
    | inl n ↦
        let out : (lookup k (settle_promise q u (failed c) p).entries ≡ lookup k q.entries)
            ⊎ (lookup k (settle_promise q u (failed c) p).entries ≡ none) =
          rw (n, settle_promise) (ground (arith, lookup-remove p.key k q.entries)) in
        rw (e, fail) (rw (n, fail_promise) out)
  ]
]

fail-own :
    (q : Queue) (k : Text) (tr : Tracked) (c : Code) (r : Text)
    → Linked q
    → lookup k q.entries ≡ some tr
    → lookup k (fail q tr.ticket c r).entries ≡ none
unfolding fail fail_promise settle_promise
fail-own q k tr c r l found =
    let (p, e, n, at) = l.waits k tr found in
    let out : lookup k (settle_promise q tr.ticket (failed c) p).entries ≡ none =
      rw (n, settle_promise)
        (ground (arith, at, lookup-remove p.key k q.entries, ==_iff p.key k)) in
    rw (e, fail) (rw (n, fail_promise) out)

pub fail_all-none :
    (ts : List Tracked) (c : Code) (r : Text) (q : Queue) (k : Text)
    → lookup k q.entries ≡ none
    → lookup k (fail_all ts c r q).entries ≡ none
unfolding fail_all
fail_all-none [] c r q k h = h
fail_all-none (u ∷ ts) c r q k h =
    fail_all-none ts c r (fail q u.ticket c r) k (ground (arith, h, fail-entries q u.ticket c r k))

pub fail_all-gone :
    (ts : List Tracked) (c : Code) (r : Text) (q : Queue) (k : Text) (tr : Tracked)
    → Linked q
    → Among tr ts
    → lookup k q.entries ≡ some tr
    → lookup k (fail_all ts c r q).entries ≡ none
unfolding fail_all
fail_all-gone [] c r q k tr l i h = absurd i
fail_all-gone (u ∷ ts) c r q k tr l (inl same) h =
    fail_all-none ts c r (fail q u.ticket c r) k (rw⁻¹ same (fail-own q k tr c r l h))
fail_all-gone (u ∷ ts) c r q k tr l (inr i) h = elim (fail-entries q u.ticket c r k) [
  | inl same ↦
      fail_all-gone ts c r (fail q u.ticket c r) k tr (fail-Linked q u.ticket c r l) i
        (ground (arith, same, h))
  | inr none_left ↦ fail_all-none ts c r (fail q u.ticket c r) k none_left
]
