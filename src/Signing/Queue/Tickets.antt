-- ===== src/Signing/Queue/Tickets.antt =====
-- The promises that `ApprovalQueue` in queue.ts hands out: each waits with its entry in the map, or has
-- ended, once.
use nostr_wot_sdk.Prelude.{
  ℕ, ◌<◌, ◌≡◌, refl, inl, inr, Bool, true, false, Option, none, some, List, [], ◌∷◌, Text, text_eq,
  nat_eq, ◌==◌, ==_iff, ==_refl, lookup, put, remove, lookup-put, lookup-remove, Bool-cases,
  Option-cases, arith,
}
use nostr_wot_sdk.Signing.Queue.{
  PendingEntry, Code, Settlement, Tracked, Promise, Queue, Event, create, entry_key, refusal,
  settle_promise, settle, fail_promise, fail, admit, track, fail_all, reject_where, reject,
  reject_pending_for_account, reject_pending_for_origin, dispose, track_event, work_event,
  timer_event, reject_event, account_event, origin_event, dispose_event, step, run, thrown, failed,
}
use nostr_wot_sdk.Signing.Queue.Bounds.{refusal-none}

-- A ticket was handed out, each entry belongs to a promise that waits, and each promise that waits has
-- its entry.
pub record Linked (q : Queue) : Type 0 where
  pub issued : (t : ℕ) (p : Promise) → lookup t q.promises ≡ some p → t < q.issued
  pub waits :
      (k : Text) (tr : Tracked)
      → lookup k q.entries ≡ some tr
      → (p : Promise) × (lookup tr.ticket q.promises ≡ some p) × (p.settlement ≡ none) × (p.key ≡ k)
  pub listed :
      (t : ℕ) (p : Promise)
      → lookup t q.promises ≡ some p
      → p.settlement ≡ none
      → (tr : Tracked) × (lookup p.key q.entries ≡ some tr) × (tr.ticket ≡ t)

abbrev ended : Promise → Settlement → Promise
ended p s = record p { settlement = some s }

settle_promise-Linked :
    (q : Queue) (t : ℕ) (s : Settlement) (p : Promise)
    → lookup t q.promises ≡ some p
    → p.settlement ≡ none
    → Linked q
    → Linked
        (record q { entries = remove p.key q.entries; promises = put t (ended p s) q.promises })
settle_promise-Linked q t s p e waiting l = record {
  issued = λ u x h.
      ground
        (arith, h, lookup-put t u (ended p s) q.promises, l.issued t p e, l.issued u x, ==_iff t u);
  waits = λ k tr h.
      let kept : lookup k q.entries ≡ some tr =
        ground (arith, h, lookup-remove p.key k q.entries) in
      let (x, found, unsettled, key) = l.waits k tr kept in
      (
        x,
        ground (
          arith,
          h,
          e,
          found,
          key,
          lookup-remove p.key k q.entries,
          ==_iff p.key k,
          lookup-put t tr.ticket (ended p s) q.promises,
          ==_iff t tr.ticket,
        ),
        unsettled,
        key,
      );
  listed = λ u x h n.
      let old : lookup u q.promises ≡ some x =
        ground (arith, h, n, lookup-put t u (ended p s) q.promises, ==_iff t u) in
      let (tr, found, same) = l.listed u x old n in
      let (tr0, found0, same0) = l.listed t p e waiting in
      (
        tr,
        ground (
          arith,
          h,
          n,
          found,
          found0,
          same,
          same0,
          lookup-remove p.key x.key q.entries,
          ==_iff p.key x.key,
          lookup-put t u (ended p s) q.promises,
          ==_iff t u,
        ),
        same,
      );
}

settle-Linked : (q : Queue) (t : ℕ) (s : Settlement) → Linked q → Linked (settle q t s)
unfolding settle settle_promise
settle-Linked q t s l = elim (Option-cases (lookup t q.promises)) [
  | inl e ↦ rw (e, settle) l
  | inr (p, e) ↦ elim (Option-cases p.settlement) [
    | inr (x, n) ↦ rw (e, settle) (rw (n, settle_promise) l)
    | inl n ↦ rw (e, settle) (rw (n, settle_promise) (settle_promise-Linked q t s p e n l))
  ]
]

pub fail-Linked : (q : Queue) (t : ℕ) (c : Code) (r : Text) → Linked q → Linked (fail q t c r)
unfolding fail fail_promise settle_promise
fail-Linked q t c r l = elim (Option-cases (lookup t q.promises)) [
  | inl e ↦ rw (e, fail) l
  | inr (p, e) ↦ elim (Option-cases p.settlement) [
    | inr (x, n) ↦ rw (e, fail) (rw (n, fail_promise) l)
    | inl n ↦
        let m : Linked (settle_promise q t (failed c) p) =
          rw (n, settle_promise) (settle_promise-Linked q t (failed c) p e n l) in
        rw (e, fail)
          (rw (n, fail_promise) (record { issued = m.issued; waits = m.waits; listed = m.listed }))
  ]
]

pub fail_all-Linked :
    (ts : List Tracked) (c : Code) (r : Text) (q : Queue) → Linked q → Linked (fail_all ts c r q)
unfolding fail_all
fail_all-Linked [] c r q l = l
fail_all-Linked (t ∷ ts) c r q l =
    fail_all-Linked ts c r (fail q t.ticket c r) (fail-Linked q t.ticket c r l)

admit-Linked : (q : Queue) (e : PendingEntry) → refusal q e ≡ none → Linked q → Linked (admit q e)
unfolding admit
admit-Linked q e free l =
    let key = entry_key e.origin e.id e.kind in
    let tracked : Tracked = record { entry = e; ticket = q.issued } in
    let promise : Promise = record { key = key; entry = e; settlement = none } in
    let absent = (refusal-none q e free).0 in
    record {
      issued = λ u x h.
          ground
            (arith, h, lookup-put q.issued u promise q.promises, l.issued u x, ==_iff q.issued u);
      waits = λ k tr h. elim (Bool-cases (key == k)) [
        | inl same ↦ (
          promise,
          ground (
            arith,
            h,
            same,
            lookup-put key k tracked q.entries,
            lookup-put q.issued tr.ticket promise q.promises,
            ==_refl q.issued,
            ==_iff q.issued tr.ticket,
          ),
          refl,
          (==_iff key k).0 same,
        )
        | inr other ↦
            let (p, found, unsettled, at) =
              l.waits k tr (ground (arith, h, other, lookup-put key k tracked q.entries)) in
            (
              p,
              ground (
                arith,
                found,
                l.issued tr.ticket p found,
                lookup-put q.issued tr.ticket promise q.promises,
                ==_iff q.issued tr.ticket,
              ),
              unsettled,
              at,
            )
      ];
      listed = λ u x h n. elim (Bool-cases (q.issued == u)) [
        | inl same ↦ (
          tracked,
          ground (
            arith,
            h,
            same,
            lookup-put q.issued u promise q.promises,
            lookup-put key x.key tracked q.entries,
            ==_refl key,
            ==_iff key x.key,
          ),
          (==_iff q.issued u).0 same,
        )
        | inr other ↦
            let (tr, found, at) =
              l.listed u x (ground (arith, h, other, lookup-put q.issued u promise q.promises)) n in
            (
              tr,
              ground
                  (arith, found, absent, lookup-put key x.key tracked q.entries, ==_iff key x.key),
              at,
            )
      ];
    }

track-Linked : (q : Queue) (e : PendingEntry) (s : Bool) → Linked q → Linked (track q e s).0
unfolding track
track-Linked q e true l = elim (Option-cases (refusal q e)) [
  | inr (c, refused) ↦ rw (refused, track) l
  | inl free ↦ rw (free, track) (admit-Linked q e free l)
]
track-Linked q e false l = elim (Option-cases (refusal q e)) [
  | inr (c, refused) ↦ rw (refused, track) l
  | inl free ↦
      rw (free, track) (settle-Linked (admit q e) q.issued thrown (admit-Linked q e free l))
]

reject_where-Linked :
    (f : PendingEntry → Bool) (c : Code) (r : Text) (q : Queue)
    → Linked q
    → Linked (reject_where f c r q).0
unfolding reject_where
reject_where-Linked f c r q l = fail_all-Linked _ c r q l

pub step-Linked : (q : Queue) (e : Event) → Linked q → Linked (step q e)
unfolding step reject reject_pending_for_account reject_pending_for_origin dispose
step-Linked q (track_event e s) l = track-Linked q e s l
step-Linked q (work_event t s) l = settle-Linked q t _ l
step-Linked q (timer_event t) l = fail-Linked q t _ _ l
step-Linked q (reject_event o i r) l = reject_where-Linked _ _ r q l
step-Linked q (account_event [] r) l = l
step-Linked q (account_event (c ∷ s) r) l = reject_where-Linked _ _ r q l
step-Linked q (origin_event [] r) l = l
step-Linked q (origin_event (c ∷ s) r) l = reject_where-Linked _ _ r q l
step-Linked q dispose_event l =
    reject_where-Linked _ _ _ (record q { disposed = true })
      (record { issued = l.issued; waits = l.waits; listed = l.listed })

pub run-Linked : (q : Queue) (es : List Event) → Linked q → Linked (run q es)
unfolding run
run-Linked q [] l = l
run-Linked q (e ∷ es) l = run-Linked (step q e) es (step-Linked q e l)

pub create-Linked :
    (pending per_origin global : Option ℕ) → Linked (create pending per_origin global)
unfolding create lookup
create-Linked pending per_origin global = record {
  issued = λ t p h. absurd (ground (arith, h));
  waits = λ k tr h. absurd (ground (arith, h));
  listed = λ t p h n. absurd (ground (arith, h));
}

-- Whatever happens to a queue, each entry of the map belongs to a promise that has not ended, and each
-- promise that has not ended has its entry in the map, under its own key.
pub run-create-Linked :
    (pending per_origin global : Option ℕ) (es : List Event)
    → Linked (run (create pending per_origin global) es)
run-create-Linked pending per_origin global es =
    run-Linked (create pending per_origin global) es (create-Linked pending per_origin global)
