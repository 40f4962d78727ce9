-- ===== src/Signing/Queue/Disposal.antt =====
-- What `dispose` of `ApprovalQueue` in queue.ts leaves.
use nostr_wot_sdk.Prelude.{
  ℕ, ◌≡◌, ◌≢◌, refl, inl, inr, true, none, some, List, [], ◌∷◌, Text, text, text_eq, nat_eq, ◌==◌,
  lookup, lookup_first, Option-cases, Bool-cases, arith, values, keep,
}
use nostr_wot_sdk.Signing.Queue.{
  PendingEntry, Code, Tracked, Promise, Queue, refusal, settle_promise, fail_promise, fail,
  fail_all, reject_where, dispose, shutdown,
}
use nostr_wot_sdk.Signing.Queue.Tickets.{Linked, fail_all-Linked}
use nostr_wot_sdk.Signing.Queue.Ends.{Among, fail_all-gone, fail_all-none}

fail-disposed : (q : Queue) (u : ℕ) (c : Code) (r : Text) → (fail q u c r).disposed ≡ q.disposed
unfolding fail fail_promise settle_promise
fail-disposed q u c r = ground arith

fail_all-disposed :
    (ts : List Tracked) (c : Code) (r : Text) (q : Queue)
    → (fail_all ts c r q).disposed ≡ q.disposed
unfolding fail_all
fail_all-disposed [] c r q = refl
fail_all-disposed (u ∷ ts) c r q =
    rw (fail_all-disposed ts c r (fail q u.ticket c r)) (fail-disposed q u.ticket c r)

-- Every entry is in the snapshot of them all.
lookup-Among :
    (k : Text) (tr : Tracked) (m : List (Text × Tracked))
    → lookup k m ≡ some tr
    → Among tr (keep (λ _. true) (values m))
unfolding lookup
lookup-Among k tr [] h = absurd (ground (arith, h))
lookup-Among k tr ((j, v) ∷ m) h = elim (Bool-cases (j == k)) [
  | inl same ↦ inl (ground (arith, h, same))
  | inr other ↦ inr (lookup-Among k tr m (ground (arith, h, other)))
]

empty_of_lookup : (m : List (Text × Tracked)) → ((k : Text) → lookup k m ≡ none) → m ≡ []
empty_of_lookup [] h = refl
empty_of_lookup ((k, v) ∷ m) h = absurd (ground (arith, h k, lookup_first k v m))

dispose-entries : (q : Queue) → Linked q → (dispose q).entries ≡ []
unfolding dispose reject_where
dispose-entries q l =
    let p : Queue = record q { disposed = true } in
    let linked : Linked p = record { issued = l.issued; waits = l.waits; listed = l.listed } in
    let all = keep (λ _. true) (values q.entries) in
    empty_of_lookup _ (λ k. elim (Option-cases (lookup k q.entries)) [
      | inl e ↦ fail_all-none all shutdown (text "Signer shut down") p k e
      | inr (tr, e) ↦
          fail_all-gone all shutdown (text "Signer shut down") p k tr linked
            (lookup-Among k tr q.entries e) e
    ])

dispose-Linked : (q : Queue) → Linked q → Linked (dispose q)
unfolding dispose reject_where
dispose-Linked q l =
    fail_all-Linked _ shutdown _ (record q { disposed = true })
      (record { issued = l.issued; waits = l.waits; listed = l.listed })

dispose-disposed : (q : Queue) → (dispose q).disposed ≡ true
unfolding dispose reject_where
dispose-disposed q = fail_all-disposed _ shutdown _ (record q { disposed = true })

lookup_empty : (m : List (Text × Tracked)) (k : Text) → m ≡ [] → lookup k m ≡ none
unfolding lookup
lookup_empty m k e = rw e refl

-- Disposing a queue whose entries and promises match empties it: no promise is left waiting, and every
-- later request is refused as shut down.
pub dispose_lem :
    (q : Queue)
    → Linked q
    → ((dispose q).entries ≡ [])
      × ((t : ℕ) (p : Promise) → lookup t (dispose q).promises ≡ some p → p.settlement ≢ none)
      × ((e : PendingEntry) → refusal (dispose q) e ≡ some shutdown)
unfolding refusal lookup
dispose_lem q l =
    let empty = dispose-entries q l in
    let linked = dispose-Linked q l in
    let closed = dispose-disposed q in
    (
      empty,
      (λ t p h waiting.
          let (tr, found, at) = linked.listed t p h waiting in
          ground (arith, found, lookup_empty (dispose q).entries p.key empty)),
      λ e. rw (closed, refusal) refl,
    )
