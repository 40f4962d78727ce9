-- ===== src/Relay/AuthLeases/Counts.antt =====
-- The counts of `AuthLeases` in auth-leases.ts.
use nostr_wot_sdk.Prelude.{
  ◌≤◌, ◌≡◌, inl, inr, some, List, [], ◌∷◌, Text, text_eq, ==_iff, ==_refl, lookup, put, remove,
  lookup-put, lookup-remove, Bool-cases, Option-cases, arith,
}
use nostr_wot_sdk.Relay.AuthLeases.{
  LeaseRow, Rows, row_or_new, acquired, acquire, released, release_row, release, count, ends_with,
  drop_suffix, drop_identity, Event, acquire_event, release_event, drop_event, clear_event, step,
  run,
}

-- A row is there only while someone holds a lease.
pub record Held (rows : Rows) : Type 0 where
  pub positive : (key : Text) (row : LeaseRow) → lookup key rows ≡ some row → 1 ≤ row.count

acquire-Held : (rows : Rows) (key reason : Text) → Held rows → Held (acquire rows key reason)
unfolding acquire
acquire-Held rows key reason h = record {
  positive = λ j row e. ground (
    arith,
    e,
    h.positive j row,
    lookup-put key j (acquired reason (row_or_new (lookup key rows))) rows,
  );
}

release_row-Held :
    (rows : Rows) (key : Text) (row : LeaseRow) → Held rows → Held (release_row rows key row).0
unfolding release_row
release_row-Held rows key row h = record {
  positive = λ j r e.
      ground (arith, e, h.positive j r, lookup-put key j row rows, lookup-remove key j rows);
}

release-Held : (rows : Rows) (key reason : Text) → Held rows → Held (release rows key reason).0
unfolding release
release-Held rows key reason h = elim (Option-cases (lookup key rows)) [
  | inl e ↦ rw (e, release) h
  | inr (row, e) ↦ rw (e, release) (release_row-Held rows key (released reason row) h)
]

remove-Held : (rows : Rows) (key : Text) → Held rows → Held (remove key rows)
remove-Held rows key h = record {
  positive = λ j r e. ground (arith, e, h.positive j r, lookup-remove key j rows);
}

drop_suffix-Held :
    (suffix : Text) (snapshot rows : Rows) → Held rows → Held (drop_suffix suffix snapshot rows)
unfolding drop_suffix
drop_suffix-Held suffix [] rows h = h
drop_suffix-Held suffix ((key, row) ∷ snapshot) rows h = elim (Bool-cases (ends_with key suffix)) [
  | inl e ↦ rw e (drop_suffix-Held suffix snapshot (remove key rows) (remove-Held rows key h))
  | inr e ↦ rw e (drop_suffix-Held suffix snapshot rows h)
]

step-Held : (rows : Rows) (e : Event) → Held rows → Held (step rows e)
unfolding step drop_identity lookup
step-Held rows (acquire_event k r) h = acquire-Held rows k r h
step-Held rows (release_event k r) h = release-Held rows k r h
step-Held rows (drop_event i) h = drop_suffix-Held _ rows rows h
step-Held rows clear_event h = record { positive = λ j r e. absurd (ground (arith, e)) }

-- Where every row has a positive count, it still does after any history of acquiring, releasing,
-- dropping an identity and clearing.
pub run-Held : (rows : Rows) (es : List Event) → Held rows → Held (run rows es)
unfolding run
run-Held rows [] h = h
run-Held rows (e ∷ es) h = run-Held (step rows e) es (step-Held rows e h)

-- Where every row has a positive count, a lease that is taken and given back leaves every count as it was, and the
-- release returns the count of its key.
pub release-acquire :
    (rows : Rows) (key reason : Text)
    → Held rows
    → ((release (acquire rows key reason) key reason).1 ≡ some (count rows key))
      × ((j : Text) → count (release (acquire rows key reason) key reason).0 j ≡ count rows j)
unfolding acquire release release_row count
release-acquire rows key reason h =
    let row = acquired reason (row_or_new (lookup key rows)) in
    let there : lookup key (put key row rows) ≡ some row =
      ground (arith, lookup-put key key row rows, ==_refl key) in
    let next = released reason row in
    (
      rw (there, release) (ground arith),
      λ j.
          rw (there, release)
            (ground (
              arith,
              lookup-put key j row rows,
              lookup-put key j next (put key row rows),
              lookup-remove key j (put key row rows),
              ==_iff key j,
              h.positive j,
            )),
    )
