-- ===== src/Relay/BoundedMap/Contents.antt =====
-- What each call of bounded-map.ts leaves in the map.
use nostr_wot_sdk.Prelude.{
  ℕ, suc, ◌+◌, ◌-◌, ◌≤◌, ◌≡◌, refl, sym, ap, ◌∙◌, subst, ◌⊎◌, inl, inr, Bool, true, false, not,
  Option, none, some, List, [], ◌∷◌, ◌++◌, Eq, length, drop, drop-append, keep, lookup, put, remove,
  Distinct, put-Distinct, remove-Distinct, remove_first, remove_absent, length-remove,
  length-remove-le, put_absent, lookup-remove_self, length-append, Bool-cases, Option-cases, arith,
  Distinct-concat, lookup_first, lookup_middle, remove_middle, append_assoc,
}
use nostr_wot_sdk.Relay.BoundedMap.{
  Policy, lru, fifo, Entry, BoundedMap, Reason, size, remove_entry, insert, set, new_entry,
  is_expired, touch, expired, deleted, cleared, peek, get, delete, clear, clear_loop, sweep,
  sweep_loop,
}
use nostr_wot_sdk.Relay.BoundedMap.Bounds.{
  sum_bytes, sum_bytes-remove, sum_bytes-append, Fits, IsCounted, IsValid, remove_entry-IsCounted,
  enforce-Evicted,
}

pub Fits-mono : (b : Option ℕ) (t u n k : ℕ) → t ≤ u → n ≤ k → Fits b u k → Fits b t n
Fits-mono none t u n k h j f = tt
Fits-mono (some b) t u n k h j f = ground arith

Policy-cases : (p : Policy) → (p ≡ lru) ⊎ (p ≡ fifo)
Policy-cases lru = inl refl
Policy-cases fifo = inr refl

module _ {ℓ} {K V : Type ℓ} ⦃q : Eq K⦄ where
  append_new-IsCounted :
      (k : K) (e : Entry V) (m : List (K × Entry V)) (total : ℕ)
      → lookup k m ≡ none
      → Distinct m
      → total ≡ sum_bytes m
      → Distinct (m ++ (k, e) ∷ []) × (total + e.bytes ≡ sum_bytes (m ++ (k, e) ∷ []))
  append_new-IsCounted k e m total h d t =
      (Distinct-concat k e m h d, omega (arith, sum_bytes-append m ((k, e) ∷ [])))

  pub insert_lem :
      (m : BoundedMap K V) (k : K) (v : V) (ttl : Option ℕ) (now : ℕ)
      → IsCounted m
      → ((insert m k v ttl now).map ≡ remove k m.map ++ (k, new_entry m k v ttl now) ∷ [])
        × IsCounted (insert m k v ttl now)
        × ((insert m k v ttl now).max_entries ≡ m.max_entries)
        × ((insert m k v ttl now).max_bytes ≡ m.max_bytes)
  unfolding insert remove_entry
  insert_lem m k v ttl now c = elim (Option-cases (lookup k m.map)) [
    | inl miss ↦
        let e = new_entry m k v ttl now in
        let added = append_new-IsCounted k e m.map m.total_bytes miss c.distinct c.exact in
        let grown = put_absent k e m.map miss in
        rw (miss, insert)
          (
            grown ∙ ap (λ l. l ++ (k, e) ∷ []) (sym (remove_absent k m.map miss)),
            record {
              distinct = subst Distinct (sym grown) added.0;
              exact = added.1 ∙ ap sum_bytes (sym grown);
            },
            refl,
            refl,
          )
    | inr (old, hit) ↦
        let e = new_entry m k v ttl now in
        let less = remove_entry-IsCounted m k old deleted false hit c in
        let miss = lookup-remove_self k m.map in
        let added =
          append_new-IsCounted k e (remove k m.map) (m.total_bytes - old.bytes) miss less.distinct
            less.exact in
        let grown = put_absent k e (remove k m.map) miss in
        rw (hit, insert)
          (
            grown,
            record {
              distinct = subst Distinct (sym grown) added.0;
              exact = added.1 ∙ ap sum_bytes (sym grown);
            },
            refl,
            refl,
          )
  ]

  -- `set` leaves the entries that were there under other keys, in their order, less the `n` oldest,
  -- and the new entry at the end; and the limits hold.
  pub set_lem :
      (m : BoundedMap K V) (k : K) (v : V) (ttl : Option ℕ) (now : ℕ)
      → IsValid m
      → (n : ℕ) × (n ≤ length (remove k m.map))
        × ((set m k v ttl now).map ≡ drop n (remove k m.map) ++ (k, new_entry m k v ttl now) ∷ [])
        × IsValid (set m k v ttl now)
  unfolding set
  set_lem m k v ttl now i =
      let e = new_entry m k v ttl now in
      let (shape, counted, top, budget) = insert_lem m k v ttl now i.counted in
      let len = ap length shape ∙ length-append (remove k m.map) ((k, e) ∷ []) in
      let (n, fewer, evicted, valid) =
        enforce-Evicted (insert m k v ttl now) (rw top i.positive) counted (omega arith) in
      (
        n,
        omega arith,
        evicted.map
            ∙ ap (drop n) shape
            ∙ drop-append n (remove k m.map) ((k, e) ∷ []) (omega arith),
        valid,
      )

  pub remove_entry-IsValid :
      (m : BoundedMap K V) (k : K) (e : Entry V) (reason : Reason) (notify : Bool)
      → lookup k m.map ≡ some e
      → IsValid m
      → IsValid (remove_entry m k e reason notify)
  unfolding remove_entry
  remove_entry-IsValid m k e reason notify h i =
      let shorter = length-remove-le k m.map in
      record {
        counted = unfold remove_entry in remove_entry-IsCounted m k e reason notify h i.counted;
        positive = i.positive;
        within = omega (arith, i.within);
        fits = Fits-mono m.max_bytes _ _ _ _ (omega arith) shorter i.fits;
      }

  pub peek-IsValid : (m : BoundedMap K V) (k : K) (now : ℕ) → IsValid m → IsValid (peek m k now).0
  unfolding peek
  peek-IsValid m k now i = elim (Option-cases (lookup k m.map)) [
    | inl miss ↦ rw (miss, peek) i
    | inr (e, hit) ↦
        rw (hit, peek)
          (elim (Bool-cases (is_expired e now)) [
            | inl gone ↦ rw gone (remove_entry-IsValid m k e expired true hit i)
            | inr live ↦ rw live i
          ])
  ]

  pub touch_lem :
      (m : BoundedMap K V) (k : K) (e : Entry V)
      → lookup k m.map ≡ some e
      → m.policy ≡ lru
      → (touch m k).map ≡ remove k m.map ++ (k, e) ∷ []
  unfolding touch
  touch_lem m k e hit p =
      rw (p, hit, touch) (put_absent k e (remove k m.map) (lookup-remove_self k m.map))

  touch-IsValid : (m : BoundedMap K V) (k : K) → IsValid m → IsValid (touch m k)
  unfolding touch
  touch-IsValid m k i = elim (Policy-cases m.policy) [
    | inr p ↦ rw (p, touch) i
    | inl p ↦ elim (Option-cases (lookup k m.map)) [
      | inl miss ↦ rw (p, miss, touch) i
      | inr (e, hit) ↦
          let c = i.counted in
          let miss = lookup-remove_self k m.map in
          let grown = put_absent k e (remove k m.map) miss in
          let len = ap length grown ∙ length-append (remove k m.map) ((k, e) ∷ []) in
          let same = length-remove k m.map e c.distinct hit in
          let less = remove_entry-IsCounted m k e deleted false hit c in
          let shape = put k e (remove k m.map) in
          rw (p, hit, touch)
            (record {
              counted = record {
                distinct = put-Distinct k e (remove k m.map) (remove-Distinct k m.map c.distinct);
                exact = omega (
                  arith,
                  ap sum_bytes grown,
                  sum_bytes-append (remove k m.map) ((k, e) ∷ []),
                  sum_bytes-remove k m.map e c.distinct hit,
                  c.exact,
                );
              };
              positive = i.positive;
              within = omega (arith, i.within);
              fits = Fits-mono m.max_bytes _ _ _ _ (omega arith) (omega arith) i.fits;
            })
    ]
  ]

  pub get-IsValid : (m : BoundedMap K V) (k : K) (now : ℕ) → IsValid m → IsValid (get m k now).0
  unfolding get
  get-IsValid m k now i = elim (Option-cases (peek m k now).1) [
    | inl miss ↦ rw (miss, get) (peek-IsValid m k now i)
    | inr (v, hit) ↦ rw (hit, get) (touch-IsValid (peek m k now).0 k (peek-IsValid m k now i))
  ]

  pub delete-IsValid : (m : BoundedMap K V) (k : K) → IsValid m → IsValid (delete m k).0
  unfolding delete
  delete-IsValid m k i = elim (Option-cases (lookup k m.map)) [
    | inl miss ↦ rw (miss, delete) i
    | inr (e, hit) ↦ rw (hit, delete) (remove_entry-IsValid m k e deleted true hit i)
  ]

  -- The loop of `clear` ends with no entry.
  clear_loop_lem :
      (l : List (K × Entry V)) (m : BoundedMap K V)
      → m.map ≡ l
      → IsValid m
      → ((clear_loop l m).map ≡ []) × IsValid (clear_loop l m)
  unfolding clear_loop
  clear_loop_lem [] m h i = (h, i)
  clear_loop_lem ((k, e) ∷ rest) m h i =
      clear_loop_lem rest (remove_entry m k e cleared true)
        (unfold remove_entry in rw h (remove_first k e rest (subst Distinct h i.counted.distinct)))
        (remove_entry-IsValid m k e cleared true (rw h (lookup_first k e rest)) i)

  pub clear_lem : (m : BoundedMap K V) → IsValid m → ((clear m).map ≡ []) × IsValid (clear m)
  unfolding clear
  clear_lem m i = clear_loop_lem m.map m refl i

  abbrev pub is_live : ℕ → K × Entry V → Bool
  is_live now (k, e) = not (is_expired e now)

  sweep_loop_lem :
      (now : ℕ) (before l : List (K × Entry V)) (m : BoundedMap K V) (dropped : ℕ)
      → m.map ≡ before ++ l
      → IsValid m
      → ((sweep_loop now l m dropped).0.map ≡ before ++ keep (is_live now) l)
        × IsValid (sweep_loop now l m dropped).0
        × ((sweep_loop now l m dropped).1 + length (keep (is_live now) l) ≡ dropped + length l)
  unfolding sweep_loop
  sweep_loop_lem now before [] m dropped h i = (h, i, refl)
  sweep_loop_lem now before ((k, e) ∷ rest) m dropped h i = elim (Bool-cases (is_expired e now)) [
    | inl gone ↦
        rw (gone, sweep_loop)
          (let (shape, valid, total) =
              sweep_loop_lem now before rest (remove_entry m k e expired true) (suc dropped)
                (unfold remove_entry in
                  rw h (remove_middle k e before rest (subst Distinct h i.counted.distinct)))
                (remove_entry-IsValid m k e expired true
                  (rw h (lookup_middle k e before rest (subst Distinct h i.counted.distinct))) i) in
            (shape, valid, omega arith))
    | inr live ↦
        rw (live, sweep_loop)
          (let (shape, valid, total) =
              sweep_loop_lem now (before ++ (k, e) ∷ []) rest m dropped
                (h ∙ sym (append_assoc before ((k, e) ∷ []) rest)) i in
            (
              shape ∙ append_assoc before ((k, e) ∷ []) (keep (is_live now) rest),
              valid,
              omega arith,
            ))
  ]

  -- `sweep` drops the expired entries and no other, and says how many.
  pub sweep_lem :
      (m : BoundedMap K V) (now : ℕ)
      → IsValid m
      → ((sweep m now).0.map ≡ keep (is_live now) m.map)
        × IsValid (sweep m now).0
        × ((sweep m now).1 + size (sweep m now).0 ≡ size m)
  unfolding sweep
  sweep_lem m now i =
      let (shape, valid, total) = sweep_loop_lem now [] m.map m 0 refl i in
      (shape, valid, rw shape (omega arith))
