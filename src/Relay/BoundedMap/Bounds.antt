-- ===== src/Relay/BoundedMap/Bounds.antt =====
-- The invariant of `BoundedMap` in bounded-map.ts: distinct keys, an exact byte count, at most
-- `maxEntries` entries, and the byte budget.
use nostr_wot_sdk.Prelude.{
  ℕ, zero, suc, ◌+◌, ◌-◌, ◌≤◌, ◌<◌, ◌≡◌, refl, ap, ◌∙◌, subst, ◌⊎◌, inl, inr, Bool, true, false,
  Option, none, some, List, [], ◌∷◌, ◌++◌, Eq, ==_iff, length, drop, lookup, remove, Distinct,
  remove-Distinct, remove_first, remove_absent, lookup_first, length-eq-zero, length-drop,
  List-cases, drop-drop, drop-drop_one, Bool-cases, Option-cases, arith,
}
use nostr_wot_sdk.Relay.BoundedMap.{
  Entry, BoundedMap, Reason, capacity, bytes, size, remove_entry, evict_oldest, evict_while,
  over_capacity, over_budget, enforce,
}

abbrev pub sum_bytes {ℓ} : {K V : Type ℓ} → List (K × Entry V) → ℕ
sum_bytes [] = 0
sum_bytes ((k, e) ∷ m) = e.bytes + sum_bytes m

-- A budget holds the map down to one entry, which may exceed it.
abbrev pub Fits : Option ℕ → ℕ → ℕ → Type 0
Fits none total n = Unit
Fits (some budget) total n = (total ≤ budget) ⊎ (n ≤ 1)

module _ {ℓ} {K V : Type ℓ} ⦃q : Eq K⦄ where
  pub record IsCounted (m : BoundedMap K V) : Type ℓ where
    pub distinct : Distinct m.map
    pub exact : m.total_bytes ≡ sum_bytes m.map

  pub record IsValid (m : BoundedMap K V) : Type ℓ where
    pub counted : IsCounted m
    pub positive : 1 ≤ m.max_entries
    pub within : size m ≤ m.max_entries
    pub fits : Fits m.max_bytes m.total_bytes (size m)

  pub sum_bytes-remove :
      (k : K) (m : List (K × Entry V)) (e : Entry V)
      → Distinct m
      → lookup k m ≡ some e
      → sum_bytes (remove k m) + e.bytes ≡ sum_bytes m
  unfolding lookup remove
  sum_bytes-remove k [] e d h = cc
  sum_bytes-remove k ((j, w) ∷ m) e d h =
      ground (arith, sum_bytes-remove k m e d.1, remove_absent k m, ==_iff j k)

  pub sum_bytes-append : (m n : List (K × Entry V)) → sum_bytes (m ++ n) ≡ sum_bytes m + sum_bytes n
  sum_bytes-append [] n = omega arith
  sum_bytes-append ((k, e) ∷ m) n = omega (arith, sum_bytes-append m n)

  pub remove_entry-IsCounted :
      (m : BoundedMap K V) (k : K) (e : Entry V) (reason : Reason) (notify : Bool)
      → lookup k m.map ≡ some e
      → IsCounted m
      → IsCounted (remove_entry m k e reason notify)
  unfolding remove_entry
  remove_entry-IsCounted m k e reason notify h c = record {
    distinct = remove-Distinct k m.map c.distinct;
    exact = omega (arith, sum_bytes-remove k m.map e c.distinct h, c.exact);
  }

  -- What an eviction loop leaves: the newest entries in their order, counted, under the same limits.
  pub record Evicted (m r : BoundedMap K V) (n : ℕ) : Type ℓ where
    pub map : r.map ≡ drop n m.map
    pub counted : IsCounted r
    pub max_entries : r.max_entries ≡ m.max_entries
    pub max_bytes : r.max_bytes ≡ m.max_bytes

  pub evict_oldest-Evicted :
      (reason : Reason) (m : BoundedMap K V) (k : K) (e : Entry V) (rest : List (K × Entry V))
      → m.map ≡ (k, e) ∷ rest
      → IsCounted m
      → Evicted m (evict_oldest reason m) 1
  unfolding evict_oldest remove_entry lookup
  evict_oldest-Evicted reason m k e rest h c =
      rw (h, evict_oldest)
        (record {
          map = rw h (remove_first k e rest (subst Distinct h c.distinct));
          counted = remove_entry-IsCounted m k e reason true (rw h (lookup_first k e rest)) c;
          max_entries = refl;
          max_bytes = refl;
        })

  Evicted-trans :
      {m r s : BoundedMap K V} {n k : ℕ} → Evicted m r n → Evicted r s k → Evicted m s (n + k)
  Evicted-trans {m} {r} {s} {n} {k} a b = record {
    map = b.map ∙ ap (drop k) a.map ∙ drop-drop k n m.map;
    counted = b.counted;
    max_entries = b.max_entries ∙ a.max_entries;
    max_bytes = b.max_bytes ∙ a.max_bytes;
  }

  Evicted-suc :
      {m r s : BoundedMap K V} {k : ℕ} → Evicted m r 1 → Evicted r s k → Evicted m s (suc k)
  Evicted-suc {m} {r} {s} {k} a b = record {
    map = b.map ∙ ap (drop k) a.map ∙ drop-drop_one k m.map;
    counted = b.counted;
    max_entries = b.max_entries ∙ a.max_entries;
    max_bytes = b.max_bytes ∙ a.max_bytes;
  }

  -- With fuel for every entry an eviction loop ends by its test.
  pub evict_while-Evicted :
      (test : BoundedMap K V → Bool) (reason : Reason)
      → ((s : BoundedMap K V) → s.map ≡ [] → test s ≡ false)
      → (fuel : ℕ) (m : BoundedMap K V) → size m ≤ fuel
      → IsCounted m
      → Evicted m (evict_while test reason fuel m).0 (evict_while test reason fuel m).1
        × (test (evict_while test reason fuel m).0 ≡ false)
  unfolding evict_while
  evict_while-Evicted test reason stop zero m h c = (
    record { map = refl; counted = c; max_entries = refl; max_bytes = refl },
    stop m (length-eq-zero m.map (omega arith)),
  )
  evict_while-Evicted test reason stop (suc fuel) m h c = elim (Bool-cases (test m)) [
    | inr ended ↦
        rw (ended, evict_while)
          ((record { map = refl; counted = c; max_entries = refl; max_bytes = refl }, ended))
    | inl more ↦
        rw (more, evict_while)
          (elim (List-cases m.map) [
            | inl e ↦ cc (stop m e)
            | inr ((k, e), rest, split) ↦
                let first = evict_oldest-Evicted reason m k e rest split c in
                let later =
                  evict_while-Evicted test reason stop fuel (evict_oldest reason m)
                    (omega (arith, ap length first.map, ap length split, length-drop 1 m.map))
                    first.counted in
                (Evicted-suc first later.0, later.1)
          ])
  ]

  -- A loop that stops at one entry keeps the newest.
  evict_while-keeps :
      (test : BoundedMap K V → Bool) (reason : Reason)
      → ((s : BoundedMap K V) → 1 ≤ s.max_entries → test s ≡ true → 1 < size s)
      → (fuel : ℕ) (m : BoundedMap K V) → 1 ≤ m.max_entries
      → IsCounted m
      → 0 < size m
      → (evict_while test reason fuel m).1 < size m
  unfolding evict_while
  evict_while-keeps test reason many zero m p c h = h
  evict_while-keeps test reason many (suc fuel) m p c h = elim (Bool-cases (test m)) [
    | inr ended ↦ rw (ended, evict_while) h
    | inl more ↦
        rw (more, evict_while)
          (elim (List-cases m.map) [
            | inl e ↦ absurd (omega (arith, ap length e))
            | inr ((k, e), rest, split) ↦
                let first = evict_oldest-Evicted reason m k e rest split c in
                let len : size (evict_oldest reason m) ≡ size m - 1 =
                  omega (arith, ap length first.map, length-drop 1 m.map) in
                let later =
                  evict_while-keeps test reason many fuel (evict_oldest reason m)
                    (rw first.max_entries p) first.counted (omega (arith, many m p more)) in
                omega (arith, many m p more)
          ])
  ]

  Fits-of_stop :
      (m : BoundedMap K V) → over_budget m ≡ false → Fits m.max_bytes m.total_bytes (size m)
  Fits-of_stop m h = elim (Option-cases m.max_bytes) [
    | inl e ↦ rw e tt
    | inr (b, e) ↦ rw e (ground arith)
  ]

  over_capacity_many :
      (s : BoundedMap K V) → 1 ≤ s.max_entries → over_capacity s ≡ true → 1 < size s
  over_capacity_many s p h = ground arith

  over_budget_many : (s : BoundedMap K V) → 1 ≤ s.max_entries → over_budget s ≡ true → 1 < size s
  over_budget_many s p h = ground arith

  over_capacity_nil : (s : BoundedMap K V) → s.map ≡ [] → over_capacity s ≡ false
  over_capacity_nil s h = rw h (ground arith)

  over_budget_nil : (s : BoundedMap K V) → s.map ≡ [] → over_budget s ≡ false
  over_budget_nil s h = rw h (ground arith)

  -- `enforce` drops the oldest entries, never the newest, and the limits hold afterwards.
  pub enforce-Evicted :
      (m : BoundedMap K V)
      → 1 ≤ m.max_entries
      → IsCounted m
      → 0 < size m
      → (n : ℕ) × (n < size m) × Evicted m (enforce m) n × IsValid (enforce m)
  unfolding enforce
  enforce-Evicted m p c h =
      let (first, stop) =
        evict_while-Evicted over_capacity capacity over_capacity_nil (size m) m (omega arith) c in
      let n = (evict_while over_capacity capacity (size m) m).1 in
      let r = (evict_while over_capacity capacity (size m) m).0 in
      let kept = evict_while-keeps over_capacity capacity over_capacity_many (size m) m p c h in
      let p' : 1 ≤ r.max_entries = rw first.max_entries p in
      let len : size r ≡ size m - n = ap length first.map ∙ length-drop n m.map in
      let (second, stop') =
        evict_while-Evicted over_budget bytes over_budget_nil (size r) r (omega arith)
          first.counted in
      let kept' =
        evict_while-keeps over_budget bytes over_budget_many (size r) r p' first.counted
          (omega arith) in
      let k = (evict_while over_budget bytes (size r) r).1 in
      let t = (evict_while over_budget bytes (size r) r).0 in
      let len' : size t ≡ size r - k = ap length second.map ∙ length-drop k r.map in
      let bound : size r ≤ r.max_entries = ground arith in
      (
        n + k,
        omega arith,
        Evicted-trans first second,
        record {
          counted = second.counted;
          positive = rw second.max_entries p';
          within = rw second.max_entries (omega arith);
          fits = Fits-of_stop t stop';
        },
      )

pub sum_bytes-drop-le {ℓ} :
    {K V : Type ℓ} (n : ℕ) (m : List (K × Entry V)) → sum_bytes (drop n m) ≤ sum_bytes m
sum_bytes-drop-le zero m = omega arith
sum_bytes-drop-le (suc n) [] = omega arith
sum_bytes-drop-le (suc n) ((k, e) ∷ m) = omega (arith, sum_bytes-drop-le n m)
