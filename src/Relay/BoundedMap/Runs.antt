-- ===== src/Relay/BoundedMap/Runs.antt =====
-- What bounded-map.ts promises to its callers, over one call and over any history of calls.
use nostr_wot_sdk.Prelude.{
  ℕ, zero, suc, ◌-◌, ◌≤◌, ◌<◌, ◌≡◌, ap, sym, ◌∙◌, subst, inl, inr, false, Bool-cases, List-cases,
  Option, none, some, List, [], ◌∷◌, ◌++◌, Eq, ltb, length, drop, length-drop, lookup, remove,
  arith, lookup_middle, Distinct,
}
use nostr_wot_sdk.Relay.BoundedMap.{
  lru, fifo, Entry, Options, BoundedMap, Call, peeks, gets, sets, deletes, clears, sweeps, trims,
  trim, size, create, evict_oldest, evict_while, is_expired, new_entry, peek, get, set, trim_to,
  touch, step, run,
}
use nostr_wot_sdk.Relay.BoundedMap.Bounds.{
  sum_bytes, sum_bytes-drop-le, Fits, IsCounted, IsValid, evict_oldest-Evicted, evict_while-Evicted,
}
use nostr_wot_sdk.Relay.BoundedMap.Contents.{
  Fits-mono, set_lem, peek-IsValid, get-IsValid, delete-IsValid, clear_lem, sweep_lem, touch_lem,
}

Fits-empty : (b : Option ℕ) → Fits b 0 0
Fits-empty none = tt
Fits-empty (some b) = inr (omega arith)

module _ {ℓ} {K V : Type ℓ} ⦃q : Eq K⦄ where
  create-IsValid : (o : Options K V) (m : BoundedMap K V) → create o ≡ some m → IsValid m
  unfolding create
  create-IsValid o m h = record {
    counted = ground arith;
    positive = ground arith;
    within = ground arith;
    fits = Fits-mono m.max_bytes _ 0 _ 0 (ground arith) (ground arith) (Fits-empty m.max_bytes);
  }

  over_length_nil : (n : ℕ) (s : BoundedMap K V) → s.map ≡ [] → ltb n (size s) ≡ false
  over_length_nil n s h = rw h (ground arith)

  -- The loop of `trimTo` evicts the entries beyond `n` and no more.
  evict_while-count :
      (n fuel : ℕ) (m : BoundedMap K V)
      → size m ≤ fuel
      → IsCounted m
      → (evict_while (λ s. ltb n (size s)) trim fuel m).1 ≡ size m - n
  unfolding evict_while
  evict_while-count n zero m h c = omega (arith, h)
  evict_while-count n (suc fuel) m h c = elim (Bool-cases (ltb n (size m))) [
    | inr ended ↦ rw (ended, evict_while) (ground (arith, ended))
    | inl more ↦
        rw (more, evict_while)
          (elim (List-cases m.map) [
            | inl e ↦ cc (over_length_nil n m e)
            | inr ((k, e), rest, split) ↦
                let first = evict_oldest-Evicted trim m k e rest split c in
                let len : size (evict_oldest trim m) ≡ size m - 1 =
                  omega (arith, ap length first.map, length-drop 1 m.map) in
                let above : n < size m = ground (arith, more) in
                let later =
                  evict_while-count n fuel (evict_oldest trim m) (omega (arith, h, len, above))
                    first.counted in
                omega (arith, later, len, above)
          ])
  ]

  -- On a valid map `trimTo` evicts exactly the entries beyond `n`, the oldest first, says how many they
  -- were, and leaves `n` entries at most, in their order, and a valid map.
  pub trim_to_lem :
      (m : BoundedMap K V) (n : ℕ)
      → IsValid m
      → (size (trim_to m n).0 ≤ n)
        × ((trim_to m n).1 ≡ size m - n)
        × ((trim_to m n).0.map ≡ drop (size m - n) m.map)
        × IsValid (trim_to m n).0
  unfolding trim_to
  trim_to_lem m n i =
      let (out, stop) =
        evict_while-Evicted (λ s. ltb n (size s)) trim (over_length_nil n) (size m) m (omega arith)
          i.counted in
      let r = (trim_to m n).0 in
      let count = evict_while-count n (size m) m (omega arith) i.counted in
      let small : size r ≤ n = ground arith in
      let shorter = ap length out.map ∙ length-drop (trim_to m n).1 m.map in
      let lighter = sum_bytes-drop-le (trim_to m n).1 m.map in
      (
        small,
        count,
        rw (sym count) out.map,
        record {
          counted = out.counted;
          positive = rw out.max_entries i.positive;
          within = rw out.max_entries (omega (arith, i.within));
          fits = rw out.max_bytes (
              Fits-mono m.max_bytes _ _ _ _
                (omega (arith, out.counted.exact, ap sum_bytes out.map, i.counted.exact, lighter))
                (omega arith) i.fits);
        },
      )

  step-IsValid : (m : BoundedMap K V) (c : Call K V) → IsValid m → IsValid (step m c)
  unfolding step
  step-IsValid m (peeks key now) i = peek-IsValid m key now i
  step-IsValid m (gets key now) i = get-IsValid m key now i
  step-IsValid m (sets key value ttl now) i =
      let (n, fewer, shape, valid) = set_lem m key value ttl now i in valid
  step-IsValid m (deletes key) i = delete-IsValid m key i
  step-IsValid m clears i = (clear_lem m i).1
  step-IsValid m (sweeps now) i = (sweep_lem m now i).1
  step-IsValid m (trims n) i = (trim_to_lem m n i).3

  run-IsValid : (m : BoundedMap K V) (cs : List (Call K V)) → IsValid m → IsValid (run m cs)
  unfolding run
  run-IsValid m [] i = i
  run-IsValid m (c ∷ cs) i = run-IsValid (step m c) cs (step-IsValid m c i)

  -- A map that the constructor accepts keeps its bounds through every history of calls: at most
  -- `maxEntries` entries, an exact byte count with no key twice, and a byte total within the budget
  -- unless a single entry is left.
  pub run-create-IsValid :
      (o : Options K V) (m : BoundedMap K V) (cs : List (Call K V))
      → create o ≡ some m
      → IsValid (run m cs)
  run-create-IsValid o m cs h = run-IsValid m cs (create-IsValid o m h)

  peek_hit :
      (m : BoundedMap K V) (k : K) (e : Entry V) (now : ℕ)
      → lookup k m.map ≡ some e
      → is_expired e now ≡ false
      → peek m k now ≡ (m, some e.value)
  unfolding peek
  peek_hit m k e now hit live = rw (hit, peek) (rw live)

  touch_fifo : (m : BoundedMap K V) (k : K) → m.policy ≡ fifo → touch m k ≡ m
  unfolding touch
  touch_fifo m k p = ground arith

  -- On a valid map a value that was just set is read back until it expires, whatever else `set` had
  -- to evict: the newest entry is never the victim.
  pub peek-set :
      (m : BoundedMap K V) (k : K) (v : V) (ttl : Option ℕ) (now later : ℕ)
      → IsValid m
      → is_expired (new_entry m k v ttl now) later ≡ false
      → (peek (set m k v ttl now) k later).1 ≡ some v
  peek-set m k v ttl now later i live =
      let (n, fewer, shape, valid) = set_lem m k v ttl now i in
      let e = new_entry m k v ttl now in
      let hit : lookup k (set m k v ttl now).map ≡ some e = rw shape (
        lookup_middle k e (drop n (remove k m.map)) []
          (subst Distinct shape valid.counted.distinct)) in
      ap (λ r. r.1) (peek_hit (set m k v ttl now) k e later hit live)

  -- A `get` that hits moves the entry to the end under `lru` and moves nothing under `fifo`; the
  -- other entries keep their order.
  pub get_hit :
      (m : BoundedMap K V) (k : K) (e : Entry V) (now : ℕ)
      → lookup k m.map ≡ some e
      → is_expired e now ≡ false
      → ((get m k now).1 ≡ some e.value)
        × (m.policy ≡ lru → (get m k now).0.map ≡ remove k m.map ++ (k, e) ∷ [])
        × (m.policy ≡ fifo → (get m k now).0.map ≡ m.map)
  unfolding get
  get_hit m k e now hit live =
      let read = peek_hit m k e now hit live in
      (
        ap (λ r. r.1) read,
        λ p. rw (read, get) (rw read (touch_lem m k e hit p)),
        λ p. rw (read, get) (rw read (ap (λ s. s.map) (touch_fifo m k p))),
      )
