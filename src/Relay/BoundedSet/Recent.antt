-- ===== src/Relay/BoundedSet/Recent.antt =====
-- `BoundedSet` in bounded-map.ts remembers the values added last.
use nostr_wot_sdk.Prelude.{
  ℕ, suc, ◌-◌, ◌≤◌, ◌≡◌, refl, ◌++◌, true, false, inl, inr, List, [], ◌∷◌, Eq, ◌==◌, ==_refl, ltb,
  length, drop, any, length-append, length-drop, drop-append, drop-nil, sym, Bool-cases, arith,
}
use nostr_wot_sdk.Relay.BoundedSet.{BoundedSet, trim_oldest, has_value, add_value}

-- What the loop leaves: the last values, as many as fit.
trim_oldest-drop {ℓ} :
    {T : Type ℓ} (max : ℕ) (xs : List T) → trim_oldest max xs ≡ drop (length xs - max) xs
unfolding trim_oldest
trim_oldest-drop max [] = sym (drop-nil (0 - max))
trim_oldest-drop max (x ∷ xs) = elim (Bool-cases (ltb max (suc (length xs)))) [
  | inl over ↦
      let more : suc (length xs) - max ≡ suc (length xs - max) = ground (arith, over) in
      rw (over, more) (trim_oldest-drop max xs)
  | inr fits ↦
      let enough : suc (length xs) - max ≡ 0 = ground (arith, fits) in rw (fits, enough) refl
]

any-last {ℓ} :
    {T : Type ℓ} ⦃eq : Eq T⦄ (v : T) (xs : List T) → any (λ x. x == v) (xs ++ v ∷ []) ≡ true
any-last v [] = ground (arith, ==_refl v)
any-last v (x ∷ xs) = ground (arith, any-last v xs)

-- A set with a positive maximum that holds no more than it, once a value is added that it does not
-- hold, has the values it had, in their order, less the oldest where it was full, then the new one;
-- it still holds no more than its maximum and holds the value.
pub add_value-new {ℓ} :
    {T : Type ℓ} ⦃eq : Eq T⦄ (s : BoundedSet T) (value : T)
    → 1 ≤ s.max
    → length s.set ≤ s.max
    → has_value s value ≡ false
    → ((add_value s value).0.set ≡ drop (suc (length s.set) - s.max) s.set ++ value ∷ [])
      × (length (add_value s value).0.set ≤ s.max)
      × (has_value (add_value s value).0 value ≡ true)
unfolding add_value has_value
add_value-new s value positive fits new =
    let grown = length-append s.set (value ∷ []) in
    let many : length (s.set ++ value ∷ []) - s.max ≡ suc (length s.set) - s.max =
      omega (arith, grown) in
    let shape : trim_oldest s.max (s.set ++ value ∷ [])
        ≡ drop (suc (length s.set) - s.max) s.set ++ value ∷ [] =
      rw (trim_oldest-drop s.max (s.set ++ value ∷ []), many)
        (drop-append (suc (length s.set) - s.max) s.set (value ∷ []) (omega arith)) in
    let kept = drop (suc (length s.set) - s.max) s.set in
    rw new (
      shape,
      rw (shape, length-append kept (value ∷ []), length-drop (suc (length s.set) - s.max) s.set)
          (omega arith),
      rw shape (any-last value kept),
    )
