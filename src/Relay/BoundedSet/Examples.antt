-- ===== src/Relay/BoundedSet/Examples.antt =====
-- `BoundedSet` with room for two numbers.
use nostr_wot_sdk.Prelude.{
  ℕ, ◌≡◌, ◌≤◌, ◌-◌, ◌++◌, refl, true, false, none, [], ◌∷◌, nat_eq, length, drop, arith,
}
use nostr_wot_sdk.Relay.BoundedSet.{
  BoundedSet, create_set, trim_oldest, has_value, add_value, delete_value, clear_values,
}
use nostr_wot_sdk.Relay.BoundedSet.Recent.{add_value-new}

program : Unit {0}
unfolding create_set trim_oldest has_value add_value delete_value clear_values
program = tt

abbrev full : BoundedSet ℕ
full = record { max = 2; set = 4 ∷ 7 ∷ [] }

refused : create_set {T = ℕ} 0 ≡ none
unfolding program
refused = refl

known : add_value full 4 ≡ (full, false)
unfolding program
known = refl

deleted : delete_value full 4 ≡ (record { max = 2; set = 7 ∷ [] }, true)
unfolding program
deleted = refl

cleared : (clear_values full).set ≡ []
unfolding program
cleared = refl

add_value-new_example :
    ((add_value full 9).0.set ≡ drop (3 - 2) (4 ∷ 7 ∷ []) ++ 9 ∷ [])
    × (length (add_value full 9).0.set ≤ 2)
    × (has_value (add_value full 9).0 9 ≡ true)
unfolding program
add_value-new_example = add_value-new full 9 (omega arith) (omega arith) refl
