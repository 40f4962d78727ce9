-- ===== src/Relay/BoundedSet.antt =====
-- The class `BoundedSet` of packages/sdk/src/relay/hub/bounded-map.ts: the recent ids, oldest first.
pub mod Recent
mod Examples
use nostr_wot_sdk.Prelude.{
  ℕ, zero, suc, ◌-◌, ◌++◌, Bool, true, false, Option, none, some, List, [], ◌∷◌, Eq, ◌==◌, ltb, leb,
  not, if◌then◌else◌, length, drop, any, keep,
}

pub record BoundedSet {ℓ} (T : Type ℓ) : Type ℓ where
  pub max : ℕ
  pub set : List T

-- The constructor refuses a maximum below one.
pub create_set {ℓ} : {T : Type ℓ} → ℕ → Option (BoundedSet T)
create_set max = if leb 1 max then some (record { max = max; set = [] }) else none

-- The loop of `add`: the oldest goes while there are too many.
pub trim_oldest {ℓ} : {T : Type ℓ} → ℕ → List T → List T
trim_oldest max [] = []
trim_oldest max (x ∷ xs) =
    let rest = trim_oldest max xs in if ltb max (length (x ∷ xs)) then rest else x ∷ xs

module _ {ℓ} {T : Type ℓ} ⦃eq : Eq T⦄ where
  pub has_value : BoundedSet T → T → Bool
  has_value s value = any (λ x. x == value) s.set

  -- Whether the value was new.
  pub add_value : BoundedSet T → T → BoundedSet T × Bool
  add_value s value =
      if has_value s value
      then (s, false)
      else (record s { set = trim_oldest s.max (s.set ++ value ∷ []) }, true)

  pub delete_value : BoundedSet T → T → BoundedSet T × Bool
  delete_value s value = (record s { set = keep (λ x. not (x == value)) s.set }, has_value s value)

  pub clear_values : BoundedSet T → BoundedSet T
  clear_values s = record s { set = [] }
