-- ===== src/Relay/AuthLeases.antt =====
-- The class `AuthLeases` of packages/sdk/src/relay/hub/auth-leases.ts: how many users of a relay and
-- identity want an authenticated connection, and why. A reason is its text.
pub mod Counts
mod Examples
use nostr_wot_sdk.Prelude.{
  ℕ, zero, suc, ◌-◌, ◌&&◌, Bool, true, false, Option, none, some, List, [], ◌∷◌, ◌++◌, Text,
  text_eq, ◌==◌, leb, if◌then◌else◌, length, drop, lookup, put, remove,
}

pub record LeaseRow : Type 0 where
  pub count : ℕ
  pub reasons : List (Text × ℕ)

abbrev pub Rows : Type 0
Rows = List (Text × LeaseRow)

abbrev count_or_zero : Option ℕ → ℕ
count_or_zero none = 0
count_or_zero (some n) = n

abbrev pub row_or_new : Option LeaseRow → LeaseRow
row_or_new none = record { count = 0; reasons = [] }
row_or_new (some row) = row

abbrev pub acquired : Text → LeaseRow → LeaseRow
acquired reason row = record {
  count = suc row.count;
  reasons = put reason (suc (count_or_zero (lookup reason row.reasons))) row.reasons;
}

pub acquire : Rows → Text → Text → Rows
acquire rows key reason = put key (acquired reason (row_or_new (lookup key rows))) rows

-- `Math.max(0, row.count - 1)`, and the reason's own count.
abbrev pub released : Text → LeaseRow → LeaseRow
released reason row =
    let r = count_or_zero (lookup reason row.reasons) in
    record {
      count = row.count - 1;
      reasons = if leb r 1 then remove reason row.reasons else put reason (r - 1) row.reasons;
    }

pub release_row : Rows → Text → LeaseRow → Rows × Option ℕ
release_row rows key row =
    (if leb row.count 0 then remove key rows else put key row rows, some row.count)

-- The leases left, or nothing where there was no row.
pub release : Rows → Text → Text → Rows × Option ℕ
release rows key reason = elim (lookup key rows) [
  | none ↦ (rows, none)
  | some row ↦ release_row rows key (released reason row)
]

pub count : Rows → Text → ℕ
count rows key = (row_or_new (lookup key rows)).count

-- `key.endsWith(suffix)`
pub ends_with : Text → Text → Bool
ends_with key suffix =
    leb (length suffix) (length key) && drop (length key - length suffix) key == suffix

-- The loop of `dropIdentity` over the keys.
pub drop_suffix : Text → Rows → Rows → Rows
drop_suffix suffix [] rows = rows
drop_suffix suffix ((key, _) ∷ snapshot) rows =
    drop_suffix suffix snapshot (if ends_with key suffix then remove key rows else rows)

pub drop_identity : Rows → Text → Rows
drop_identity rows identity_id = drop_suffix (b'|' ∷ identity_id) rows rows

pub data Event : Type 0 where
  acquire_event release_event : Text → Text → Event
  drop_event : Text → Event
  clear_event : Event

pub step : Rows → Event → Rows
step rows (acquire_event key reason) = acquire rows key reason
step rows (release_event key reason) = (release rows key reason).0
step rows (drop_event identity_id) = drop_identity rows identity_id
step rows clear_event = []

pub run : Rows → List Event → Rows
run rows [] = rows
run rows (e ∷ es) = run (step rows e) es
