-- ===== src/Relay/BoundedMap.antt =====
-- packages/sdk/src/relay/hub/bounded-map.ts. A call takes the reading of the clock that it makes,
-- and returns the new map beside its result; `evicted` records the calls of `onEvict`, in order.
-- Sizes, budgets and times are whole numbers.
pub mod Bounds
pub mod Contents
pub mod Runs
mod Examples
use nostr_wot_sdk.Prelude.{
  ℕ, zero, suc, ◌+◌, ◌-◌, Bool, true, false, ◌&&◌, Option, none, some, List, [], ◌∷◌, ◌++◌, Eq, ltb,
  leb, if◌then◌else◌, length, lookup, put, remove,
}

pub data Policy : Type 0 where
  lru fifo : Policy

pub data Reason : Type 0 where
  capacity bytes expired trim deleted cleared : Reason

pub record Entry {ℓ} (V : Type ℓ) : Type ℓ where
  pub value : V
  pub bytes : ℕ
  pub expires_at : Option ℕ

pub record Options {ℓ} (K V : Type ℓ) : Type ℓ where
  pub max_entries : ℕ
  pub policy : Option Policy
  pub max_bytes : Option ℕ
  pub size_of : Option (V → K → ℕ)
  pub ttl_ms : Option ℕ
  pub has_on_evict : Bool

pub record BoundedMap {ℓ} (K V : Type ℓ) : Type ℓ where
  pub policy : Policy
  pub max_entries : ℕ
  pub max_bytes : Option ℕ
  pub size_of : Option (V → K → ℕ)
  pub ttl_ms : Option ℕ
  pub has_on_evict : Bool
  pub map : List (K × Entry V)
  pub total_bytes : ℕ
  pub evicted : List (K × V × Reason)

-- `a ?? b`
abbrev pub or_default {ℓ} : {A : Type ℓ} → Option A → A → A
or_default none d = d
or_default (some a) d = a

-- The constructor; `none` is its exception.
pub create {ℓ} : {K V : Type ℓ} → Options K V → Option (BoundedMap K V)
create o =
    if leb 1 o.max_entries
    then some (record {
      policy = or_default o.policy fifo;
      max_entries = o.max_entries;
      max_bytes = o.max_bytes;
      size_of = o.size_of;
      ttl_ms = o.ttl_ms;
      has_on_evict = o.has_on_evict;
      map = [];
      total_bytes = 0;
      evicted = [];
    })
    else none

-- `expiresAt !== null && expiresAt <= now`
pub is_expired {ℓ} : {V : Type ℓ} → Entry V → ℕ → Bool
is_expired e now = elim e.expires_at [ none ↦ false | some t ↦ leb t now ]

module _ {ℓ} {K V : Type ℓ} ⦃q : Eq K⦄ where
  abbrev pub size : BoundedMap K V → ℕ
  size m = length m.map

  -- The private method `remove`.
  pub remove_entry : BoundedMap K V → K → Entry V → Reason → Bool → BoundedMap K V
  remove_entry m key e reason notify = record m {
    map = remove key m.map;
    total_bytes = m.total_bytes - e.bytes;
    evicted =
        if notify && m.has_on_evict then m.evicted ++ (key, e.value, reason) ∷ [] else m.evicted;
  }

  pub peek : BoundedMap K V → K → ℕ → BoundedMap K V × Option V
  peek m key now = elim (lookup key m.map) [
    | none ↦ (m, none)
    | some e ↦
        if is_expired e now then (remove_entry m key e expired true, none) else (m, some e.value)
  ]

  pub has : BoundedMap K V → K → ℕ → BoundedMap K V × Bool
  has m key now =
      let (m', found) = peek m key now in (m', elim found [ none ↦ false | some _ ↦ true ])

  -- The reordering in `get`.
  pub touch : BoundedMap K V → K → BoundedMap K V
  touch m key = elim m.policy [
    | lru ↦ elim (lookup key m.map) [
      | none ↦ m
      | some e ↦ record m { map = put key e (remove key m.map) }
    ]
    | fifo ↦ m
  ]

  pub get : BoundedMap K V → K → ℕ → BoundedMap K V × Option V
  get m key now =
      let (m', found) = peek m key now in (elim found [ none ↦ m' | some _ ↦ touch m' key ], found)

  -- One round of an eviction loop: the first key of the map goes.
  pub evict_oldest : Reason → BoundedMap K V → BoundedMap K V
  evict_oldest reason m = elim m.map [ [] ↦ m | (key, e) ∷ _ ↦ remove_entry m key e reason true ]

  -- The loops of `enforce` and `trimTo`, on fuel, with the number of rounds.
  pub evict_while : (BoundedMap K V → Bool) → Reason → ℕ → BoundedMap K V → BoundedMap K V × ℕ
  evict_while test reason zero m = (m, 0)
  evict_while test reason (suc fuel) m = elim (test m) [
    | true ↦ let (m', n) = evict_while test reason fuel (evict_oldest reason m) in (m', suc n)
    | false ↦ (m, 0)
  ]

  abbrev pub over_capacity : BoundedMap K V → Bool
  over_capacity m = ltb m.max_entries (size m)

  -- `maxBytes !== null`, and the test of the second loop.
  abbrev pub over_budget : BoundedMap K V → Bool
  over_budget m = elim m.max_bytes [
    | none ↦ false
    | some budget ↦ ltb budget m.total_bytes && ltb 1 (size m)
  ]

  pub enforce : BoundedMap K V → BoundedMap K V
  enforce m =
      let trimmed = (evict_while over_capacity capacity (size m) m).0 in
      (evict_while over_budget bytes (size trimmed) trimmed).0

  abbrev pub entry_bytes : BoundedMap K V → K → V → ℕ
  entry_bytes m key value = elim m.size_of [ none ↦ 0 | some f ↦ f value key ]

  -- `ttl === null || ttl === undefined ? null : now + ttl`, for `opts?.ttlMs ?? this.ttlMs`
  abbrev pub expiry : BoundedMap K V → Option ℕ → ℕ → Option ℕ
  expiry m (some ttl) now = some (now + ttl)
  expiry m none now = elim m.ttl_ms [ none ↦ none | some ttl ↦ some (now + ttl) ]

  abbrev pub new_entry : BoundedMap K V → K → V → Option ℕ → ℕ → Entry V
  new_entry m key value ttl now = record {
    value = value;
    bytes = entry_bytes m key value;
    expires_at = expiry m ttl now;
  }

  -- `set` up to its call of `enforce`.
  pub insert : BoundedMap K V → K → V → Option ℕ → ℕ → BoundedMap K V
  insert m key value ttl now =
      let cleaned : BoundedMap K V = elim (lookup key m.map) [
        | none ↦ m
        | some existing ↦ remove_entry m key existing deleted false
      ] in
      let entry = new_entry m key value ttl now in
      record cleaned {
        map = put key entry cleaned.map;
        total_bytes = cleaned.total_bytes + entry.bytes;
      }

  pub set : BoundedMap K V → K → V → Option ℕ → ℕ → BoundedMap K V
  set m key value ttl now = enforce (insert m key value ttl now)

  pub delete : BoundedMap K V → K → BoundedMap K V × Bool
  delete m key = elim (lookup key m.map) [
    | none ↦ (m, false)
    | some e ↦ (remove_entry m key e deleted true, true)
  ]

  pub clear_loop : List (K × Entry V) → BoundedMap K V → BoundedMap K V
  clear_loop [] m = m
  clear_loop ((key, e) ∷ rest) m = clear_loop rest (remove_entry m key e cleared true)

  pub clear : BoundedMap K V → BoundedMap K V
  clear m = clear_loop m.map m

  pub sweep_loop : ℕ → List (K × Entry V) → BoundedMap K V → ℕ → BoundedMap K V × ℕ
  sweep_loop now [] m dropped = (m, dropped)
  sweep_loop now ((key, e) ∷ rest) m dropped =
      sweep_loop now rest (if is_expired e now then remove_entry m key e expired true else m)
        (if is_expired e now then suc dropped else dropped)

  pub sweep : BoundedMap K V → ℕ → BoundedMap K V × ℕ
  sweep m now = sweep_loop now m.map m 0

  pub trim_to : BoundedMap K V → ℕ → BoundedMap K V × ℕ
  trim_to m n = evict_while (λ s. ltb n (size s)) trim (size m) m

-- The calls that change a map, each with its clock.
pub data Call {ℓ} (K V : Type ℓ) : Type ℓ where
  peeks gets : K → ℕ → Call K V
  sets : K → V → Option ℕ → ℕ → Call K V
  deletes : K → Call K V
  clears : Call K V
  sweeps : ℕ → Call K V
  trims : ℕ → Call K V

module _ {ℓ} {K V : Type ℓ} ⦃q : Eq K⦄ where
  pub step : BoundedMap K V → Call K V → BoundedMap K V
  step m (peeks key now) = (peek m key now).0
  step m (gets key now) = (get m key now).0
  step m (sets key value ttl now) = set m key value ttl now
  step m (deletes key) = (delete m key).0
  step m clears = clear m
  step m (sweeps now) = (sweep m now).0
  step m (trims n) = (trim_to m n).0

  pub run : BoundedMap K V → List (Call K V) → BoundedMap K V
  run m [] = m
  run m (c ∷ cs) = run (step m c) cs
