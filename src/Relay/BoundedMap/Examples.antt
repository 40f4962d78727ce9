-- ===== src/Relay/BoundedMap/Examples.antt =====
-- Two keys in a map of at most two entries: the theorems of `Runs` at concrete histories.
use nostr_wot_sdk.Prelude.{
  ℕ, ◌+◌, ◌-◌, ◌≤◌, ◌≡◌, refl, none, some, List, [], ◌∷◌, ◌++◌, true, nat_eq, lookup, put, remove,
  keep, drop, length, keys,
}
use nostr_wot_sdk.Relay.BoundedMap.{
  lru, fifo, Entry, Options, BoundedMap, Call, gets, sets, size, create, is_expired, new_entry,
  remove_entry, peek, touch, get, evict_oldest, evict_while, enforce, insert, set, delete,
  sweep_loop, sweep, trim_to, step, run,
}
use nostr_wot_sdk.Relay.BoundedMap.Bounds.{IsValid}
use nostr_wot_sdk.Relay.BoundedMap.Contents.{set_lem, sweep_lem, is_live}
use nostr_wot_sdk.Relay.BoundedMap.Runs.{run-create-IsValid, peek-set, get_hit, trim_to_lem}

program : Unit {0}
unfolding create is_expired remove_entry peek touch get evict_oldest evict_while enforce insert set
    delete sweep_loop sweep trim_to step run lookup put remove
program = tt

abbrev options : Options ℕ ℕ
options = record {
  max_entries = 2;
  policy = some lru;
  max_bytes = some 10;
  size_of = some (λ v k. v);
  ttl_ms = some 100;
  has_on_evict = true;
}

abbrev empty : BoundedMap ℕ ℕ
empty = record {
  policy = lru;
  max_entries = 2;
  max_bytes = some 10;
  size_of = some (λ v k. v);
  ttl_ms = some 100;
  has_on_evict = true;
  map = [];
  total_bytes = 0;
  evicted = [];
}

abbrev history : List (Call ℕ ℕ)
history = sets 1 4 none 0 ∷ sets 2 5 none 1 ∷ gets 1 2 ∷ sets 3 3 none 3 ∷ []

-- 2 was the least recently used, so it went.
history-keys : keys (run empty history).map ≡ 1 ∷ 3 ∷ []
unfolding program
history-keys = refl

abbrev accepted : create options ≡ some empty
accepted = unfold create in refl

run-create-IsValid_example : IsValid (run empty history)
run-create-IsValid_example = run-create-IsValid options empty history accepted

run_empty-IsValid : IsValid empty
unfolding run
run_empty-IsValid = run-create-IsValid options empty [] accepted

set_lem_example :
    (n : ℕ) × (n ≤ length (remove 3 empty.map))
    × ((set empty 3 20 none 0).map
        ≡ drop n (remove 3 empty.map) ++ (3, new_entry empty 3 20 none 0) ∷ [])
    × IsValid (set empty 3 20 none 0)
set_lem_example = set_lem empty 3 20 none 0 run_empty-IsValid

peek-set_example : (peek (set (run empty history) 7 9 none 5) 7 6).1 ≡ some 9
unfolding program
peek-set_example = peek-set (run empty history) 7 9 none 5 6 run-create-IsValid_example refl

abbrev held : Entry ℕ
held = record { value = 4; bytes = 4; expires_at = some 100 }

get_hit_example :
    ((get (run empty history) 1 9).1 ≡ some 4)
    × ((run empty history).policy ≡ lru
        → (get (run empty history) 1 9).0.map ≡ remove 1 (run empty history).map ++ (1, held) ∷ [])
    × ((run empty history).policy ≡ fifo
        → (get (run empty history) 1 9).0.map ≡ (run empty history).map)
unfolding program
get_hit_example = get_hit (run empty history) 1 held 9 refl refl

sweep_lem_example :
    ((sweep (run empty history) 101).0.map ≡ keep (is_live 101) (run empty history).map)
    × IsValid (sweep (run empty history) 101).0
    × ((sweep (run empty history) 101).1 + size (sweep (run empty history) 101).0
        ≡ size (run empty history))
sweep_lem_example = sweep_lem (run empty history) 101 run-create-IsValid_example

trim_to_lem_example :
    (size (trim_to (run empty history) 1).0 ≤ 1)
    × ((trim_to (run empty history) 1).1 ≡ size (run empty history) - 1)
    × ((trim_to (run empty history) 1).0.map
        ≡ drop (size (run empty history) - 1) (run empty history).map)
    × IsValid (trim_to (run empty history) 1).0
trim_to_lem_example = trim_to_lem (run empty history) 1 run-create-IsValid_example
