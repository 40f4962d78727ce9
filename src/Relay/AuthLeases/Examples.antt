-- ===== src/Relay/AuthLeases/Examples.antt =====
-- `AuthLeases` on one relay and two identities.
use nostr_wot_sdk.Prelude.{
  ◌≡◌, refl, some, List, [], ◌∷◌, Text, text, text_eq, text_beq, lookup, put, remove,
}
use nostr_wot_sdk.Relay.AuthLeases.{
  acquire, release_row, release, count, ends_with, drop_suffix, drop_identity, Event, acquire_event,
  release_event, step, run,
}
use nostr_wot_sdk.Relay.AuthLeases.Counts.{Held, run-Held, release-acquire}

program : Unit {0}
unfolding acquire release_row release count ends_with drop_suffix drop_identity step run lookup put
    remove text_beq
program = tt

no_rows-Held : Held []
unfolding lookup
no_rows-Held = record { positive = λ k r e. cc }

abbrev history : List Event
history =
    acquire_event (text "wss://relay.example|alice") (text "dm")
    ∷ acquire_event (text "wss://relay.example|bob") (text "publish")
    ∷ acquire_event (text "wss://relay.example|alice") (text "publish")
    ∷ release_event (text "wss://relay.example|alice") (text "dm")
    ∷ []

one_left : count (run [] history) (text "wss://relay.example|alice") ≡ 1
unfolding program
one_left = refl

dropped :
    count (drop_identity (run [] history) (text "alice")) (text "wss://relay.example|alice") ≡ 0
unfolding program
dropped = refl

run-Held_example : Held (run [] history)
run-Held_example = run-Held [] history no_rows-Held

release-acquire_example :
    ((release (acquire (run [] history) (text "k|bob") (text "dm")) (text "k|bob") (text "dm")).1
      ≡ some (count (run [] history) (text "k|bob")))
    × ((j : Text)
        → count
            (release
              (acquire (run [] history) (text "k|bob") (text "dm"))
              (text "k|bob")
              (text "dm")).0
            j
          ≡ count (run [] history) j)
release-acquire_example =
    release-acquire (run [] history) (text "k|bob") (text "dm") (run-Held [] history no_rows-Held)
