-- ===== src/Permissions/Migrations/Examples.antt =====
-- The migrations on a small bucket.
use nostr_wot_sdk.Prelude.{
  ◌≡◌, refl, true, false, ◌||◌, none, some, [], ◌∷◌, text, text_eq, text_beq, ◌==◌, lookup, put,
  remove, show_int, decimal,
}
use nostr_wot_sdk.Permissions.Key.{allow, deny, ask, forward, Bucket, send_messages, kind_key}
use nostr_wot_sdk.Permissions.Store.{is_dm_key, dm_permission_keys}
use nostr_wot_sdk.Permissions.Migrations.{forward_to_ask, fold_keys, keep_chosen, fold_dm_kinds}
use nostr_wot_sdk.Permissions.Migrations.Folding.{fold_dm_kinds_lem}

program : Unit {0}
unfolding forward_to_ask fold_keys keep_chosen fold_dm_kinds dm_permission_keys is_dm_key kind_key
    show_int decimal lookup put remove text_beq
program = tt

abbrev rules : Bucket
rules =
    (text "signEvent:4", allow)
    ∷ (send_messages, ask)
    ∷ (text "signEvent:1059", deny)
    ∷ (text "signEvent:1", forward)
    ∷ []

folded : fold_dm_kinds rules ≡ ((send_messages, deny) ∷ (text "signEvent:1", forward) ∷ [], true)
unfolding program
folded = refl

asked : (forward_to_ask rules).1 ≡ true
unfolding program
asked = refl

fold_dm_kinds_lem_example :
    (is_dm_key (text "signEvent:1059") ≡ true
      → lookup (text "signEvent:1059") (fold_dm_kinds rules).0 ≡ none)
    × (is_dm_key (text "signEvent:1059") ≡ false
        → send_messages == text "signEvent:1059" ≡ false
        → lookup (text "signEvent:1059") (fold_dm_kinds rules).0
          ≡ lookup (text "signEvent:1059") rules)
    × (is_dm_key (text "signEvent:1059") || send_messages == text "signEvent:1059" ≡ true
        → lookup (text "signEvent:1059") rules ≡ some deny
        → lookup send_messages (fold_dm_kinds rules).0 ≡ some deny)
fold_dm_kinds_lem_example = fold_dm_kinds_lem rules (text "signEvent:1059")
