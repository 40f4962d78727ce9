-- ===== src/Signing/Requests/Examples.antt =====
-- The requests of core.ts on small inputs.
use nostr_wot_sdk.Prelude.{◌≡◌, refl, none, text, text_beq}
use nostr_wot_sdk.Permissions.Scope.Chars.{cut_at, lower}
use nostr_wot_sdk.Signing.Requests.{permission_origin, canonical_origin_key, lan}

peer :
    permission_origin
      (record { kind = lan; identifier = text "p1"; display_name = none; icon = none })
    ≡ text "lan:p1"
unfolding permission_origin
peer = refl

bunker_key : canonical_origin_key (text "nip46:ABC") ≡ text "nip46:abc"
unfolding canonical_origin_key cut_at lower text_beq
bunker_key = refl
