-- ===== src/Permissions/Authentication/Examples.antt =====
-- authentication.ts on one relay login and one service request.
use nostr_wot_sdk.Prelude.{
  ◌≡◌, refl, true, Option, none, some, [], ◌∷◌, Text, text, text_beq, text_eq, starts_with, lookup,
  decimal, pos, int_beq,
}
use nostr_wot_sdk.Permissions.Key.{nip42_kind}
use nostr_wot_sdk.Permissions.Scope.Chars.{
  lower, split_on, split_colons, join, cut_at, parse_digits, show_hex,
}
use nostr_wot_sdk.Permissions.Scope.Ipv4.{
  is_ipv4_part, part_value, part_values, weigh, dotted, address_of, host_parts, canonical_ipv4,
}
use nostr_wot_sdk.Permissions.Scope.{
  origin_shape, is_domain, authority_parts, canonical_domain, canonical_host, canonical_port,
  origin_of_parts, canonical_origin, canonical_http_origin, canonical_web_socket_origin,
  after_slashes, hostname_of,
}
use nostr_wot_sdk.Permissions.Host.{nip42, nip98}
use nostr_wot_sdk.Permissions.Grants.{AuthenticationRequest}
use nostr_wot_sdk.Permissions.Authentication.{
  AuthenticationEvent, Named, origin_string, requester, web, nip46, parsed, invalid,
  requester_label, is_hex_64, authentication_requester_key, web_origin_of, tag, is_loopback,
  cut_path, url_shape, destination_of_parts, destination_of, is_fresh, metadata_matches,
  parse_legacy, finish_nip42, finish_nip98, parse_destined, parse_standard, parse_from,
  parse_authentication, is_authentication_kind, nip98_kind,
}
use nostr_wot_sdk.Permissions.Authentication.Accepts.{Accepted, parse_authentication-Accepted}

program : Unit {0}
unfolding lower split_on split_colons join cut_at parse_digits show_hex is_ipv4_part part_value
    part_values weigh dotted address_of host_parts canonical_ipv4 origin_shape is_domain
    authority_parts canonical_domain canonical_host canonical_port origin_of_parts canonical_origin
    canonical_http_origin canonical_web_socket_origin after_slashes hostname_of requester_label
    is_hex_64 authentication_requester_key web_origin_of tag is_loopback cut_path url_shape
    destination_of_parts destination_of is_fresh metadata_matches parse_legacy finish_nip42
    finish_nip98 parse_destined parse_standard parse_from parse_authentication text_beq int_beq
    starts_with lookup decimal
program = tt

abbrev login : AuthenticationEvent
login = record {
  kind = nip42_kind;
  content = [];
  created_at = some (pos 1000);
  tags =
      (text "relay" ∷ text "wss://relay.example/path" ∷ [])
      ∷ (text "challenge" ∷ text "c1" ∷ [])
      ∷ [];
}

abbrev service : AuthenticationEvent
service = record {
  kind = nip98_kind;
  content = [];
  created_at = some (pos 1000);
  tags =
      (text "u" ∷ text "https://API.shop.example/x?y" ∷ [])
      ∷ (text "method" ∷ text "GET" ∷ [])
      ∷ [];
}

abbrev shop : Named
shop = origin_string (text "https://shop.example")

abbrev login_request : AuthenticationRequest
login_request = record {
  protocol = nip42;
  url = text "wss://relay.example/path";
  destination = text "wss://relay.example/path";
  method = none;
  cross_origin = true;
}

relay_login : parse_authentication login shop 1600 [] ≡ parsed login_request
unfolding program
relay_login = refl

too_old : parse_authentication login shop 1601 [] ≡ invalid
unfolding program
too_old = refl

service_request :
    parse_authentication service shop 950 []
    ≡ parsed (record {
      protocol = nip98;
      url = text "https://API.shop.example/x?y";
      destination = text "https://api.shop.example";
      method = some (text "GET");
      cross_origin = true;
    })
unfolding program
service_request = refl

insecure_requester :
    parse_authentication service (requester (web (text "http://shop.example"))) 950 [] ≡ invalid
unfolding program
insecure_requester = refl

short_key : authentication_requester_key (nip46 (text "abc")) ≡ none
unfolding program
short_key = refl

parse_authentication-Accepted_example :
    (is_authentication_kind login.kind ≡ true)
    × (origin : Option Text) × (web_origin_of shop ≡ some origin)
    × Accepted login origin 1600 login_request
parse_authentication-Accepted_example =
    parse_authentication-Accepted login shop 1600 [] login_request relay_login
