-- ===== src/Permissions/Scope/Examples.antt =====
-- scope.ts at concrete spellings.
use nostr_wot_sdk.Prelude.{
  ◌≡◌, refl, none, some, [], ◌∷◌, text, text_beq, starts_with, lookup, decimal,
}
use nostr_wot_sdk.Permissions.Scope.Chars.{
  lower, split_on, split_colons, join, cut_at, parse_digits, show_hex,
}
use nostr_wot_sdk.Permissions.Scope.Ipv4.{
  is_ipv4_part, part_value, part_values, weigh, dotted, address_of, host_parts, canonical_ipv4,
}
use nostr_wot_sdk.Permissions.Scope.Ipv6.{
  is_quad, before_last_colon, fold_quad, parse_groups, parse_half, address_groups, best_run,
  show_groups, canonical_ipv6,
}
use nostr_wot_sdk.Permissions.Scope.{
  origin_shape, is_domain, authority_parts, canonical_domain, canonical_host, canonical_port,
  origin_of_parts, canonical_origin, canonical_http_origin, canonical_web_socket_origin, strip_dots,
  canonical_hostname, after_slashes, hostname_of, site_scopes, storage_label, has_site_scope,
}

program : Unit {0}
unfolding lower split_on split_colons join cut_at parse_digits show_hex decimal is_ipv4_part
    part_value part_values weigh dotted address_of host_parts canonical_ipv4 is_quad
    before_last_colon fold_quad parse_groups parse_half address_groups best_run show_groups
    canonical_ipv6 origin_shape is_domain authority_parts canonical_domain canonical_host
    canonical_port origin_of_parts canonical_origin canonical_http_origin
    canonical_web_socket_origin strip_dots canonical_hostname after_slashes hostname_of site_scopes
    storage_label has_site_scope lookup text_beq starts_with
program = tt

upper_case :
    canonical_http_origin (text "HTTPS://EXAMPLE.COM:443") ≡ some (text "https://example.com")
unfolding program
upper_case = refl

other_port :
    canonical_http_origin (text "http://example.com:00443") ≡ some (text "http://example.com:443")
unfolding program
other_port = refl

numeric_host : canonical_http_origin (text "http://2130706433") ≡ some (text "http://127.0.0.1")
unfolding program
numeric_host = refl

mixed_radix : canonical_http_origin (text "http://0x7f.0.0.01") ≡ some (text "http://127.0.0.1")
unfolding program
mixed_radix = refl

ipv6 :
    canonical_http_origin (text "https://[2001:DB8:0:0:1:0:0:1]:8443")
    ≡ some (text "https://[2001:db8::1:0:0:1]:8443")
unfolding program
ipv6 = refl

ipv6_quad :
    canonical_http_origin (text "https://[::ffff:1.2.3.4]") ≡ some (text "https://[::ffff:102:304]")
unfolding program
ipv6_quad = refl

credentials : canonical_http_origin (text "https://user@example.com") ≡ none
unfolding program
credentials = refl

bare_path : canonical_http_origin (text "https://example.com/") ≡ none
unfolding program
bare_path = refl

relay : canonical_web_socket_origin (text "wss://relay.test:443") ≡ some (text "wss://relay.test")
unfolding program
relay = refl

hostname : canonical_hostname (text "Example.com..") ≡ some (text "example.com")
unfolding program
hostname = refl

scopes :
    site_scopes (text "https://example.com:8443")
    ≡ text "https://example.com:8443" ∷ text "example.com" ∷ []
unfolding program
scopes = refl

android : site_scopes (text "com.example.App") ≡ text "com.example.App" ∷ []
unfolding program
android = refl
