-- ===== src/Permissions/Authentication/Accepts.antt =====
-- What an event must say for authentication.ts to accept it.
use nostr_wot_sdk.Prelude.{
  ℕ, ◌≡◌, refl, inl, inr, Bool, true, false, not, ◌&&◌, Option, none, some, List, Text, text,
  text_eq, ◌==◌, int_eq, arith, Bool-cases, Option-cases, starts_with,
}
use nostr_wot_sdk.Permissions.Key.{nip42_kind}
use nostr_wot_sdk.Permissions.Scope.Chars.{is_empty}
use nostr_wot_sdk.Permissions.Host.{Protocol, nip42, nip98, legacy_login}
use nostr_wot_sdk.Permissions.Grants.{AuthenticationRequest}
use nostr_wot_sdk.Permissions.Authentication.{
  AuthenticationEvent, Named, Destination, parsed, is_fresh, nip42_max_age, nip98_max_age,
  is_authentication_kind, tag, has_tag, parse_legacy, finish_nip42, finish_nip98, parse_destined,
  parse_standard, parse_from, parse_authentication, web_origin_of, destination_of,
}

abbrev pub max_age : Protocol → ℕ
max_age nip42 = nip42_max_age
max_age _ = nip98_max_age

-- What the tags and the requester say, by protocol: the relay or the service that the credential is for
-- is the one tag's value, and it is a destination that the requester may name.
abbrev pub Names : AuthenticationEvent → Option Text → AuthenticationRequest → Protocol → Type 0
Names event origin auth nip42 =
    (event.kind == nip42_kind ≡ true)
    × (tag event (text "relay") ≡ some auth.url)
    × (challenge : Text) × (tag event (text "challenge") ≡ some challenge)
    × (d : Destination) × (destination_of auth.url origin true ≡ some d)
    × (d.full ≡ auth.destination)
Names event origin auth nip98 =
    (event.kind == nip42_kind ≡ false)
    × (tag event (text "u") ≡ some auth.url)
    × (method : Text) × (tag event (text "method") ≡ some method)
    × (auth.method ≡ some method)
    × (d : Destination) × (destination_of auth.url origin false ≡ some d)
    × (d.origin ≡ auth.destination)
Names event origin auth legacy_login =
    (event.kind == nip42_kind ≡ true)
    × (origin ≡ some auth.destination)
    × (starts_with auth.destination (text "https://") ≡ true)
    × (has_tag event (text "relay") ≡ false)

-- No content, a time near now, and the names.
pub record Accepted (event : AuthenticationEvent) (origin : Option Text) (now : ℕ)
    (auth : AuthenticationRequest) : Type 0 where
  pub empty : is_empty event.content ≡ true
  pub fresh : is_fresh now event.created_at (max_age auth.protocol) ≡ true
  pub names : Names event origin auth auth.protocol

parse_legacy-Accepted :
    (event : AuthenticationEvent) (origin : Option Text) (now : ℕ) (legacy : List Text)
    (auth : AuthenticationRequest)
    → event.kind == nip42_kind ≡ true
    → has_tag event (text "relay") ≡ false
    → parse_legacy event origin now legacy ≡ parsed auth
    → Accepted event origin now auth
unfolding parse_legacy
parse_legacy-Accepted event none now legacy auth k r e = absurd (ground (arith, e))
parse_legacy-Accepted event (some origin) now legacy auth k r e =
    let shape : auth ≡ record {
      protocol = legacy_login;
      url = origin;
      destination = origin;
      method = none;
      cross_origin = false;
    } =
      ground (arith, e) in
    rw shape (record {
      empty = ground (arith, e);
      fresh = ground (arith, e);
      names = (k, refl, ground (arith, e), r);
    })

finish_nip42-Accepted :
    (event : AuthenticationEvent) (origin : Option Text) (now : ℕ) (raw : Text) (d : Destination)
    (auth : AuthenticationRequest)
    → event.kind == nip42_kind ≡ true
    → is_empty event.content ≡ true
    → is_fresh now event.created_at nip42_max_age ≡ true
    → tag event (text "relay") ≡ some raw
    → destination_of raw origin true ≡ some d
    → finish_nip42 event raw d ≡ parsed auth
    → Accepted event origin now auth
unfolding finish_nip42
finish_nip42-Accepted event origin now raw d auth k empty fresh relay found e =
    elim (Option-cases (tag event (text "challenge"))) [
      | inl none_there ↦ absurd (ground (arith, e, none_there))
      | inr (c, there) ↦
          let shape : auth ≡ record {
            protocol = nip42;
            url = raw;
            destination = d.full;
            method = none;
            cross_origin = true;
          } =
            ground (arith, e, there) in
          rw shape
            (record { empty = empty; fresh = fresh; names = (k, relay, c, there, d, found, refl) })
    ]

finish_nip98-Accepted :
    (event : AuthenticationEvent) (origin : Option Text) (now : ℕ) (raw : Text) (d : Destination)
    (auth : AuthenticationRequest)
    → event.kind == nip42_kind ≡ false
    → is_empty event.content ≡ true
    → is_fresh now event.created_at nip98_max_age ≡ true
    → tag event (text "u") ≡ some raw
    → destination_of raw origin false ≡ some d
    → finish_nip98 event origin raw d ≡ parsed auth
    → Accepted event origin now auth
unfolding finish_nip98
finish_nip98-Accepted event origin now raw d auth k empty fresh u found e =
    elim (Option-cases (tag event (text "method"))) [
      | inl none_there ↦ absurd (ground (arith, e, none_there))
      | inr (m, there) ↦
          let shape : auth ≡ record {
            protocol = nip98;
            url = raw;
            destination = d.origin;
            method = some m;
            cross_origin = auth.cross_origin;
          } =
            ground (arith, e, there) in
          rw shape (record {
            empty = empty;
            fresh = fresh;
            names = (k, u, m, there, refl, d, found, refl);
          })
    ]

parse_standard-Accepted :
    (relay : Bool) (event : AuthenticationEvent) (origin : Option Text) (now : ℕ)
    (auth : AuthenticationRequest)
    → event.kind == nip42_kind ≡ relay
    → parse_standard relay event origin now ≡ parsed auth
    → Accepted event origin now auth
unfolding parse_standard parse_destined
parse_standard-Accepted true event origin now auth k e =
    elim (Option-cases (tag event (text "relay"))) [
      | inl no_tag ↦ absurd (ground (arith, e, no_tag))
      | inr (raw, there) ↦ elim (Option-cases (destination_of raw origin true)) [
        | inl nowhere ↦ absurd (ground (arith, e, there, nowhere))
        | inr (d, found) ↦
            finish_nip42-Accepted event origin now raw d auth k (ground (arith, e, there, found))
              (ground (arith, e, there, found)) there found (ground (arith, e, there, found))
      ]
    ]
parse_standard-Accepted false event origin now auth k e =
    elim (Option-cases (tag event (text "u"))) [
      | inl no_tag ↦ absurd (ground (arith, e, no_tag))
      | inr (raw, there) ↦ elim (Option-cases (destination_of raw origin false)) [
        | inl nowhere ↦ absurd (ground (arith, e, there, nowhere))
        | inr (d, found) ↦
            finish_nip98-Accepted event origin now raw d auth k (ground (arith, e, there, found))
              (ground (arith, e, there, found)) there found (ground (arith, e, there, found))
      ]
    ]

parse_from-Accepted :
    (event : AuthenticationEvent) (origin : Option Text) (now : ℕ) (legacy : List Text)
    (auth : AuthenticationRequest)
    → parse_from event origin now legacy ≡ parsed auth
    → Accepted event origin now auth
unfolding parse_from
parse_from-Accepted event origin now legacy auth e =
    elim (Bool-cases (
      event.kind == nip42_kind
      && not (has_tag event (text "relay"))
      && has_tag event (text "domain"))) [
        | inl l ↦
            parse_legacy-Accepted event origin now legacy auth (ground (arith, l))
              (ground (arith, l)) (ground (arith, e, l))
        | inr s ↦
            parse_standard-Accepted (event.kind == nip42_kind) event origin now auth refl
              (ground (arith, e, s))
      ]

-- An event that is accepted has an authentication kind, no content and a time that is within 600
-- seconds of now for a relay and within 60 otherwise. The relay or service named by its one tag is a
-- destination that the requester may name and is what the credential is for, with the challenge or
-- the method of its one tag; a website login is for the requester's own https origin.
pub parse_authentication-Accepted :
    (event : AuthenticationEvent) (name : Named) (now : ℕ) (legacy : List Text)
    (auth : AuthenticationRequest)
    → parse_authentication event name now legacy ≡ parsed auth
    → (is_authentication_kind event.kind ≡ true)
      × (origin : Option Text) × (web_origin_of name ≡ some origin)
      × Accepted event origin now auth
unfolding parse_authentication
parse_authentication-Accepted event name now legacy auth e =
    elim (Option-cases (web_origin_of name)) [
      | inl thrown ↦ absurd (ground (arith, e, thrown))
      | inr (origin, named) ↦ (
        ground (arith, e),
        origin,
        named,
        parse_from-Accepted event origin now legacy auth (ground (arith, e, named)),
      )
    ]
