-- ===== src/Permissions/Scope/Ipv6.antt =====
-- `canonicalIpv6` of packages/identity/src/permissions/scope.ts.
use nostr_wot_sdk.Prelude.{
  ℕ, zero, suc, ◌+◌, ◌-◌, ◌*◌, Bool, true, ◌&&◌, ◌||◌, not, Option, none, some, List, [], ◌∷◌, ◌++◌,
  Text, text, nat_beq, ltb, leb, if◌then◌else◌, length, drop, map,
}
use nostr_wot_sdk.Permissions.Scope.Chars.{
  all, is_empty, is_digit, is_lower_hex, lower, split_on, split_colons, join, parse_digits,
  show_hex, last_text,
}
use nostr_wot_sdk.Permissions.Scope.Ipv4.{not_numeric, invalid, address, canonical_ipv4}

abbrev pub all_texts : (Text → Bool) → List Text → Bool
all_texts p [] = true
all_texts p (t ∷ ts) = p t && all_texts p ts

-- `\d+\.\d+\.\d+\.\d+`
unfoldable pub is_quad : Text → Bool
is_quad t =
    let parts = split_on b'.' t in
    nat_beq (length parts) 4 && all_texts (λ p. not (is_empty p) && all is_digit p) parts

-- The text up to and with its last colon.
unfoldable pub before_last_colon : Text → Text
before_last_colon [] = []
before_last_colon (c ∷ s) =
    let rest = before_last_colon s in if is_empty rest && not (nat_beq c b':') then [] else c ∷ rest

abbrev pub group_of : List Text → Text
group_of (a ∷ b ∷ rest) = show_hex (parse_digits 10 0 a * 256 + parse_digits 10 0 b)
group_of _ = []

-- The dotted-quad tail as its two groups; `none` where it is no address.
unfoldable pub fold_quad : Text → Option Text
fold_quad t =
    let tail = last_text (split_on b':' t) in
    if is_quad tail
    then elim (canonical_ipv4 tail) [
      | not_numeric ↦ none
      | invalid ↦ none
      | address quad ↦
          let octets = split_on b'.' quad in
          some (before_last_colon t ++ group_of octets ++ b':' ∷ group_of (drop 2 octets))
    ]
    else some t

-- The inner function `parse`.
unfoldable pub parse_groups : List Text → Option (List ℕ)
parse_groups [] = some []
parse_groups (g ∷ gs) =
    if is_empty g || ltb 4 (length g)
    then none
    else elim (parse_groups gs) [ none ↦ none | some ns ↦ some (parse_digits 16 0 g ∷ ns) ]

unfoldable pub parse_half : Text → Option (List ℕ)
parse_half half = if is_empty half then some [] else parse_groups (split_on b':' half)

abbrev pub zeros : ℕ → List ℕ
zeros zero = []
zeros (suc n) = 0 ∷ zeros n

-- The eight groups of an address.
unfoldable pub address_groups : List Text → Option (List ℕ)
address_groups (head_text ∷ []) = elim (parse_half head_text) [
  | none ↦ none
  | some head ↦ if nat_beq (length head) 8 then some head else none
]
address_groups (head_text ∷ tail_text ∷ []) = elim (parse_half head_text) [
  | none ↦ none
  | some head ↦ elim (parse_half tail_text) [
    | none ↦ none
    | some tail ↦
        if leb 8 (length head + length tail)
        then none
        else some (head ++ zeros (8 - (length head + length tail)) ++ tail)
  ]
]
address_groups _ = none

abbrev pub leading_zeros : List ℕ → ℕ
leading_zeros [] = 0
leading_zeros (g ∷ gs) = let rest = leading_zeros gs in if nat_beq g 0 then suc rest else 0

-- The longest run of two zero groups or more, the first on a tie: its start and its length, which is
-- 0 where there is none. Each round takes a group at least, so fuel for the groups is enough.
unfoldable pub best_run : ℕ → ℕ → List ℕ → ℕ × ℕ → ℕ × ℕ
best_run zero i gs best = best
best_run (suc fuel) i [] best = best
best_run (suc fuel) i (g ∷ gs) best =
    let run = leading_zeros (g ∷ gs) in
    let skip = best_run fuel (suc i) gs best in
    let better = if ltb best.1 run && leb 2 run then (i, run) else best in
    let jump = best_run fuel (i + run) (drop run (g ∷ gs)) better in
    if nat_beq g 0 then jump else skip

abbrev pub take : ℕ → List Text → List Text
take zero ts = []
take (suc n) [] = []
take (suc n) (t ∷ ts) = t ∷ take n ts

-- The bracketed text of eight groups.
unfoldable pub show_groups : List ℕ → Text
show_groups gs =
    let hex = map show_hex gs in
    let best = best_run (length gs) 0 gs (0, 0) in
    if nat_beq best.1 0
    then b'[' ∷ join b':' hex ++ b']' ∷ []
    else b'[' ∷ join b':' (take best.0 hex)
      ++ text "::"
      ++ join b':' (drop (best.0 + best.1) hex)
      ++ b']' ∷ []

unfoldable pub canonical_ipv6 : Text → Option Text
canonical_ipv6 inner = elim (fold_quad (lower inner)) [
  | none ↦ none
  | some t ↦
      if is_empty t || not (all (λ c. is_lower_hex c || nat_beq c b':') t)
      then none
      else elim (address_groups (split_colons t)) [ none ↦ none | some gs ↦ some (show_groups gs) ]
]
