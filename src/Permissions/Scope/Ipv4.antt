-- ===== src/Permissions/Scope/Ipv4.antt =====
-- `canonicalIpv4` of packages/identity/src/permissions/scope.ts. Its numbers are exact here: a part
-- too long for a JavaScript number is refused by the bounds below, as the source refuses infinity.
use nostr_wot_sdk.Prelude.{
  ℕ, suc, ◌+◌, ◌-◌, ◌*◌, ◌/◌, ◌%◌, ◌^◌, Bool, ◌&&◌, ◌||◌, not, Option, none, some, List, [], ◌∷◌,
  Text, text, text_eq, starts_with, ltb, leb, if◌then◌else◌, length, drop, any, decimal,
}
use nostr_wot_sdk.Permissions.Scope.Chars.{
  all, is_empty, is_digit, is_octal, is_hex, split_on, join, parse_digits, last_text, init,
}

-- `null` for a host that is not numeric, `false` for one that looks numeric and is no address.
pub data Ipv4 : Type 0 where
  not_numeric invalid : Ipv4
  address : Text → Ipv4

abbrev pub has_hex_prefix : Text → Bool
has_hex_prefix p = starts_with p (text "0x") || starts_with p (text "0X")

-- `IPV4_PART`
unfoldable pub is_ipv4_part : Text → Bool
is_ipv4_part p = has_hex_prefix p && all is_hex (drop 2 p) || not (is_empty p) && all is_digit p

-- One round of the loop over the parts.
unfoldable pub part_value : Text → Option ℕ
part_value p =
    if not (is_ipv4_part p)
    then none
    else if has_hex_prefix p
    then some (parse_digits 16 0 (drop 2 p))
    else if ltb 1 (length p) && starts_with p (text "0")
    then (if all is_octal p then some (parse_digits 8 0 p) else none)
    else some (parse_digits 10 0 p)

unfoldable pub part_values : List Text → Option (List ℕ)
part_values [] = some []
part_values (p ∷ ps) = elim (part_value p) [
  | none ↦ none
  | some n ↦ elim (part_values ps) [ none ↦ none | some ns ↦ some (n ∷ ns) ]
]

abbrev pub last_number : List ℕ → ℕ
last_number [] = 0
last_number (n ∷ []) = n
last_number (n ∷ m ∷ ns) = last_number (m ∷ ns)

-- The sum over `numbers`, from an index.
unfoldable pub weigh : ℕ → List ℕ → ℕ
weigh index [] = 0
weigh index (n ∷ ns) = n * 256 ^ (3 - index) + weigh (suc index) ns

abbrev pub octet : ℕ → ℕ → Text
octet n shift = decimal (n / 2 ^ shift % 256)

unfoldable pub dotted : ℕ → Text
dotted n = join b'.' (octet n 24 ∷ octet n 16 ∷ octet n 8 ∷ octet n 0 ∷ [])

-- The bounds and the address, from the parts' numbers.
unfoldable pub address_of : List ℕ → Ipv4
address_of ns =
    let front = init ns in
    let tail = last_number ns in
    if any (λ n. ltb 255 n) front
    then invalid
    else if leb (256 ^ (4 - length front)) tail
    then invalid
    else address (dotted (tail + weigh 0 front))

-- The parts of a host, less the empty one behind a trailing dot.
unfoldable pub host_parts : Text → List Text
host_parts host =
    let parts = split_on b'.' host in
    if ltb 1 (length parts) && is_empty (last_text parts) then init parts else parts

unfoldable pub canonical_ipv4 : Text → Ipv4
canonical_ipv4 host =
    let parts = host_parts host in
    if not (is_ipv4_part (last_text parts))
    then not_numeric
    else if ltb 4 (length parts)
    then invalid
    else elim (part_values parts) [ none ↦ invalid | some ns ↦ address_of ns ]
