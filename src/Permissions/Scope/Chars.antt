-- ===== src/Permissions/Scope/Chars.antt =====
-- The text operations and character classes that packages/identity/src/permissions/scope.ts uses.
use nostr_wot_sdk.Prelude.{
  ℕ, zero, suc, ◌+◌, ◌-◌, ◌*◌, ◌/◌, ◌%◌, Bool, true, false, ◌&&◌, ◌||◌, Option, none, some, List,
  [], ◌∷◌, ◌++◌, Text, ltb, leb, nat_beq, if◌then◌else◌,
}

abbrev pub all : (ℕ → Bool) → Text → Bool
all p [] = true
all p (c ∷ s) = p c && all p s

abbrev pub is_empty : Text → Bool
is_empty [] = true
is_empty (c ∷ s) = false

abbrev pub between : ℕ → ℕ → ℕ → Bool
between lo hi c = leb lo c && leb c hi

abbrev pub is_digit : ℕ → Bool
is_digit = between b'0' b'9'

abbrev pub is_octal : ℕ → Bool
is_octal = between b'0' b'7'

abbrev pub is_lower_hex : ℕ → Bool
is_lower_hex c = is_digit c || between b'a' b'f' c

abbrev pub is_hex : ℕ → Bool
is_hex c = is_lower_hex c || between b'A' b'F' c

abbrev pub is_letter : ℕ → Bool
is_letter c = between b'a' b'z' c || between b'A' b'Z' c

-- `toLowerCase`, as far as the tests of this file can see it: the ASCII letters, the Kelvin sign
-- and the dotted I. The other letters stay outside ASCII in both cases.
unfoldable pub lower : Text → Text
lower [] = []
lower (c ∷ s) =
    let rest = lower s in
    if between b'A' b'Z' c
    then (c + 32) ∷ rest
    else if nat_beq c 0x212a
    then b'k' ∷ rest
    else if nat_beq c 0x130
    then b'i' ∷ 0x307 ∷ rest
    else c ∷ rest

abbrev push_first : ℕ → List Text → List Text
push_first c [] = (c ∷ []) ∷ []
push_first c (p ∷ ps) = (c ∷ p) ∷ ps

-- `split(sep)` for a separator of one character.
unfoldable pub split_on : ℕ → Text → List Text
split_on sep [] = [] ∷ []
split_on sep (c ∷ s) =
    let rest = split_on sep s in if nat_beq c sep then [] ∷ rest else push_first c rest

-- `split('::')`
unfoldable pub split_colons : Text → List Text
split_colons [] = [] ∷ []
split_colons (c ∷ []) = (c ∷ []) ∷ []
split_colons (c ∷ d ∷ s) = elim (nat_beq c b':' && nat_beq d b':') [
  | true ↦ [] ∷ split_colons s
  | false ↦ push_first c (split_colons (d ∷ s))
]

-- `join(sep)` for a separator of one character.
unfoldable pub join : ℕ → List Text → Text
join sep [] = []
join sep (p ∷ []) = p
join sep (p ∷ q ∷ ps) = p ++ sep ∷ join sep (q ∷ ps)

-- What stands before and after the first occurrence of a character.
unfoldable pub cut_at : ℕ → Text → Option (Text × Text)
cut_at sep [] = none
cut_at sep (c ∷ s) = elim (cut_at sep s) [
  | none ↦ if nat_beq c sep then some ([], s) else none
  | some (before, after) ↦ if nat_beq c sep then some ([], s) else some (c ∷ before, after)
]

abbrev digit_value : ℕ → ℕ
digit_value c =
    if is_digit c then c - b'0' else if between b'a' b'f' c then c - b'a' + 10 else c - b'A' + 10

-- `parseInt(t, radix)` on digits of the radix.
unfoldable pub parse_digits : ℕ → ℕ → Text → ℕ
parse_digits radix acc [] = acc
parse_digits radix acc (c ∷ s) = parse_digits radix (acc * radix + digit_value c) s

abbrev hex_digit : ℕ → ℕ
hex_digit n = if ltb n 10 then b'0' + n else b'a' + (n - 10)

unfoldable pub hex_fuel : ℕ → ℕ → Text
hex_fuel zero n = []
hex_fuel (suc fuel) n =
    let front = hex_fuel fuel (n / 16) ++ hex_digit (n % 16) ∷ [] in
    if ltb n 16 then hex_digit n ∷ [] else front

-- `n.toString(16)`
unfoldable pub show_hex : ℕ → Text
unfolding hex_fuel
show_hex n = hex_fuel (suc n) n

abbrev pub last_text : List Text → Text
last_text [] = []
last_text (p ∷ []) = p
last_text (p ∷ q ∷ ps) = last_text (q ∷ ps)

abbrev pub init {ℓ} : {A : Type ℓ} → List A → List A
init [] = []
init (p ∷ []) = []
init (p ∷ q ∷ ps) = p ∷ init (q ∷ ps)
