-- ===== src/Prelude/Integers.antt =====
-- Integers over the native numbers, and their decimal text.
use Prim.Native.Nat.{ℕ, zero, suc, ◌+◌, ◌-◌, ◌*◌, ◌/◌, ◌%◌, ◌<◌}
use mathlib.Core.Bool.{Bool, true, false}
use mathlib.Core.List.{[], ◌∷◌, ◌++◌, tail}
use mathlib.Core.Logic.{◌↔◌, inl, inr}
use mathlib.Core.Path.{◌≡◌, refl, sym, ap, ◌∙◌}
use native.Mathlib.Omega.{arith}
use nostr_wot_sdk.Prelude.Tests.{Eq, nat_beq, ltb, if◌then◌else◌, Bool-cases}
use nostr_wot_sdk.Prelude.Strings.{Text}

-- `negsuc n` is -(n + 1).
pub data ℤ : Type 0 where
  pos : ℕ → ℤ
  negsuc : ℕ → ℤ

unfoldable pub int_beq : ℤ → ℤ → Bool
int_beq (pos a) (pos b) = nat_beq a b
int_beq (negsuc a) (negsuc b) = nat_beq a b
int_beq (pos a) (negsuc b) = false
int_beq (negsuc a) (pos b) = false

pub int_beq_iff : (a b : ℤ) → (int_beq a b ≡ true) ↔ (a ≡ b)
unfolding int_beq
int_beq_iff (pos a) (pos b) = (λ h. ground arith, λ h. ground arith)
int_beq_iff (negsuc a) (negsuc b) = (λ h. ground arith, λ h. ground arith)
int_beq_iff (pos a) (negsuc b) = (λ h. cc, λ h. cc)
int_beq_iff (negsuc a) (pos b) = (λ h. cc, λ h. cc)

instance abbrev pub int_eq : Eq ℤ
int_eq = record {
  test = int_beq;
  sound = λ j k. (int_beq_iff j k).0;
  same = λ k. (int_beq_iff k k).1 refl;
}

-- The decimal digits of a number that is below the fuel.
unfoldable pub decimal_fuel : ℕ → ℕ → Text
decimal_fuel zero n = []
decimal_fuel (suc fuel) n =
    let front = decimal_fuel fuel (n / 10) ++ (48 + n % 10) ∷ [] in
    if ltb n 10 then (48 + n) ∷ [] else front

unfoldable pub decimal : ℕ → Text
unfolding decimal_fuel
decimal n = decimal_fuel (suc n) n

-- `String(n)`, below 10 ^ 21.
unfoldable pub show_int : ℤ → Text
unfolding decimal
show_int (pos n) = decimal n
show_int (negsuc n) = b'-' ∷ decimal (suc n)

-- Reading digits back, most significant first.
abbrev pub read_from : ℕ → Text → ℕ
read_from acc [] = acc
read_from acc (c ∷ s) = read_from (acc * 10 + (c - 48)) s

read_from-append : (acc : ℕ) (s t : Text) → read_from acc (s ++ t) ≡ read_from (read_from acc s) t
read_from-append acc [] t = refl
read_from-append acc (c ∷ s) t = read_from-append (acc * 10 + (c - 48)) s t

read-decimal_fuel : (fuel n : ℕ) → n < fuel → read_from 0 (decimal_fuel fuel n) ≡ n
unfolding decimal_fuel
read-decimal_fuel zero n h = absurd (omega arith)
read-decimal_fuel (suc fuel) n h = elim (Bool-cases (ltb n 10)) [
  | inl small ↦ rw small (omega arith)
  | inr big ↦ rw big (
      read_from-append 0 (decimal_fuel fuel (n / 10)) ((48 + n % 10) ∷ [])
      ∙ rw (read-decimal_fuel fuel (n / 10) (ground arith)) (omega arith))
]

pub read-decimal : (n : ℕ) → read_from 0 (decimal n) ≡ n
unfolding decimal
read-decimal n = read-decimal_fuel (suc n) n (omega arith)

-- Two numbers with one text are equal.
pub decimal-injective : (m n : ℕ) → decimal m ≡ decimal n → m ≡ n
decimal-injective m n h = sym (read-decimal m) ∙ ap (read_from 0) h ∙ read-decimal n

-- A digit first, which a minus sign is not.
abbrev pub head_or_zero : Text → ℕ
head_or_zero [] = 0
head_or_zero (c ∷ s) = c

head-decimal_fuel : (fuel n : ℕ) → n < fuel → b'-' < head_or_zero (decimal_fuel fuel n)
unfolding decimal_fuel
head-decimal_fuel zero n h = absurd (omega arith)
head-decimal_fuel (suc fuel) n h = elim (Bool-cases (ltb n 10)) [
  | inl small ↦ rw small (omega arith)
  | inr big ↦
      rw big (
        head_append (decimal_fuel fuel (n / 10)) _ (head-decimal_fuel fuel (n / 10) (ground arith)))
]
  where
    head_append : (s t : Text) → b'-' < head_or_zero s → b'-' < head_or_zero (s ++ t)
    head_append [] t h = absurd (omega arith)
    head_append (c ∷ s) t h = h

pub show_int-injective : (a b : ℤ) → show_int a ≡ show_int b → a ≡ b
unfolding show_int decimal
show_int-injective (pos a) (pos b) h = ap pos (decimal-injective a b h)
show_int-injective (negsuc a) (negsuc b) h =
    ap negsuc (omega (arith, decimal-injective (suc a) (suc b) (ap tail h)))
show_int-injective (pos a) (negsuc b) h =
    absurd (omega (arith, head-decimal_fuel (suc a) a (omega arith), ap head_or_zero h))
show_int-injective (negsuc a) (pos b) h =
    absurd (omega (arith, head-decimal_fuel (suc b) b (omega arith), ap head_or_zero h))
