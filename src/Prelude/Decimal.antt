-- ===== src/Prelude/Decimal.antt =====
-- The package strconv on int64 in base 10: FormatInt and ParseInt.
use Prim.Native.Nat.{ℕ, zero, suc, ◌+◌, ◌-◌, ◌*◌, ◌/◌, ◌%◌, ◌^◌, ◌<◌, ◌≤◌}
use mathlib.Core.Bool.{Bool, true, false, ◌||◌}
use mathlib.Core.List.{[], ◌∷◌}
use mathlib.Core.Logic.{inl, inr}
use mathlib.Core.Option.{Option, none, some}
use mathlib.Core.Path.{◌≡◌, refl}
use native.Mathlib.Omega.{arith}
use newapi_usage.Prelude.Tests.{◌==◌, ltb, if◌then◌else◌, Bool-cases}
use newapi_usage.Prelude.Int.{ℤ, pos, negsuc}
use newapi_usage.Prelude.Strings.{Text, decimal, decimal_loop, contains_char}

-- The numbers that int64 holds.
unfoldable pub is_int64 : ℤ → Bool
is_int64 (pos n) = ltb n (2 ^ 63)
is_int64 (negsuc n) = ltb n (2 ^ 63)

-- strconv.FormatInt(value, 10)
unfoldable pub format_int : ℤ → Text
format_int (pos n) = decimal n
format_int (negsuc n) = 45 ∷ decimal (suc n)

digits_from : ℕ → Text → Option ℕ
digits_from n [] = some n
digits_from n (c ∷ s) =
    let rest = digits_from (n * 10 + (c - 48)) s in if ltb c 48 || ltb 57 c then none else rest

-- The digits after the sign: at least one.
parse_digits : Text → Option ℕ
unfolding digits_from
parse_digits [] = none
parse_digits (c ∷ s) = digits_from 0 (c ∷ s)

in_range : Option ℤ → Option ℤ
unfolding is_int64
in_range none = none
in_range (some z) = if is_int64 z then some z else none

positive : Option ℕ → Option ℤ
positive none = none
positive (some n) = some (pos n)

negated : Option ℕ → Option ℤ
negated none = none
negated (some zero) = some (pos 0)
negated (some (suc n)) = some (negsuc n)

-- strconv.ParseInt(value, 10, 64), `none` for a syntax or a range error.
unfoldable pub parse_int : Text → Option ℤ
unfolding parse_digits in_range positive negated
parse_int [] = none
parse_int (c ∷ s) =
    if c == 45
    then in_range (negated (parse_digits s))
    else if c == 43
    then in_range (positive (parse_digits s))
    else in_range (positive (parse_digits (c ∷ s)))

digits_from-decimal_loop :
    (fuel n : ℕ) (out : Text)
    → n < fuel
    → digits_from 0 (decimal_loop fuel n out) ≡ digits_from n out
unfolding digits_from decimal_loop
digits_from-decimal_loop zero n out h = absurd (omega arith)
digits_from-decimal_loop (suc fuel) n out h = elim (Bool-cases (ltb n 10)) [
  | inl e ↦
      let small : n < 10 = ground arith in
      let value : 0 * 10 + (48 + n % 10 - 48) ≡ n = omega arith in
      let low : ltb (48 + n % 10) 48 ≡ false = ground arith in
      let high : ltb 57 (48 + n % 10) ≡ false = ground arith in rw (e, low, high, value)
  | inr e ↦
      let big : 10 ≤ n = ground arith in
      let step : n / 10 * 10 + (48 + n % 10 - 48) ≡ n = omega arith in
      let low : ltb (48 + n % 10) 48 ≡ false = ground arith in
      let high : ltb 57 (48 + n % 10) ≡ false = ground arith in
      rw (
        e,
        digits_from-decimal_loop fuel (n / 10) ((48 + n % 10) ∷ out) (omega arith),
        step,
        low,
        high,
      )
]

decimal_loop-cons :
    (fuel n : ℕ) (out : Text)
    → n < fuel
    → (c : ℕ) × (s : Text) × (decimal_loop fuel n out ≡ c ∷ s) × (48 ≤ c)
unfolding decimal_loop
decimal_loop-cons zero n out h = absurd (omega arith)
decimal_loop-cons (suc fuel) n out h = elim (Bool-cases (ltb n 10)) [
  | inl e ↦ (48 + n % 10, out, rw e, omega arith)
  | inr e ↦
      let big : 10 ≤ n = ground arith in
      let r = decimal_loop-cons fuel (n / 10) ((48 + n % 10) ∷ out) (omega arith) in
      (r.0, r.1, rw e r.2, r.3)
]

decimal_loop-contains_char :
    (fuel n : ℕ) (out : Text) → contains_char 46 (decimal_loop fuel n out) ≡ contains_char 46 out
unfolding contains_char decimal_loop
decimal_loop-contains_char zero n out = refl
decimal_loop-contains_char (suc fuel) n out =
    let digit : ((48 + n % 10) == 46) ≡ false = ground arith in
    elim (Bool-cases (ltb n 10)) [
      | inl e ↦ rw (e, digit)
      | inr e ↦ rw (e, decimal_loop-contains_char fuel (n / 10) ((48 + n % 10) ∷ out), digit)
    ]

decimal-cons : (n : ℕ) → (c : ℕ) × (s : Text) × (decimal n ≡ c ∷ s) × (48 ≤ c)
unfolding decimal
decimal-cons n = decimal_loop-cons (suc n) n [] (omega arith)

parse_digits-decimal : (n : ℕ) → parse_digits (decimal n) ≡ some n
unfolding parse_digits decimal digits_from
parse_digits-decimal n =
    let r = decimal_loop-cons (suc n) n [] (omega arith) in
    let value = digits_from-decimal_loop (suc n) n [] (omega arith) in rw r.2 (rw r.2 at value)

-- Neither a digit nor the sign is a dot.
pub format_int-contains_char : (z : ℤ) → contains_char 46 (format_int z) ≡ false
unfolding format_int decimal contains_char
format_int-contains_char (pos n) = decimal_loop-contains_char (suc n) n []
format_int-contains_char (negsuc n) = decimal_loop-contains_char (suc (suc n)) (suc n) []

-- A text that starts with a digit has no sign.
parse_int-unsigned :
    (c : ℕ) (s t : Text) → t ≡ c ∷ s → 48 ≤ c → parse_int t ≡ in_range (positive (parse_digits t))
unfolding parse_int
parse_int-unsigned c s t h le =
    let minus : (c == 45) ≡ false = ground arith in
    let plus : (c == 43) ≡ false = ground arith in rw (h, minus, plus)

pub parse_int-format_int : (z : ℤ) → is_int64 z ≡ true → parse_int (format_int z) ≡ some z
unfolding parse_int format_int in_range
parse_int-format_int (pos n) h =
    let r = decimal-cons n in
    rw (parse_int-unsigned r.0 r.1 (decimal n) r.2 r.3, parse_digits-decimal n, h)
parse_int-format_int (negsuc n) h = rw (parse_digits-decimal (suc n), h)

in_range-is_int64 : (o : Option ℤ) (z : ℤ) → in_range o ≡ some z → is_int64 z ≡ true
unfolding in_range
in_range-is_int64 none z h = cc
in_range-is_int64 (some y) z h = elim (Bool-cases (is_int64 y)) [
  | inl e ↦ let same : y ≡ z = ground arith in rw (← same) e
  | inr e ↦ ground arith
]

pub parse_int-is_int64 : (s : Text) (z : ℤ) → parse_int s ≡ some z → is_int64 z ≡ true
unfolding parse_int
parse_int-is_int64 [] z h = cc
parse_int-is_int64 (c ∷ s) z h = elim (Bool-cases (c == 45)) [
  | inl e ↦ in_range-is_int64 (negated (parse_digits s)) z (rw e at h)
  | inr e ↦ elim (Bool-cases (c == 43)) [
    | inl f ↦ in_range-is_int64 (positive (parse_digits s)) z (rw (e, f) at h)
    | inr f ↦ in_range-is_int64 (positive (parse_digits (c ∷ s))) z (rw (e, f) at h)
  ]
]
