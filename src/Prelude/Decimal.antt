-- ===== src/Prelude/Decimal.antt =====
-- Decimal numbers as fmt prints them, and that strconv reads them back.
use Prim.Native.Nat.{ℕ, zero, suc, ◌+◌, ◌-◌, ◌*◌, ◌/◌, ◌%◌, ◌^◌, ◌<◌, ◌≤◌}
use mathlib.Core.Path.{◌≡◌, refl, sym, ap, subst, ◌∙◌}
use mathlib.Core.Bool.{true, false}
use mathlib.Core.List.{[], ◌∷◌}
use mathlib.Core.Logic.{inl, inr}
use mathlib.Core.Option.{some}
use native.Mathlib.Omega.{arith}
use iplayer_arr.Prelude.Tests.{ltb, if◌then◌else◌, Bool-cases, lt→ltb}
use iplayer_arr.Prelude.Strings.{Text, is_digit, digits}
use iplayer_arr.Prelude.Lists.{length, All}

-- The digits of a number below 10 ^ fuel, in front of a text.
unfoldable print_from : ℕ → ℕ → Text → Text
print_from zero n s = s
print_from (suc fuel) n s =
    let rest = print_from fuel (n / 10) ((48 + n % 10) ∷ s) in
    if ltb n 10 then (48 + n) ∷ s else rest

-- %d of a number
unfoldable pub decimal : ℕ → Text
unfolding print_from
decimal n = print_from (suc n) n []

-- %02d
unfoldable pub decimal_02 : ℕ → Text
unfolding decimal
decimal_02 n = if ltb n 10 then 48 ∷ decimal n else decimal n

unfold_digits :
    (m c : ℕ) (s : Text) → is_digit c ≡ true → digits m (c ∷ s) ≡ digits (m * 10 + (c - 48)) s
unfolding digits
unfold_digits m c s e = rw e refl

digit_is_digit : (d : ℕ) → d < 10 → is_digit (48 + d) ≡ true
digit_is_digit d h = ground arith

-- The two ways that a step prints.
print_last : (fuel n : ℕ) (s : Text) → ltb n 10 ≡ true → print_from (suc fuel) n s ≡ (48 + n) ∷ s
unfolding print_from
print_last fuel n s e = rw e refl

print_more :
    (fuel n : ℕ) (s : Text)
    → ltb n 10 ≡ false
    → print_from (suc fuel) n s ≡ print_from fuel (n / 10) ((48 + n % 10) ∷ s)
unfolding print_from
print_more fuel n s e = rw e refl

small : (n : ℕ) → ltb n 10 ≡ true → n < 10
small n e = ground arith

shorter : (fuel n : ℕ) → ltb n 10 ≡ false → n < suc fuel → n / 10 < fuel
shorter fuel n e h = let big : 10 ≤ n = ground arith in omega arith

recompose : (n : ℕ) → n / 10 * 10 + (48 + n % 10 - 48) ≡ n
recompose n = omega arith

-- Reading what was printed in front of a text gives the number, and goes on with the text.
digits-print_from : (fuel n : ℕ) (s : Text) → n < fuel → digits 0 (print_from fuel n s) ≡ digits n s
digits-print_from (suc fuel) n s h = elim (Bool-cases (ltb n 10)) [
  | inl e ↦
      let value : 0 * 10 + (48 + n - 48) ≡ n = omega arith in
      ap (digits 0) (print_last fuel n s e)
      ∙ unfold_digits 0 (48 + n) s (digit_is_digit n (small n e))
      ∙ ap (λ (m : ℕ). digits m s) value
  | inr e ↦
      ap (digits 0) (print_more fuel n s e)
      ∙ digits-print_from fuel (n / 10) ((48 + n % 10) ∷ s) (shorter fuel n e h)
      ∙ unfold_digits (n / 10) (48 + n % 10) s (digit_is_digit (n % 10) (omega arith))
      ∙ ap (λ (m : ℕ). digits m s) (recompose n)
]
digits-print_from zero n s h = absurd (omega arith)

print_from-All :
    (fuel n : ℕ) (s : Text)
    → All (λ c. is_digit c ≡ true) s
    → All (λ c. is_digit c ≡ true) (print_from fuel n s)
print_from-All zero n s a = unfold print_from in a
print_from-All (suc fuel) n s a = elim (Bool-cases (ltb n 10)) [
  | inl e ↦
      subst (All (λ c. is_digit c ≡ true)) (sym (print_last fuel n s e))
        (digit_is_digit n (small n e), a)
  | inr e ↦
      subst (All (λ c. is_digit c ≡ true)) (sym (print_more fuel n s e)) (
        print_from-All fuel (n / 10) ((48 + n % 10) ∷ s) (digit_is_digit (n % 10) (omega arith), a))
]

tenth : (m n : ℕ) → n < 10 * m → n / 10 < m
tenth m n h = omega arith

power : (k : ℕ) → 10 ^ suc k ≡ 10 * 10 ^ k
power k = omega arith

-- A number below ten times `m` is one digit longer than one below `m`.
print_from-length :
    (k fuel n : ℕ) (s : Text)
    → n < fuel
    → n < 10 ^ suc k
    → length (print_from fuel n s) ≤ length s + suc k
print_from-length k zero n s h b = absurd (omega arith)
print_from-length zero (suc fuel) n s h b =
    let e : ltb n 10 ≡ true = lt→ltb n 10 b in
    let one : length (print_from (suc fuel) n s) ≡ suc (length s) =
      ap length (print_last fuel n s e) in
    omega (arith, one)
print_from-length (suc k) (suc fuel) n s h b = elim (Bool-cases (ltb n 10)) [
  | inl e ↦
      let one : length (print_from (suc fuel) n s) ≡ suc (length s) =
        ap length (print_last fuel n s e) in
      omega (arith, one)
  | inr e ↦
      let below : n < 10 * 10 ^ suc k = subst (λ (t : ℕ). n < t) (power (suc k)) b in
      let one =
        print_from-length k fuel (n / 10) ((48 + n % 10) ∷ s) (shorter fuel n e h)
          (tenth (10 ^ suc k) n below) in
      let same : length (print_from (suc fuel) n s)
          ≡ length (print_from fuel (n / 10) ((48 + n % 10) ∷ s)) =
        ap length (print_more fuel n s e) in
      omega (arith, one, same)
]

print_from-longer :
    (fuel n : ℕ) (s : Text) → n < fuel → suc (length s) ≤ length (print_from fuel n s)
print_from-longer zero n s h = absurd (omega arith)
print_from-longer (suc fuel) n s h = elim (Bool-cases (ltb n 10)) [
  | inl e ↦
      let one : length (print_from (suc fuel) n s) ≡ suc (length s) =
        ap length (print_last fuel n s e) in
      omega (arith, one)
  | inr e ↦
      let one = print_from-longer fuel (n / 10) ((48 + n % 10) ∷ s) (shorter fuel n e h) in
      let same : length (print_from (suc fuel) n s)
          ≡ length (print_from fuel (n / 10) ((48 + n % 10) ∷ s)) =
        ap length (print_more fuel n s e) in
      omega (arith, one, same)
]

-- What %02d prints of a number below 10000: two to four digits, which read as the number.
pub record IsPrinted (n : ℕ) (s : Text) : Type 0 where
  pub all_digits : All (λ c. is_digit c ≡ true) s
  pub at_least_two : 2 ≤ length s
  pub reads : digits 0 s ≡ some n

decimal_digits : (n : ℕ) → All (λ c. is_digit c ≡ true) (decimal n)
unfolding decimal
decimal_digits n = print_from-All (suc n) n [] tt

decimal_reads : (n : ℕ) → digits 0 (decimal n) ≡ some n
unfolding decimal digits
decimal_reads n = digits-print_from (suc n) n [] (omega arith)

decimal_two : (n : ℕ) → ltb n 10 ≡ false → 2 ≤ length (decimal n)
unfolding decimal
decimal_two n e =
    let big : 0 < n = ground arith in
    let one = print_from-longer n (n / 10) ((48 + n % 10) ∷ []) (omega arith) in
    let same : length (print_from (suc n) n [])
        ≡ length (print_from n (n / 10) ((48 + n % 10) ∷ [])) =
      ap length (print_more n n [] e) in
    omega (arith, one, same)

decimal_02-one : (n : ℕ) → ltb n 10 ≡ true → decimal_02 n ≡ 48 ∷ (48 + n) ∷ []
unfolding decimal_02 decimal
decimal_02-one n e = rw e refl

decimal_02-more : (n : ℕ) → ltb n 10 ≡ false → decimal_02 n ≡ decimal n
unfolding decimal_02
decimal_02-more n e = rw e refl

pub decimal_02-IsPrinted : (n : ℕ) → IsPrinted n (decimal_02 n)
unfolding digits
decimal_02-IsPrinted n = elim (Bool-cases (ltb n 10)) [
  | inl e ↦
      let digit = digit_is_digit n (small n e) in
      let value : (0 * 10 + (48 - 48)) * 10 + (48 + n - 48) ≡ n = omega arith in
      let one : IsPrinted n (48 ∷ (48 + n) ∷ []) = record {
        all_digits = (refl, (digit, tt));
        at_least_two = omega arith;
        reads = rw digit (ap some value);
      } in
      subst (IsPrinted n) (sym (decimal_02-one n e)) one
  | inr e ↦
      let more : IsPrinted n (decimal n) = record {
        all_digits = decimal_digits n;
        at_least_two = decimal_two n e;
        reads = decimal_reads n;
      } in
      subst (IsPrinted n) (sym (decimal_02-more n e)) more
]

pub decimal_02-length : (k n : ℕ) → 1 ≤ k → n < 10 ^ suc k → length (decimal_02 n) ≤ suc k
unfolding decimal
decimal_02-length k n h b = elim (Bool-cases (ltb n 10)) [
  | inl e ↦
      let one : length (decimal_02 n) ≡ 2 = ap length (decimal_02-one n e) in omega (arith, one)
  | inr e ↦
      let one = print_from-length k (suc n) n [] (omega arith) b in
      let same : length (decimal_02 n) ≡ length (decimal n) = ap length (decimal_02-more n e) in
      omega (arith, one, same)
]
