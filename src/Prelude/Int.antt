-- ===== src/Prelude/Int.antt =====
-- Signed numbers, as far as the program computes with them: strconv.Atoi and comparisons.
use iplayer_arr.Prelude.{
  ℕ, zero, suc, ◌+◌, ◌-◌, ◌*◌, ◌^◌, Bool, true, false, Option, none, some, [], ◌∷◌, Text, leb, ltb,
  ◌==◌, digits, is_empty, if◌then◌else◌,
}

-- `negsuc n` is -(n + 1).
pub data ℤ : Type 0 where
  pos : ℕ → ℤ
  negsuc : ℕ → ℤ

abbrev pub negated : ℕ → ℤ
negated n = elim n [ zero ↦ pos 0 | suc m ↦ negsuc m ]

-- The digits behind a sign, within the range of int64.
abbrev bounded : Bool → Option ℕ → Option ℤ
bounded minus none = none
bounded true (some n) = if ltb (2 ^ 63) n then none else some (negated n)
bounded false (some n) = if ltb (2 ^ 63 - 1) n then none else some (pos n)

abbrev unsigned : Bool → Text → Option ℤ
unsigned minus s = if is_empty s then none else bounded minus (digits 0 s)

-- strconv.Atoi on a 64-bit machine; `none` is its error.
unfoldable pub atoi : Text → Option ℤ
unfolding digits
atoi [] = none
atoi (c ∷ s) =
    if c == b'-'
    then unsigned true s
    else if c == b'+'
    then unsigned false s
    else unsigned false (c ∷ s)

-- x >= n
abbrev pub at_least : ℤ → ℕ → Bool
at_least (pos x) n = leb n x
at_least (negsuc x) n = false

-- abs(n - x)
abbrev pub distance : ℕ → ℤ → ℕ
distance n (pos x) = if leb x n then n - x else x - n
distance n (negsuc x) = n + suc x

infixl 60 ◌+ℤ◌
abbrev pub ◌+ℤ◌ : ℤ → ℤ → ℤ
pos m +ℤ pos n = pos (m + n)
negsuc m +ℤ negsuc n = negsuc (suc (m + n))
pos m +ℤ negsuc n = if ltb n m then pos (m - suc n) else negated (suc n - m)
negsuc m +ℤ pos n = if ltb m n then pos (n - suc m) else negated (suc m - n)

-- x * 100
abbrev pub hundredfold : ℤ → ℤ
hundredfold (pos m) = pos (m * 100)
hundredfold (negsuc m) = negated (suc m * 100)

-- x == 0
abbrev pub is_zero : ℤ → Bool
is_zero (pos m) = m == 0
is_zero (negsuc m) = false
