-- ===== src/Prelude/Strings.antt =====
-- Go strings as lists of bytes, with the comparisons and searches of the language and of package
-- strings that the program makes.
use Prim.Native.Nat.{ℕ, ◌+◌, ◌-◌, ◌*◌, compare, Ordering}
use Prim.Native.Char.{code}
use Prim.Native.String.{String}
use mathlib.Core.Path.{◌≡◌, refl, ap}
use mathlib.Core.Logic.{◌↔◌, inl, inr}
use mathlib.Core.Bool.{Bool, true, false, ◌&&◌, ◌||◌}
use mathlib.Core.List.{List, [], ◌∷◌}
use mathlib.Core.Option.{Option, none, some}
use native.Mathlib.Omega.{arith}
use iplayer_arr.Prelude.Tests.{◌==◌, leb, if◌then◌else◌, Bool-cases}
use iplayer_arr.Prelude.Order.{and_then, is_eq, is_lt, IsOrder}

abbrev pub Text : Type 0
Text = List ℕ

-- The bytes of a literal, which is ASCII wherever the development writes one.
abbrev pub codes : String → Text
codes String.[] = []
codes (String.◌∷◌ c s) = code c ∷ codes s

-- Go compares strings byte by byte.
unfoldable pub text_cmp : Text → Text → Ordering
text_cmp [] [] = Ordering.eq
text_cmp [] (b ∷ t) = Ordering.lt
text_cmp (a ∷ s) [] = Ordering.gt
text_cmp (a ∷ s) (b ∷ t) = and_then (compare a b) (text_cmp s t)

abbrev pub text_eq : Text → Text → Bool
text_eq s t = is_eq (text_cmp s t)

abbrev pub text_lt : Text → Text → Bool
text_lt s t = is_lt (text_cmp s t)

abbrev pub is_empty : Text → Bool
is_empty [] = true
is_empty (c ∷ s) = false

cmp_refl : (s : Text) → text_cmp s s ≡ Ordering.eq
unfolding text_cmp
cmp_refl [] = refl
cmp_refl (a ∷ s) = ground (arith, cmp_refl s)

pub text_path : (s t : Text) → text_cmp s t ≡ Ordering.eq → s ≡ t
unfolding text_cmp
text_path [] [] h = refl
text_path [] (b ∷ t) h = ground arith
text_path (a ∷ s) [] h = ground arith
text_path (a ∷ s) (b ∷ t) h = ground (arith, text_path s t)

lt_of_gt : (s t : Text) → text_cmp s t ≡ Ordering.gt → text_cmp t s ≡ Ordering.lt
unfolding text_cmp
lt_of_gt [] [] h = ground arith
lt_of_gt [] (b ∷ t) h = ground arith
lt_of_gt (a ∷ s) [] h = refl
lt_of_gt (a ∷ s) (b ∷ t) h = ground (arith, lt_of_gt s t)

gt_of_lt : (s t : Text) → text_cmp s t ≡ Ordering.lt → text_cmp t s ≡ Ordering.gt
unfolding text_cmp
gt_of_lt [] [] h = ground arith
gt_of_lt [] (b ∷ t) h = refl
gt_of_lt (a ∷ s) [] h = ground arith
gt_of_lt (a ∷ s) (b ∷ t) h = ground (arith, gt_of_lt s t)

lt_trans :
    (s t u : Text)
    → text_cmp s t ≡ Ordering.lt
    → text_cmp t u ≡ Ordering.lt
    → text_cmp s u ≡ Ordering.lt
unfolding text_cmp
lt_trans [] [] u h k = ground arith
lt_trans [] (b ∷ t) [] h k = ground arith
lt_trans [] (b ∷ t) (c ∷ u) h k = refl
lt_trans (a ∷ s) [] u h k = ground arith
lt_trans (a ∷ s) (b ∷ t) [] h k = ground arith
lt_trans (a ∷ s) (b ∷ t) (c ∷ u) h k = ground (arith, lt_trans s t u)

pub text_cmp-IsOrder : IsOrder text_cmp
text_cmp-IsOrder = record {
  cmp_refl = cmp_refl;
  lt_of_gt = lt_of_gt;
  gt_of_lt = gt_of_lt;
  lt_trans = lt_trans;
  eq_left = λ s t u h. ap (λ v. text_cmp v u) (text_path s t h);
}

pub text_eq_iff : (s t : Text) → (text_eq s t ≡ true) ↔ (s ≡ t)
text_eq_iff s t = (λ h. text_path s t (ground arith), λ e. rw e (ground (arith, cmp_refl t)))

pub text_eq_refl : (s : Text) → text_eq s s ≡ true
text_eq_refl s = (text_eq_iff s s).1 refl

pub text_eq-false : (s t : Text) → (s ≡ t → ⊥) → text_eq s t ≡ false
text_eq-false s t h = elim (Bool-cases (text_eq s t)) [
  | inl e ↦ absurd (h ((text_eq_iff s t).0 e))
  | inr e ↦ e
]

-- strings.HasPrefix
unfoldable pub has_prefix : Text → Text → Bool
has_prefix s [] = true
has_prefix [] (c ∷ p) = false
has_prefix (a ∷ s) (c ∷ p) = (a == c) && has_prefix s p

-- strings.Contains
unfoldable pub contains : Text → Text → Bool
unfolding has_prefix
contains [] p = has_prefix [] p
contains (a ∷ s) p = has_prefix (a ∷ s) p || contains s p

-- slices.Contains on a []string
unfoldable pub member : List Text → Text → Bool
member [] s = false
member (t ∷ ts) s = text_eq t s || member ts s

-- strings.TrimSuffix
unfoldable pub trim_suffix : Text → Text → Text
trim_suffix [] p = []
trim_suffix (a ∷ s) p = let rest = a ∷ trim_suffix s p in if text_eq (a ∷ s) p then [] else rest

-- strings.ToLower on ASCII letters; the bytes of other characters are kept.
unfoldable pub lower : ℕ → ℕ
lower c = if leb b'A' c && leb c b'Z' then c + 32 else c

unfoldable pub to_lower : Text → Text
unfolding lower
to_lower [] = []
to_lower (c ∷ s) = lower c ∷ to_lower s

abbrev pub is_digit : ℕ → Bool
is_digit c = leb b'0' c && leb c b'9'

-- The number that decimal digits spell behind `n`; `none` at any other byte.
unfoldable pub digits : ℕ → Text → Option ℕ
digits n [] = some n
digits n (c ∷ s) = let rest = digits (n * 10 + (c - b'0')) s in if is_digit c then rest else none
