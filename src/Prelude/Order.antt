-- ===== src/Prelude/Order.antt =====
-- Three-way comparisons, their laws, and how they combine by several keys.
use Prim.Native.Nat.{compare, Ordering}
use mathlib.Core.Path.{◌≡◌, refl}
use mathlib.Core.Bool.{Bool, true, false}
use mathlib.Core.Logic.{◌⊎◌, inl, inr}
use native.Mathlib.Omega.{arith}

-- The second comparison decides where the first finds no difference.
abbrev pub and_then : Ordering → Ordering → Ordering
and_then Ordering.lt r = Ordering.lt
and_then Ordering.eq r = r
and_then Ordering.gt r = Ordering.gt

abbrev pub is_eq : Ordering → Bool
is_eq Ordering.lt = false
is_eq Ordering.eq = true
is_eq Ordering.gt = false

abbrev pub is_lt : Ordering → Bool
is_lt Ordering.lt = true
is_lt Ordering.eq = false
is_lt Ordering.gt = false

pub record IsOrder {ℓ} {A : Type ℓ} (cmp : A → A → Ordering) : Type ℓ where
  pub cmp_refl : (a : A) → cmp a a ≡ Ordering.eq
  pub lt_of_gt : (a b : A) → cmp a b ≡ Ordering.gt → cmp b a ≡ Ordering.lt
  pub gt_of_lt : (a b : A) → cmp a b ≡ Ordering.lt → cmp b a ≡ Ordering.gt
  pub lt_trans : (a b c : A) → cmp a b ≡ Ordering.lt → cmp b c ≡ Ordering.lt → cmp a c ≡ Ordering.lt
  pub eq_left : (a b c : A) → cmp a b ≡ Ordering.eq → cmp a c ≡ cmp b c

pub compare-IsOrder : IsOrder compare
compare-IsOrder = ground arith

module _ {ℓ} {A : Type ℓ} {cmp : A → A → Ordering} (o : IsOrder cmp) where
  pub eq_symm : (a b : A) → cmp a b ≡ Ordering.eq → cmp b a ≡ Ordering.eq
  eq_symm a b h = ground (arith, o.eq_left a b a h, o.cmp_refl a)

  eq_right : (a b c : A) → cmp b c ≡ Ordering.eq → cmp a b ≡ cmp a c
  eq_right a b c h = ground (
    arith,
    o.eq_left b c a h,
    eq_symm a b,
    eq_symm b a,
    eq_symm a c,
    eq_symm c a,
    o.lt_of_gt a b,
    o.gt_of_lt a b,
    o.lt_of_gt b a,
    o.gt_of_lt b a,
    o.lt_of_gt a c,
    o.gt_of_lt a c,
    o.lt_of_gt c a,
    o.gt_of_lt c a,
  )

-- Comparing by a key.
abbrev pub by_key {ℓ κ} :
    {A : Type ℓ} {K : Type κ} → (A → K) → (K → K → Ordering) → A → A → Ordering
by_key key cmp a b = cmp (key a) (key b)

-- The larger value first.
abbrev pub descending {ℓ} : {A : Type ℓ} → (A → A → Ordering) → A → A → Ordering
descending cmp a b = cmp b a

-- Comparing by two comparisons, the first being the more significant.
abbrev pub lex {ℓ} : {A : Type ℓ} → (A → A → Ordering) → (A → A → Ordering) → A → A → Ordering
lex first second a b = and_then (first a b) (second a b)

pub by_key-IsOrder {ℓ κ} :
    {A : Type ℓ} {K : Type κ} (key : A → K) {cmp : K → K → Ordering}
    → IsOrder cmp
    → IsOrder (by_key key cmp)
by_key-IsOrder key o = record {
  cmp_refl = λ a. o.cmp_refl (key a);
  lt_of_gt = λ a b. o.lt_of_gt (key a) (key b);
  gt_of_lt = λ a b. o.gt_of_lt (key a) (key b);
  lt_trans = λ a b c. o.lt_trans (key a) (key b) (key c);
  eq_left = λ a b c. o.eq_left (key a) (key b) (key c);
}

pub descending-IsOrder {ℓ} :
    {A : Type ℓ} {cmp : A → A → Ordering} → IsOrder cmp → IsOrder (descending cmp)
descending-IsOrder o = record {
  cmp_refl = o.cmp_refl;
  lt_of_gt = λ a b. o.lt_of_gt b a;
  gt_of_lt = λ a b. o.gt_of_lt b a;
  lt_trans = λ a b c h k. o.lt_trans c b a k h;
  eq_left = λ a b c h. eq_right o c a b (eq_symm o b a h);
}

pub lex-IsOrder {ℓ} :
    {A : Type ℓ} {first second : A → A → Ordering}
    → IsOrder first
    → IsOrder second
    → IsOrder (lex first second)
lex-IsOrder o p = record {
  cmp_refl = λ a. ground (arith, o.cmp_refl a, p.cmp_refl a);
  lt_of_gt = λ a b h. ground (arith, o.lt_of_gt a b, eq_symm o a b, p.lt_of_gt a b);
  gt_of_lt = λ a b h. ground (arith, o.gt_of_lt a b, eq_symm o a b, p.gt_of_lt a b);
  lt_trans = λ a b c h k.
      ground (arith, o.lt_trans a b c, o.eq_left a b c, eq_right o a b c, p.lt_trans a b c);
  eq_left = λ a b c h. ground (arith, o.eq_left a b c, p.eq_left a b c);
}

pub Ordering-cases : (o : Ordering) → (o ≡ Ordering.eq) ⊎ ((o ≡ Ordering.lt) ⊎ (o ≡ Ordering.gt))
Ordering-cases Ordering.lt = inr (inl refl)
Ordering-cases Ordering.eq = inl refl
Ordering-cases Ordering.gt = inr (inr refl)
