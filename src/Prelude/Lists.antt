-- ===== src/Prelude/Lists.antt =====
-- Lists measured and indexed by native numbers, and membership that can be taken apart.
use Prim.Native.Nat.{ℕ, zero, suc, ◌+◌}
use mathlib.Core.Path.{◌≡◌, sym, subst}
use mathlib.Core.Logic.{◌⊎◌, inl, inr}
use mathlib.Core.Bool.{Bool, true, false}
use mathlib.Core.List.{List, [], ◌∷◌, ◌++◌}
use mathlib.Core.Option.{Option, none, some}
use native.Mathlib.Omega.{arith}

module _ {ℓ} {A : Type ℓ} where
  abbrev pub length : List A → ℕ
  length [] = 0
  length (x ∷ xs) = suc (length xs)

  abbrev pub get_elem? : List A → ℕ → Option A
  get_elem? [] i = none
  get_elem? (x ∷ xs) zero = some x
  get_elem? (x ∷ xs) (suc i) = get_elem? xs i

  abbrev pub take : ℕ → List A → List A
  take zero xs = []
  take (suc n) [] = []
  take (suc n) (x ∷ xs) = x ∷ take n xs

  abbrev pub drop : ℕ → List A → List A
  drop zero xs = xs
  drop (suc n) [] = []
  drop (suc n) (x ∷ xs) = drop n xs

  -- `if keep(x) { out = append(out, x) }` in a loop
  abbrev pub keep : (A → Bool) → List A → List A
  keep p [] = []
  keep p (x ∷ xs) = elim (p x) [ true ↦ x ∷ keep p xs | false ↦ keep p xs ]

  pub length-append : (xs ys : List A) → length (xs ++ ys) ≡ length xs + length ys
  length-append [] ys = omega arith
  length-append (x ∷ xs) ys = omega (arith, length-append xs ys)

module _ {ℓ} {A : Type ℓ} where
  -- What has been read of a list, read backwards, with the rest before it.
  abbrev pub onto : List A → List A → List A
  onto [] seen = seen
  onto (x ∷ xs) seen = onto xs (x ∷ seen)

module _ {ℓ κ} {A : Type ℓ} where
  abbrev pub All : (A → Type κ) → List A → Type κ
  All P [] = Unit
  All P (x ∷ xs) = P x × All P xs

module _ {A : Type 0} where
  -- Membership with its place: `In a l` is a disjunction over the elements.
  abbrev pub In : A → List A → Type 0
  In a [] = ⊥
  In a (x ∷ xs) = (a ≡ x) ⊎ In a xs

  In-append : (a : A) (xs ys : List A) → In a (xs ++ ys) → In a xs ⊎ In a ys
  In-append a [] ys h = inr h
  In-append a (x ∷ xs) ys (inl e) = inl (inl e)
  In-append a (x ∷ xs) ys (inr h) = elim (In-append a xs ys h) [
    | inl p ↦ inl (inr p)
    | inr q ↦ inr q
  ]

  In-append_left : (a : A) (xs ys : List A) → In a xs → In a (xs ++ ys)
  In-append_left a (x ∷ xs) ys (inl e) = inl e
  In-append_left a (x ∷ xs) ys (inr h) = inr (In-append_left a xs ys h)
  In-append_left a [] ys h = absurd h

  In-append_right : (a : A) (xs ys : List A) → In a ys → In a (xs ++ ys)
  In-append_right a [] ys h = h
  In-append_right a (x ∷ xs) ys h = inr (In-append_right a xs ys h)

  pub In-keep : (p : A → Bool) (a : A) (l : List A) → In a (keep p l) → In a l × (p a ≡ true)
  In-keep p a (x ∷ xs) h = ground (arith, In-keep p a xs)
  In-keep p a [] h = absurd h

  pub In-keep_inv : (p : A → Bool) (a : A) (l : List A) → In a l → p a ≡ true → In a (keep p l)
  In-keep_inv p a (x ∷ xs) h e = ground (arith, In-keep_inv p a xs)
  In-keep_inv p a [] h e = absurd h

  pub All-lookup {κ} : (P : A → Type κ) (l : List A) → All P l → (a : A) → In a l → P a
  All-lookup P (x ∷ xs) (p, ps) a (inl e) = subst P (sym e) p
  All-lookup P (x ∷ xs) (p, ps) a (inr h) = All-lookup P xs ps a h
  All-lookup P [] ps a h = absurd h

  pub onto-In : (u : A) (xs seen : List A) → In u xs ⊎ In u seen → In u (onto xs seen)
  onto-In u [] seen (inr i) = i
  onto-In u (x ∷ xs) seen (inl (inl e)) = onto-In u xs (x ∷ seen) (inr (inl e))
  onto-In u (x ∷ xs) seen (inl (inr i)) = onto-In u xs (x ∷ seen) (inl i)
  onto-In u (x ∷ xs) seen (inr i) = onto-In u xs (x ∷ seen) (inr (inr i))
  onto-In u [] seen (inl i) = absurd i

  pub onto-In_inv : (u : A) (xs seen : List A) → In u (onto xs seen) → In u xs ⊎ In u seen
  onto-In_inv u [] seen i = inr i
  onto-In_inv u (x ∷ xs) seen i = elim (onto-In_inv u xs (x ∷ seen) i) [
    | inl j ↦ inl (inr j)
    | inr (inl e) ↦ inl (inl e)
    | inr (inr j) ↦ inr j
  ]
