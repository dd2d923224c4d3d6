-- ===== src/Prelude/Sort.antt =====
-- sort.Slice and sort.SliceStable, as an insertion sort: on a comparison that separates all the
-- elements every sorting algorithm returns the same list (`sorted_unique`), and on any other the
-- insertion sort is the stable one.
use mathlib.Core.Path.{◌≡◌, refl, sym, ap₂, subst}
use mathlib.Core.Logic.{◌⊎◌, inl, inr}
use mathlib.Core.Bool.{Bool, true, false}
use mathlib.Core.List.{List, [], ◌∷◌}
use native.Mathlib.Omega.{arith}
use iplayer_arr.Prelude.Tests.{Bool-cases}
use iplayer_arr.Prelude.Lists.{In}

module _ {ℓ} {A : Type ℓ} (less : A → A → Bool) where
  -- `x` goes before the first element that is not less than it.
  unfoldable pub insert : A → List A → List A
  insert x [] = x ∷ []
  insert x (y ∷ ys) = elim (less y x) [ true ↦ y ∷ insert x ys | false ↦ x ∷ y ∷ ys ]

  unfoldable pub sort : List A → List A
  unfolding insert
  sort [] = []
  sort (x ∷ xs) = insert x (sort xs)

module _ {A : Type 0} where
  -- Every element is less than all the later ones.
  abbrev pub IsSorted : (A → A → Bool) → List A → Type 0
  IsSorted less [] = Unit
  IsSorted less (x ∷ xs) = ((a : A) → In a xs → less x a ≡ true) × IsSorted less xs

  abbrev pub SameMembers : List A → List A → Type 0
  SameMembers xs ys = ((a : A) → In a xs → In a ys) × ((a : A) → In a ys → In a xs)

module _ {A : Type 0} (less : A → A → Bool) where
  In-insert : (x a : A) (l : List A) → In a (insert less x l) → In a (x ∷ l)
  unfolding insert
  In-insert x a [] h = h
  In-insert x a (y ∷ ys) h = ground (arith, In-insert x a ys)

  In-insert_inv : (x a : A) (l : List A) → In a (x ∷ l) → In a (insert less x l)
  unfolding insert
  In-insert_inv x a [] h = h
  In-insert_inv x a (y ∷ ys) h = ground (arith, In-insert_inv x a ys)

  pub sort-SameMembers : (l : List A) → SameMembers (sort less l) l
  unfolding sort
  sort-SameMembers [] = (λ a h. h, λ a h. h)
  sort-SameMembers (x ∷ xs) = (
    λ a h. elim (In-insert x a (sort less xs) h) [
      | inl e ↦ inl e
      | inr r ↦ inr ((sort-SameMembers xs).0 a r)
    ],
    λ a h.
        In-insert_inv x a (sort less xs)
          (elim h [ inl e ↦ inl e | inr r ↦ inr ((sort-SameMembers xs).1 a r) ]),
  )

  -- Any two elements at different places are ordered one way or the other.
  abbrev pub IsSeparated : List A → Type 0
  IsSeparated [] = Unit
  IsSeparated (x ∷ xs) =
      ((a : A) → In a xs → (less x a ≡ true) ⊎ (less a x ≡ true)) × IsSeparated xs

  module _ (trans : (a b c : A) → less a b ≡ true → less b c ≡ true → less a c ≡ true) where
    insert-IsSorted :
        (x : A) (l : List A)
        → ((a : A) → In a l → (less x a ≡ true) ⊎ (less a x ≡ true))
        → IsSorted less l
        → IsSorted less (insert less x l)
    unfolding insert
    insert-IsSorted x [] sep h = ((λ a m. absurd m), tt)
    insert-IsSorted x (y ∷ ys) sep (first, rest) = elim (Bool-cases (less y x)) [
      | inl e ↦
          rw (e, insert)
            (
              (λ a m. elim (In-insert x a ys m) [ inl p ↦ rw p e | inr q ↦ first a q ]),
              insert-IsSorted x ys (λ a m. sep a (inr m)) rest,
            )
      | inr e ↦
          let x_lt_y : less x y ≡ true = ground (arith, sep y (inl refl)) in
          rw (e, insert)
            (
              (λ a m. elim m [ inl p ↦ rw p x_lt_y | inr q ↦ trans x y a x_lt_y (first a q) ]),
              (first, rest),
            )
    ]

    pub sort-IsSorted : (l : List A) → IsSeparated l → IsSorted less (sort less l)
    unfolding sort
    sort-IsSorted [] h = tt
    sort-IsSorted (x ∷ xs) (sep, rest) =
        insert-IsSorted x (sort less xs) (λ a m. sep a ((sort-SameMembers xs).0 a m))
          (sort-IsSorted xs rest)

    module _ (irrefl : (a : A) → less a a ≡ false) where
      head_eq :
          (x y : A) (xs ys : List A)
          → IsSorted less (x ∷ xs)
          → IsSorted less (y ∷ ys)
          → SameMembers (x ∷ xs) (y ∷ ys)
          → x ≡ y
      head_eq x y xs ys h k (there, back) = elim (there x (inl refl)) [
        | inl p ↦ p
        | inr m ↦ elim (back y (inl refl)) [
          | inl p ↦ sym p
          | inr n ↦ ground (arith, trans x y x (h.0 y n) (k.0 x m), irrefl x)
        ]
      ]

      tail-In :
          (x : A) (xs ys : List A)
          → IsSorted less (x ∷ xs)
          → ((a : A) → In a (x ∷ xs) → In a (x ∷ ys))
          → (a : A) → In a xs
          → In a ys
      tail-In x xs ys h there a m = elim (there a (inr m)) [
        | inl p ↦ ground (arith, irrefl x, subst (λ b. less x b ≡ true) p (h.0 a m))
        | inr n ↦ n
      ]

      -- A list sorted by an irreflexive, transitive order is determined by its members.
      pub sorted_unique :
          (xs ys : List A) → IsSorted less xs → IsSorted less ys → SameMembers xs ys → xs ≡ ys
      sorted_unique [] [] h k m = refl
      sorted_unique [] (y ∷ ys) h k m = absurd (m.1 y (inl refl))
      sorted_unique (x ∷ xs) [] h k m = absurd (m.0 x (inl refl))
      sorted_unique (x ∷ xs) (y ∷ ys) h k m =
          let e : x ≡ y = head_eq x y xs ys h k m in
          let k' : IsSorted less (x ∷ ys) = rw e k in
          let there : (a : A) → In a (x ∷ xs) → In a (x ∷ ys) = rw e (rw e at m.0) in
          let back : (a : A) → In a (x ∷ ys) → In a (x ∷ xs) = rw e (rw e at m.1) in
          let tails : xs ≡ ys =
            sorted_unique xs ys h.1 k.1 (tail-In x xs ys h there, tail-In x ys xs k' back) in
          ap₂ (◌∷◌) e tails
