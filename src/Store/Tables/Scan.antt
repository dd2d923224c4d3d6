-- ===== src/Store/Tables/Scan.antt =====
-- What a scan of a bucket finds: none of its rows, one, or several under different keys.
use iplayer_arr.Prelude.{
  ◌≡◌, ◌≢◌, refl, sym, ap, ◌∙◌, ◌⊎◌, inl, inr, Bool, true, false, Option, none, some, List, [], ◌∷◌,
  Text, text_lt, text_cmp-IsOrder, In, Bool-cases, arith,
}
use iplayer_arr.Prelude.Sort.{IsSorted}
use iplayer_arr.Store.Tables.{rows_such}

not_before : (i k : Text) → text_lt i k ≡ true → i ≡ k → ⊥
not_before i k h e =
    ground (arith, h, text_cmp-IsOrder.cmp_refl k, ap (λ (t : Text). text_lt t k) e)

module _ {V : Type 0} (p : V → Bool) where
  abbrev key_before : Text × Option V → Text × Option V → Bool
  key_before a b = text_lt a.0 b.0

  -- A row that passes, under its key.
  abbrev pub Hit : List (Text × Option V) → Text → V → Type 0
  Hit es k v = In (k, some v) es × (p v ≡ true)

  weaken :
      (e : Text × Option V) (es : List (Text × Option V)) (k : Text) (v : V)
      → Hit es k v
      → Hit (e ∷ es) k v
  weaken e es k v (i, t) = (inr i, t)

  rows_such-hit :
      (j : Text) (w : V) (es : List (Text × Option V))
      → p w ≡ true
      → rows_such p ((j, some w) ∷ es) ≡ w ∷ rows_such p es
  unfolding rows_such
  rows_such-hit j w es e = rw e refl

  rows_such-miss :
      (j : Text) (w : V) (es : List (Text × Option V))
      → p w ≡ false
      → rows_such p ((j, some w) ∷ es) ≡ rows_such p es
  unfolding rows_such
  rows_such-miss j w es e = rw e refl

  -- A hit is the first row or lies behind it.
  Hit-cases :
      (j k : Text) (v w : V) (es : List (Text × Option V))
      → Hit ((j, some w) ∷ es) k v
      → ((k ≡ j) × (p w ≡ true)) ⊎ Hit es k v
  Hit-cases j k v w es (inl e, t) =
      let same : v ≡ w = cc in inl (ap (λ (c : Text × Option V). c.0) e, ap p (sym same) ∙ t)
  Hit-cases j k v w es (inr i, t) = inr (i, t)

  Hit-behind :
      (j k : Text) (v : V) (es : List (Text × Option V)) → Hit ((j, none) ∷ es) k v → Hit es k v
  Hit-behind j k v es (inl e, t) = absurd (cc e)
  Hit-behind j k v es (inr i, t) = (i, t)

  pub no_rows :
      (es : List (Text × Option V)) (k : Text) (v : V) → rows_such p es ≡ [] → Hit es k v → ⊥
  unfolding rows_such
  no_rows ((j, some w) ∷ es) k v h hit = elim (Bool-cases (p w)) [
    | inl e ↦ cc (h, rows_such-hit j w es e)
    | inr e ↦ elim (Hit-cases j k v w es hit) [
      | inl (same, t) ↦ cc (e, t)
      | inr behind ↦ no_rows es k v (sym (rows_such-miss j w es e) ∙ h) behind
    ]
  ]
  no_rows ((j, none) ∷ es) k v h hit = no_rows es k v h (Hit-behind j k v es hit)
  no_rows [] k v h (i, t) = i

  pub found_row :
      (es : List (Text × Option V)) (v : V) (vs : List V)
      → rows_such p es ≡ v ∷ vs
      → (k : Text) × Hit es k v
  unfolding rows_such
  found_row ((j, some w) ∷ es) v vs h = elim (Bool-cases (p w)) [
    | inl e ↦
        let same : v ≡ w = cc (h, rows_such-hit j w es e) in
        (j, (inl (ap (λ (x : V). (j, some x)) same), ap p same ∙ e))
    | inr e ↦
        let (k, hit) = found_row es v vs (sym (rows_such-miss j w es e) ∙ h) in
        (k, weaken (j, some w) es k v hit)
  ]
  found_row ((j, none) ∷ es) v vs h =
      let (k, hit) = found_row es v vs h in (k, weaken (j, none) es k v hit)
  found_row [] v vs h = absurd (cc h)

  -- One row is found: the rows that pass lie under one key.
  pub found_one :
      (es : List (Text × Option V)) (u v w : V) (j k : Text)
      → rows_such p es ≡ u ∷ []
      → Hit es j v
      → Hit es k w
      → k ≡ j
  unfolding rows_such
  found_one ((i, some x) ∷ es) u v w j k h hit other = elim (Bool-cases (p x)) [
    | inl e ↦
        let none_behind : rows_such p es ≡ [] = cc (h, rows_such-hit i x es e) in
        elim (Hit-cases i j v x es hit) [
          | inl (same, t) ↦ elim (Hit-cases i k w x es other) [
            | inl (same_too, t') ↦ same_too ∙ sym same
            | inr behind ↦ absurd (no_rows es k w none_behind behind)
          ]
          | inr behind ↦ absurd (no_rows es j v none_behind behind)
        ]
    | inr e ↦ elim (Hit-cases i j v x es hit) [
      | inl (same, t) ↦ absurd (cc (e, t))
      | inr behind ↦ elim (Hit-cases i k w x es other) [
        | inl (same, t) ↦ absurd (cc (e, t))
        | inr behind_too ↦
            found_one es u v w j k (sym (rows_such-miss i x es e) ∙ h) behind behind_too
      ]
    ]
  ]
  found_one ((i, none) ∷ es) u v w j k h hit other =
      found_one es u v w j k h (Hit-behind i j v es hit) (Hit-behind i k w es other)
  found_one [] u v w j k h (i, t) other = absurd i

  -- Several rows are found: two of them lie under different keys.
  pub found_several :
      (es : List (Text × Option V)) (v w : V) (vs : List V)
      → IsSorted key_before es
      → rows_such p es ≡ v ∷ w ∷ vs
      → (j : Text) × (k : Text) × Hit es j v × Hit es k w × (j ≢ k)
  unfolding rows_such
  found_several ((i, some x) ∷ es) v w vs (first, s) h = elim (Bool-cases (p x)) [
    | inl e ↦
        let same : v ≡ x = cc (h, rows_such-hit i x es e) in
        let behind : rows_such p es ≡ w ∷ vs = cc (h, rows_such-hit i x es e) in
        let (k, hit) = found_row es w vs behind in
        (
          i,
          k,
          (inl (ap (λ (y : V). (i, some y)) same), ap p same ∙ e),
          weaken (i, some x) es k w hit,
          λ d. not_before i k (first (k, some w) hit.0) d,
        )
    | inr e ↦
        let (j, k, hit, other, apart) =
          found_several es v w vs s (sym (rows_such-miss i x es e) ∙ h) in
        (j, k, weaken (i, some x) es j v hit, weaken (i, some x) es k w other, apart)
  ]
  found_several ((i, none) ∷ es) v w vs (first, s) h =
      let (j, k, hit, other, apart) = found_several es v w vs s h in
      (j, k, weaken (i, none) es j v hit, weaken (i, none) es k w other, apart)
  found_several [] v w vs s h = absurd (cc h)
