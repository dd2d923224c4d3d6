-- ===== src/Store/Tables/Purge.antt =====
-- What a purge removes from a bucket of JSON rows and what it leaves.
use iplayer_arr.Prelude.{
  ◌≡◌, refl, sym, ap, ◌∙◌, inl, inr, Bool, true, false, Option, none, some, List, [], ◌∷◌, Text,
  text_eq, text_eq_iff, text_eq_refl, member, In, Bool-cases, arith, if◌then◌else◌,
}
use iplayer_arr.Store.Bolt.{Bolt, ok, attempt, >>=-eq-ok, attempt-eq-ok, ok-injective}
use iplayer_arr.Store.Tables.{keys_such, delete_keys, purge, spared, put_row}

module _ {V : Type 0} where
  spared-kept :
      (p : V → Bool) (cell : Option (Option V))
      → ((v : V) → cell ≡ some (some v) → p v ≡ false)
      → spared p cell ≡ cell
  unfolding spared
  spared-kept p none h = refl
  spared-kept p (some none) h = refl
  spared-kept p (some (some v)) h = rw (h v refl) refl

  spared-dropped :
      (p : V → Bool) (cell : Option (Option V)) (v : V)
      → cell ≡ some (some v)
      → p v ≡ true
      → spared p cell ≡ none
  unfolding spared
  spared-dropped p cell v h e = rw (h, e) refl

module _ {B V : Type 0} (bolt : Bolt B (Option V)) where
  pub get-put_row :
      (k j : Text) (v : V) (b b' : B)
      → put_row bolt k v b ≡ ok b'
      → bolt.get b' j ≡ (if text_eq k j then some (some v) else bolt.get b j)
  unfolding put_row
  get-put_row k j v b b' h =
      bolt.get-put b k (some v) b' j (attempt-eq-ok (bolt.put b k (some v)) h)

  get-delete_keys :
      (ks : List Text) (j : Text) (b b' : B)
      → delete_keys bolt ks b ≡ ok b'
      → bolt.get b' j ≡ (if member ks j then none else bolt.get b j)
  unfolding delete_keys member
  get-delete_keys [] j b b' h = ap (λ c. bolt.get c j) (sym (ok-injective h))
  get-delete_keys (k ∷ ks) j b b' h =
      let (c, e, f) = >>=-eq-ok (attempt (bolt.delete b k)) (λ c. delete_keys bolt ks c) h in
      ground (
        arith,
        get-delete_keys ks j c b' f,
        bolt.get-delete b k c j (attempt-eq-ok (bolt.delete b k) e),
      )

  -- The collected keys are those of the rows that pass.
  member-keys_such :
      (p : V → Bool) (es : List (Text × Option V)) (j : Text)
      → member (keys_such p es) j ≡ true
      → (v : V) × In (j, some v) es × (p v ≡ true)
  unfolding keys_such member
  member-keys_such p ((k, some v) ∷ es) j h = elim (Bool-cases (p v)) [
    | inl pv ↦ elim (Bool-cases (text_eq k j)) [
      | inl same ↦ (v, inl (ap (λ (i : Text). (i, some v)) (sym ((text_eq_iff k j).0 same))), pv)
      | inr other ↦ let (w, i, e) = member-keys_such p es j (rw (pv, other) at h) in (w, inr i, e)
    ]
    | inr pv ↦ let (w, i, e) = member-keys_such p es j (rw pv at h) in (w, inr i, e)
  ]
  member-keys_such p ((k, none) ∷ es) j h =
      let (w, i, e) = member-keys_such p es j h in (w, inr i, e)
  member-keys_such p [] j h = absurd (cc h)

  member-keys_such_inv :
      (p : V → Bool) (es : List (Text × Option V)) (j : Text) (v : V)
      → In (j, some v) es
      → p v ≡ true
      → member (keys_such p es) j ≡ true
  unfolding keys_such member
  member-keys_such_inv p ((k, some w) ∷ es) j v (inl i) e =
      let keys : j ≡ k = ap (λ (c : Text × Option V). c.0) i in
      let values : v ≡ w = cc in rw (keys, sym values, e, text_eq_refl k) refl
  member-keys_such_inv p ((k, some w) ∷ es) j v (inr i) e =
      ground (arith, member-keys_such_inv p es j v i e)
  member-keys_such_inv p ((k, none) ∷ es) j v (inr i) e = member-keys_such_inv p es j v i e
  member-keys_such_inv p ((k, none) ∷ es) j v (inl i) e = absurd (cc i)
  member-keys_such_inv p [] j v i e = absurd i

  unselected :
      (p : V → Bool) (es : List (Text × Option V)) (j : Text) (v : V)
      → In (j, some v) es
      → member (keys_such p es) j ≡ false
      → p v ≡ false
  unselected p es j v i m = elim (Bool-cases (p v)) [
    | inl e ↦ absurd (cc (member-keys_such_inv p es j v i e))
    | inr e ↦ e
  ]

  pub get-purge :
      (p : V → Bool) (b b' : B) (j : Text)
      → purge bolt p b ≡ ok b'
      → bolt.get b' j ≡ spared p (bolt.get b j)
  unfolding purge
  get-purge p b b' j h =
      let ks = keys_such p (bolt.entries b) in
      let after = get-delete_keys ks j b b' h in
      elim (Bool-cases (member ks j)) [
        | inl m ↦
            let (v, i, e) = member-keys_such p (bolt.entries b) j m in
            let held = (bolt.entries-get b j (some v)).0 i in
            let gone : bolt.get b' j ≡ none = rw m at (after) in
            let none_left : spared p (bolt.get b j) ≡ none =
              spared-dropped p (bolt.get b j) v held e in
            gone ∙ sym none_left
        | inr m ↦
            let same : bolt.get b' j ≡ bolt.get b j = rw m at (after) in
            let fails = λ (v : V) (held : bolt.get b j ≡ some (some v)).
              unselected p (bolt.entries b) j v ((bolt.entries-get b j (some v)).1 held) m in
            same ∙ sym (spared-kept p (bolt.get b j) fails)
      ]
