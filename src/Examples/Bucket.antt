-- ===== src/Examples/Bucket.antt =====
-- A bucket that behaves as bbolt documents it, for the examples: a list sorted by its keys. Its
-- operations never fail.
use Prim.Native.Nat.{Ordering}
use iplayer_arr.Prelude.{
  ◌≡◌, ◌⊎◌, inl, inr, refl, sym, ap, ◌∙◌, subst, Bool, true, not, Option, none, some, List, [], ◌∷◌,
  Text, text_cmp, text_eq, text_lt, text_eq_iff, text_cmp-IsOrder, text_path, In, In-keep, keep,
  Bool-cases, arith, if◌then◌else◌,
}
use iplayer_arr.Prelude.Order.{eq_symm, Ordering-cases, is_lt}
use iplayer_arr.Prelude.Sort.{IsSorted}
use iplayer_arr.Store.Bolt.{Bolt}

module _ {V : Type 0} where
  abbrev lookup : Text → List (Text × V) → Option V
  lookup k [] = none
  lookup k ((j, w) ∷ l) = if text_eq j k then some w else lookup k l

  abbrev store : Text → V → List (Text × V) → List (Text × V)
  store k v [] = (k, v) ∷ []
  store k v ((j, w) ∷ l) = elim (text_cmp k j) [
    | Ordering.lt ↦ (k, v) ∷ (j, w) ∷ l
    | Ordering.eq ↦ (k, v) ∷ l
    | Ordering.gt ↦ (j, w) ∷ store k v l
  ]

  abbrev other_key : Text → Text × V → Bool
  other_key k p = not (text_eq k p.0)

  abbrev pub key_lt : Text × V → Text × V → Bool
  key_lt p q = text_lt p.0 q.0

  lookup-store :
      (k j : Text) (v : V) (l : List (Text × V))
      → lookup j (store k v l) ≡ (if text_eq k j then some v else lookup j l)
  lookup-store k j v [] = refl
  lookup-store k j v ((i, w) ∷ l) = ground (
    arith,
    lookup-store k j v l,
    text_path k i,
    text_cmp-IsOrder.eq_left k j i,
    eq_symm text_cmp-IsOrder i j,
  )

  lookup-remove :
      (k j : Text) (l : List (Text × V))
      → lookup j (keep (other_key k) l) ≡ (if text_eq k j then none else lookup j l)
  lookup-remove k j [] = ground arith
  lookup-remove k j ((i, w) ∷ l) =
      ground (arith, lookup-remove k j l, text_path k i, text_path i j, text_path k j)

  In-store :
      (k : Text) (v : V) (l : List (Text × V)) (p : Text × V)
      → In p (store k v l)
      → (p ≡ (k, v)) ⊎ In p l
  In-store k v [] p (inl e) = inl e
  In-store k v [] p (inr i) = absurd i
  In-store k v ((j, w) ∷ l) p i = ground (arith, In-store k v l p)

  before :
      (k : Text) (v : V) (j : Text) (w : V) (l : List (Text × V))
      → text_cmp k j ≡ Ordering.lt
      → ((a : Text × V) → In a l → key_lt (j, w) a ≡ true)
      → (a : Text × V) → In a ((j, w) ∷ l)
      → key_lt (k, v) a ≡ true
  before k v j w l e first a (inl same) = ap (λ (p : Text × V). text_lt k p.0) same ∙ ap is_lt e
  before k v j w l e first a (inr i) =
      ground (arith, e, first a i, text_cmp-IsOrder.lt_trans k j a.0)

  behind :
      (k : Text) (v : V) (j : Text) (w : V) (l : List (Text × V))
      → text_cmp k j ≡ Ordering.gt
      → ((a : Text × V) → In a l → key_lt (j, w) a ≡ true)
      → (a : Text × V) → In a (store k v l)
      → key_lt (j, w) a ≡ true
  behind k v j w l e first a i = elim (In-store k v l a i) [
    | inl same ↦
        ap (λ (p : Text × V). text_lt j p.0) same ∙ ap is_lt (text_cmp-IsOrder.lt_of_gt k j e)
    | inr old ↦ first a old
  ]

  pub store-IsSorted :
      (k : Text) (v : V) (l : List (Text × V)) → IsSorted key_lt l → IsSorted key_lt (store k v l)
  store-IsSorted k v [] s = ((λ a i. absurd i), tt)
  store-IsSorted k v ((j, w) ∷ l) (first, s) = elim (Ordering-cases (text_cmp k j)) [
    | inl e ↦
        let done : store k v ((j, w) ∷ l) ≡ (k, v) ∷ l = rw (store, e) in
        let under =
          λ (a : Text × V) (i : In a l). ap (λ t. text_lt t a.0) (text_path k j e) ∙ first a i in
        subst (IsSorted key_lt) (sym done) (under, s)
    | inr (inl e) ↦
        let done : store k v ((j, w) ∷ l) ≡ (k, v) ∷ (j, w) ∷ l = rw (store, e) in
        subst (IsSorted key_lt) (sym done) (before k v j w l e first, (first, s))
    | inr (inr e) ↦
        let done : store k v ((j, w) ∷ l) ≡ (j, w) ∷ store k v l = rw (store, e) in
        subst (IsSorted key_lt) (sym done) (behind k v j w l e first, store-IsSorted k v l s)
  ]

  pub keep-IsSorted :
      (p : Text × V → Bool) (l : List (Text × V)) → IsSorted key_lt l → IsSorted key_lt (keep p l)
  keep-IsSorted p [] s = tt
  keep-IsSorted p (x ∷ l) (first, s) = elim (Bool-cases (p x)) [
    | inl e ↦
        let kept : keep p (x ∷ l) ≡ x ∷ keep p l = rw (keep, e) in
        subst (IsSorted key_lt) (sym kept)
          ((λ a i. first a (In-keep p a l i).0), keep-IsSorted p l s)
    | inr e ↦
        let dropped : keep p (x ∷ l) ≡ keep p l = rw (keep, e) in
        subst (IsSorted key_lt) (sym dropped) (keep-IsSorted p l s)
  ]

  pub In-lookup :
      (l : List (Text × V)) (k : Text) (v : V)
      → IsSorted key_lt l
      → In (k, v) l
      → lookup k l ≡ some v
  In-lookup ((j, w) ∷ l) k v (first, s) (inl e) =
      let keys : k ≡ j = ap (λ (p : Text × V). p.0) e in
      rw ((text_eq_iff j k).1 (sym keys)) (ap some (ap (λ (p : Text × V). p.1) (sym e)))
  In-lookup ((j, w) ∷ l) k v (first, s) (inr i) =
      ground (arith, In-lookup l k v s i, first (k, v) i)
  In-lookup [] k v s i = absurd i

  pub lookup-In : (l : List (Text × V)) (k : Text) (v : V) → lookup k l ≡ some v → In (k, v) l
  lookup-In ((j, w) ∷ l) k v h = elim (Bool-cases (text_eq j k)) [
    | inl e ↦ inl (cc ((text_eq_iff j k).0 e, rw e at h))
    | inr e ↦ inr (lookup-In l k v (rw e at h))
  ]
  lookup-In [] k v h = cc

-- A bucket's pairs, with the order of its keys.
pub record Bucket (V : Type 0) : Type 0 where
  pub pairs : List (Text × V)
  pub sorted : IsSorted key_lt pairs

module _ (V : Type 0) where
  abbrev pub empty : Bucket V
  empty = record { pairs = []; sorted = tt }

  abbrev put_pair : Bucket V → Text → V → Bucket V
  put_pair b k v = record {
    pairs = store k v b.pairs;
    sorted = store-IsSorted k v b.pairs b.sorted;
  }

  abbrev remove_pair : Bucket V → Text → Bucket V
  remove_pair b k = record {
    pairs = keep (other_key k) b.pairs;
    sorted = keep-IsSorted (other_key k) b.pairs b.sorted;
  }

  pub put_law :
      (b : Bucket V) (k : Text) (v : V) (b' : Bucket V) (j : Text)
      → some (put_pair b k v) ≡ some b'
      → lookup j b'.pairs ≡ (if text_eq k j then some v else lookup j b.pairs)
  put_law b k v b' j e =
      let same : put_pair b k v ≡ b' = cc in
      ap (λ (c : Bucket V). lookup j c.pairs) (sym same) ∙ lookup-store k j v b.pairs

  pub remove_law :
      (b : Bucket V) (k : Text) (b' : Bucket V) (j : Text)
      → some (remove_pair b k) ≡ some b'
      → lookup j b'.pairs ≡ (if text_eq k j then none else lookup j b.pairs)
  remove_law b k b' j e =
      let same : remove_pair b k ≡ b' = cc in
      ap (λ (c : Bucket V). lookup j c.pairs) (sym same) ∙ lookup-remove k j b.pairs

  abbrev pub bucket : Bolt (Bucket V) V
  bucket = record {
    get = λ b k. lookup k b.pairs;
    put = λ b k v. some (put_pair b k v);
    delete = λ b k. some (remove_pair b k);
    entries = λ b. b.pairs;
    get-put = put_law;
    get-delete = remove_law;
    entries-get = λ b k v. (In-lookup b.pairs k v b.sorted, lookup-In b.pairs k v);
    entries-IsSorted = λ b. b.sorted;
  }
