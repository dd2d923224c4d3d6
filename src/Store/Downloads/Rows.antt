-- ===== src/Store/Downloads/Rows.antt =====
-- The rows that a walk over a bucket decodes, in terms of what the bucket holds.
use iplayer_arr.Prelude.{
  ◌≡◌, ◌≢◌, refl, sym, ap, ◌∙◌, subst, ◌⊎◌, inl, inr, arith, Bool, Bool-cases, true, Option, none,
  some, List, [], ◌∷◌, In, Text, text_lt, text_eq_refl, if◌then◌else◌,
}
use iplayer_arr.Prelude.Sort.{IsSorted}
use iplayer_arr.Store.Types.{Download}
use iplayer_arr.Store.Bolt.{Bolt, Cell, row, malformed}
use iplayer_arr.Store.Downloads.{decode, last_such}
use iplayer_arr.Store.Queue.Order.{HasDistinctIds}

module _ {B : Type 0} (bolt : Bolt B Cell) where
  -- Every row of the bucket lies under its own id.
  abbrev pub IsKeyed : B → Type 0
  IsKeyed b = (k : Text) (d : Download) → bolt.get b k ≡ some (row d) → d.id ≡ k

pub row-injective : {c d : Download} → row c ≡ row d → c ≡ d
row-injective e = cc

-- The walk over a list of entries meets the rows in it.
pub In-decode :
    (es : List (Text × Cell)) (d : Download) → In d (decode es).0 → (k : Text) × In (k, row d) es
unfolding decode
In-decode ((k, row c) ∷ es) d (inl e) = (k, inl (λ i. (k, row (e i))))
In-decode ((k, row c) ∷ es) d (inr m) = let (j, n) = In-decode es d m in (j, inr n)
In-decode ((k, malformed) ∷ es) d m = absurd m
In-decode [] d m = absurd m

pub decode-In :
    (es : List (Text × Cell)) (k : Text) (d : Download)
    → (decode es).1 ≡ none
    → In (k, row d) es
    → In d (decode es).0
unfolding decode
decode-In ((j, row c) ∷ es) k d h (inl e) = inl (row-injective (ap (λ (p : Text × Cell). p.1) e))
decode-In ((j, row c) ∷ es) k d h (inr m) = inr (decode-In es k d h m)
decode-In ((j, malformed) ∷ es) k d h m = ground arith
decode-In [] k d h m = absurd m

decode-HasDistinctIds :
    (es : List (Text × Cell))
    → IsSorted (λ p q. text_lt p.0 q.0) es
    → ((k : Text) (d : Download) → In (k, row d) es → d.id ≡ k)
    → HasDistinctIds (decode es).0
unfolding decode
decode-HasDistinctIds [] s keyed = tt
decode-HasDistinctIds ((k, malformed) ∷ es) s keyed = tt
decode-HasDistinctIds ((k, row d) ∷ es) (first, rest) keyed = (
  (λ e m same.
      let (j, n) = In-decode es e m in
      let k_is_j : k ≡ j = sym (keyed k d (inl refl)) ∙ same ∙ keyed j e (inr n) in
      let below : text_lt k j ≡ true = first (j, row e) n in
      ground (arith, text_eq_refl j, subst (λ t. text_lt t j ≡ true) k_is_j below)),
  decode-HasDistinctIds es rest (λ j e m. keyed j e (inr m)),
)

module _ {B : Type 0} (bolt : Bolt B Cell) (b : B) (keyed : IsKeyed bolt b) where
  pub entries-HasDistinctIds : HasDistinctIds (decode (bolt.entries b)).0
  entries-HasDistinctIds =
      decode-HasDistinctIds (bolt.entries b) (bolt.entries-IsSorted b)
        (λ k d m. keyed k d ((bolt.entries-get b k (row d)).0 m))

  -- A row that the walk meets is stored under its id.
  pub entries_stored :
      (d : Download) → In d (decode (bolt.entries b)).0 → bolt.get b d.id ≡ some (row d)
  entries_stored d m =
      let (k, n) = In-decode (bolt.entries b) d m in
      let held : bolt.get b k ≡ some (row d) = (bolt.entries-get b k (row d)).0 n in
      subst (λ t. bolt.get b t ≡ some (row d)) (sym (keyed k d held)) held

  -- A walk that no undecodable row ends meets every stored row.
  pub entries_met :
      (k : Text) (d : Download)
      → (decode (bolt.entries b)).1 ≡ none
      → bolt.get b k ≡ some (row d)
      → In d (decode (bolt.entries b)).0
  entries_met k d h held = decode-In (bolt.entries b) k d h ((bolt.entries-get b k (row d)).1 held)

-- A walk ends early exactly at a value that does not decode.
pub decode_ends : (es : List (Text × Cell)) (k : Text) → In (k, malformed) es → (decode es).1 ≢ none
unfolding decode
decode_ends ((j, row c) ∷ es) k (inl e) h = cc (ap (λ (p : Text × Cell). p.1) e)
decode_ends ((j, row c) ∷ es) k (inr m) h = decode_ends es k m h
decode_ends ((j, malformed) ∷ es) k m h = cc
decode_ends [] k m h = absurd m

pub decode_completes :
    (es : List (Text × Cell)) → ((k : Text) → ¬ In (k, malformed) es) → (decode es).1 ≡ none
unfolding decode
decode_completes [] h = refl
decode_completes ((j, row c) ∷ es) h = decode_completes es (λ k m. h k (inr m))
decode_completes ((j, malformed) ∷ es) h = absurd (h j (inl refl))

-- The callback's row is one that passes, if there is one at all.
pub last_such_from :
    (p : Download → Bool) (found : Option Download) (ds : List Download) (d : Download)
    → last_such p found ds ≡ some d
    → (found ≡ some d) ⊎ (In d ds × (p d ≡ true))
unfolding last_such
last_such_from p found [] d h = inl h
last_such_from p found (c ∷ ds) d h =
    elim (last_such_from p (if p c then some c else found) ds d h) [
      | inl e ↦ elim (Bool-cases (p c)) [ inl y ↦ ground arith | inr n ↦ ground arith ]
      | inr (m, y) ↦ inr (inr m, y)
    ]

-- A row that passes is found, unless a later one is.
last_such_kept :
    (p : Download → Bool) (found : Option Download) (ds : List Download) (d : Download)
    → found ≡ some d
    → (e : Download) × (last_such p found ds ≡ some e)
unfolding last_such
last_such_kept p found [] d h = (d, h)
last_such_kept p found (c ∷ ds) d h = elim (Bool-cases (p c)) [
  | inl y ↦ last_such_kept p (if p c then some c else found) ds c (rw y)
  | inr n ↦ last_such_kept p (if p c then some c else found) ds d (rw n h)
]

pub last_such-some :
    (p : Download → Bool) (found : Option Download) (ds : List Download) (d : Download)
    → In d ds
    → p d ≡ true
    → (e : Download) × (last_such p found ds ≡ some e)
unfolding last_such
last_such-some p found (c ∷ ds) d (inr m) y =
    last_such-some p (if p c then some c else found) ds d m y
last_such-some p found (c ∷ ds) d (inl same) y =
    last_such_kept p (if p c then some c else found) ds c (rw (sym (ap p same) ∙ y) refl)
last_such-some p found [] d m y = absurd m
