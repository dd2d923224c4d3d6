-- ===== src/Store/History/Laws.antt =====
-- What the history's lookup and its pages promise.
use iplayer_arr.Prelude.{
  ℕ, zero, suc, ◌+◌, ◌-◌, ◌*◌, ◌%◌, ◌^◌, ◌≤◌, ◌<◌, ◌≡◌, ◌⊎◌, inl, inr, refl, sym, ap, ◌∙◌, subst,
  Bool, true, false, ◌&&◌, Option, none, some, List, [], ◌∷◌, ◌++◌, Text, arith, In, onto, onto-In,
  onto-In_inv, Bool-cases, take, drop, length, leb, leb→le, if◌then◌else◌,
}
use iplayer_arr.Store.Types.{Download, is_failed}
use iplayer_arr.Store.Bolt.{Bolt, Cell, Db, Result, ok, ◌>>=◌}
use iplayer_arr.Store.Downloads.{decode, same_grab}
use iplayer_arr.Store.History.{page_of, succeeded, prefer, best_such, find_history_by_pid_quality}

-- What a lookup's result has to be for a list of rows: nothing only if no row passes, else a row
-- that passes, and one that has not failed if any row that passes has not.
abbrev pub IsPreferred : (Download → Bool) → List Download → Option Download → Type 0
IsPreferred p ds none = (d : Download) → In d ds → p d ≡ false
IsPreferred p ds (some r) =
    In r ds
    × (p r ≡ true)
    × ((d : Download) → In d ds → p d ≡ true → succeeded d ≡ true → succeeded r ≡ true)

-- A row that passes comes up: it replaces what was found, or what was found stays.
IsPreferred-met :
    (p : Download → Bool) (seen : List Download) (o : Option Download) (d : Download)
    → IsPreferred p seen o
    → p d ≡ true
    → IsPreferred p (d ∷ seen) (prefer o d)
IsPreferred-met p seen none d h e = (
  inl refl,
  e,
  λ x j y s. elim j [ inl same ↦ ap succeeded (sym same) ∙ s | inr k ↦ absurd (cc (h x k, y)) ],
)
IsPreferred-met p seen (some f) d (i, y, best) e =
    elim (Bool-cases (succeeded f && is_failed d.status)) [
      | inl stays ↦
          let found : prefer (some f) d ≡ some f = rw stays in
          let good : succeeded f ≡ true = ground arith in
          subst (IsPreferred p (d ∷ seen)) (sym found) (inr i, y, λ x j z s. good)
      | inr goes ↦
          let found : prefer (some f) d ≡ some d = rw goes in
          let better : succeeded f ≡ true → succeeded d ≡ true = ground arith in
          subst (IsPreferred p (d ∷ seen)) (sym found) (
            inl refl,
            e,
            λ x j z s. elim j [
              | inl same ↦ ap succeeded (sym same) ∙ s
              | inr k ↦ better (best x k z s)
            ],
          )
    ]

-- A row that does not pass changes nothing.
IsPreferred-passed :
    (p : Download → Bool) (seen : List Download) (o : Option Download) (d : Download)
    → IsPreferred p seen o
    → p d ≡ false
    → IsPreferred p (d ∷ seen) o
IsPreferred-passed p seen none d h e = λ x j. elim j [ inl same ↦ ap p same ∙ e | inr k ↦ h x k ]
IsPreferred-passed p seen (some f) d (i, y, best) e = (
  inr i,
  y,
  λ x j z s. elim j [ inl same ↦ absurd (cc (z, ap p same, e)) | inr k ↦ best x k z s ],
)

IsPreferred-step :
    (p : Download → Bool) (seen : List Download) (o : Option Download) (d : Download)
    → IsPreferred p seen o
    → IsPreferred p (d ∷ seen) (if p d then prefer o d else o)
IsPreferred-step p seen o d h = elim (Bool-cases (p d)) [
  | inl e ↦
      let taken : (if p d then prefer o d else o) ≡ prefer o d = rw e in
      subst (IsPreferred p (d ∷ seen)) (sym taken) (IsPreferred-met p seen o d h e)
  | inr e ↦
      let left : (if p d then prefer o d else o) ≡ o = rw e in
      subst (IsPreferred p (d ∷ seen)) (sym left) (IsPreferred-passed p seen o d h e)
]

walk-IsPreferred :
    (p : Download → Bool) (ds seen : List Download) (o : Option Download)
    → IsPreferred p seen o
    → IsPreferred p (onto ds seen) (best_such p o ds)
unfolding best_such
walk-IsPreferred p [] seen o h = h
walk-IsPreferred p (d ∷ ds) seen o h =
    walk-IsPreferred p ds (d ∷ seen) (if p d then prefer o d else o) (IsPreferred-step p seen o d h)

IsPreferred-onto :
    (p : Download → Bool) (ds : List Download) (o : Option Download)
    → IsPreferred p (onto ds []) o
    → IsPreferred p ds o
IsPreferred-onto p ds none h = λ d i. h d (onto-In d ds [] (inl i))
IsPreferred-onto p ds (some r) (i, y, best) =
    (listed (onto-In_inv r ds [] i), y, λ d j. best d (onto-In d ds [] (inl j)))
  where
    listed : In r ds ⊎ In r [] → In r ds
    listed (inl j) = j
    listed (inr j) = absurd j

module _ {B : Type 0} (bolt : Bolt B Cell) where
  -- FindHistoryByPIDQuality, over the rows that the history's walk decodes, returns nothing exactly
  -- where none of them has the pid and the quality; otherwise it returns one that has both, and one
  -- that has not failed where any of those has not, in whatever order they are met.
  pub find_history-IsPreferred :
      (pid quality : Text) (db : Db B)
      → IsPreferred
          (same_grab pid quality)
          (decode (bolt.entries db.history)).0
          (find_history_by_pid_quality bolt pid quality db).0
  unfolding find_history_by_pid_quality
  find_history-IsPreferred pid quality db =
      let ds = (decode (bolt.entries db.history)).0 in
      IsPreferred-onto (same_grab pid quality) ds (best_such (same_grab pid quality) none ds)
        (walk-IsPreferred (same_grab pid quality) ds [] none (λ d i. absurd i))

take-nil : (n : ℕ) → take {A = Download} n [] ≡ []
take-nil zero = refl
take-nil (suc n) = refl

take-add : (a b : ℕ) (l : List Download) → take (a + b) l ≡ take a l ++ take b (drop a l)
take-add zero b l = let none_more : 0 + b ≡ b = omega arith in ap (λ n. take n l) none_more
take-add (suc a) b [] = take-nil (suc a + b) ∙ sym (take-nil b)
take-add (suc a) b (x ∷ l) =
    let more : suc a + b ≡ suc (a + b) = omega arith in
    ap (λ n. take n (x ∷ l)) more ∙ ap (λ r. x ∷ r) (take-add a b l)

take-all : (n : ℕ) (l : List Download) → length l ≤ n → take n l ≡ l
take-all zero [] h = refl
take-all zero (x ∷ l) h = absurd (omega (arith, h))
take-all (suc n) [] h = refl
take-all (suc n) (x ∷ l) h = ap (λ r. x ∷ r) (take-all n l (omega arith))

drop-all : (n : ℕ) (l : List Download) → length l ≤ n → drop n l ≡ []
drop-all zero [] h = refl
drop-all zero (x ∷ l) h = absurd (omega (arith, h))
drop-all (suc n) [] h = refl
drop-all (suc n) (x ∷ l) h = drop-all n l (omega arith)

-- The items of the pages 1 to n, one after the other.
unfoldable pub first_pages : ℕ → ℕ → List Download → Result (List Download)
unfolding page_of
first_pages zero per_page l = ok []
first_pages (suc n) per_page l = do
  before ← first_pages n per_page l
  page ← page_of (suc n) per_page l
  ok (before ++ page.items)

page_of-slice :
    (n per_page : ℕ) (l : List Download)
    → (suc n) * per_page < 2 ^ 63
    → page_of (suc n) per_page l
      ≡ ok (record { items = take per_page (drop (n * per_page) l); total = length l })
unfolding page_of
page_of-slice n per_page l h =
    let prev : suc n - 1 ≡ n = omega arith in
    let small : n * per_page % 2 ^ 64 ≡ n * per_page = omega (arith, h) in
    let start : (suc n - 1) * per_page % 2 ^ 64 ≡ n * per_page =
      ap (λ m. m * per_page % 2 ^ 64) prev ∙ small in
    let low : leb (2 ^ 63) (n * per_page) ≡ false = ground (arith, h) in
    let fits : leb (2 ^ 63) (n * per_page + per_page) ≡ false = ground (arith, h) in
    elim (Bool-cases (leb (length l) (n * per_page))) [
      | inl past ↦ rw (
        start,
        low,
        past,
        drop-all (n * per_page) l (leb→le (length l) (n * per_page) past),
        take-nil per_page,
      )
      | inr inside ↦ rw (start, low, inside, fits)
    ]

first_pages-take :
    (n per_page : ℕ) (l : List Download)
    → n * per_page < 2 ^ 63
    → first_pages n per_page l ≡ ok (take (n * per_page) l)
unfolding first_pages
first_pages-take zero per_page l h =
    let none_yet : 0 * per_page ≡ 0 = omega arith in ap (λ n. ok (take n l)) (sym none_yet)
first_pages-take (suc n) per_page l h =
    let more : suc n * per_page ≡ n * per_page + per_page = omega arith in
    rw (first_pages-take n per_page l (omega (arith, h)), page_of-slice n per_page l h)
      (ap ok (sym (ap (λ m. take m l) more ∙ take-add (n * per_page) per_page l)))

-- If n * per_page is below 2^63 and the filtered history is not longer than n * per_page rows, the
-- pages 1 to n one after the other are all its rows in their order, and none of them panics.
pub first_pages_whole :
    (n per_page : ℕ) (l : List Download)
    → n * per_page < 2 ^ 63
    → length l ≤ n * per_page
    → first_pages n per_page l ≡ ok l
first_pages_whole n per_page l h all =
    first_pages-take n per_page l h ∙ ap ok (take-all (n * per_page) l all)
