-- ===== src/Store/Queue/Order.antt =====
-- The claim order is a strict order that separates any two rows with different ids.
use Prim.Native.Nat.{compare, Ordering}
use iplayer_arr.Prelude.{
  ℕ, Bool, true, false, ◌≡◌, ◌≢◌, ◌⊎◌, ap, arith, not, List, [], ◌∷◌, In, if◌then◌else◌, ◌==◌, ltb,
  Text, text_cmp, text_eq, text_lt, text_cmp-IsOrder, text_path, Bool-cases, inl, inr, In-keep,
  keep, refl, sym, ◌∙◌, subst, text_eq_iff,
}
use iplayer_arr.Prelude.Order.{
  and_then, is_lt, Ordering-cases, IsOrder, lex, by_key, descending, compare-IsOrder,
  by_key-IsOrder, descending-IsOrder, lex-IsOrder,
}
use iplayer_arr.Prelude.Sort.{
  IsSorted, IsSeparated, SameMembers, sort-IsSorted, sort-SameMembers, sorted_unique,
}
use iplayer_arr.Store.Types.{Download}
use iplayer_arr.Store.Queue.{queue_less, sort_queue}

-- The same keys, as one three-way comparison.
abbrev queue_cmp : Download → Download → Ordering
queue_cmp = lex (descending (by_key (λ d. d.priority) compare)) (
    lex (by_key (λ d. d.show_name) text_cmp) (
      lex (by_key (λ d. d.season) compare) (
        lex (by_key (λ d. d.episode) compare) (
          lex (by_key (λ d. d.air_date) text_cmp)
            (lex (by_key (λ d. d.created_at) compare) (by_key (λ d. d.id) text_cmp))))))

queue_cmp-IsOrder : IsOrder queue_cmp
queue_cmp-IsOrder =
    lex-IsOrder (descending-IsOrder (by_key-IsOrder (λ d. d.priority) compare-IsOrder)) (
      lex-IsOrder (by_key-IsOrder (λ d. d.show_name) text_cmp-IsOrder) (
        lex-IsOrder (by_key-IsOrder (λ d. d.season) compare-IsOrder) (
          lex-IsOrder (by_key-IsOrder (λ d. d.episode) compare-IsOrder) (
            lex-IsOrder (by_key-IsOrder (λ d. d.air_date) text_cmp-IsOrder) (
              lex-IsOrder (by_key-IsOrder (λ d. d.created_at) compare-IsOrder)
                (by_key-IsOrder (λ d. d.id) text_cmp-IsOrder))))))

-- One round of the comparison: a key that differs decides.
number_round :
    (a b : ℕ) (r : Ordering)
    → (if not (a == b) then ltb a b else is_lt r) ≡ is_lt (and_then (compare a b) r)
number_round a b r = ground arith

number_round_down :
    (a b : ℕ) (r : Ordering)
    → (if not (a == b) then ltb b a else is_lt r) ≡ is_lt (and_then (compare b a) r)
number_round_down a b r = ground arith

text_round :
    (a b : Text) (r : Ordering)
    → (if not (text_eq a b) then text_lt a b else is_lt r) ≡ is_lt (and_then (text_cmp a b) r)
text_round a b r = ground arith

queue_less-cmp : (a b : Download) → queue_less a b ≡ is_lt (queue_cmp a b)
unfolding queue_less
queue_less-cmp a b = rw (← number_round_down) (simp (← number_round, ← text_round))

pub queue_less_irrefl : (a : Download) → queue_less a a ≡ false
queue_less_irrefl a = rw queue_less-cmp (rw (queue_cmp-IsOrder.cmp_refl a))

pub queue_less_trans :
    (a b c : Download) → queue_less a b ≡ true → queue_less b c ≡ true → queue_less a c ≡ true
queue_less_trans a b c h k = ground (
  arith,
  queue_less-cmp a b,
  queue_less-cmp b c,
  queue_less-cmp a c,
  queue_cmp-IsOrder.lt_trans a b c,
)

id_of_cmp : (a b : Download) → queue_cmp a b ≡ Ordering.eq → a.id ≡ b.id
id_of_cmp a b h = ground (arith, text_path a.id b.id)

-- Of two rows with different ids one is claimed before the other.
queue_less_total :
    (a b : Download) → a.id ≢ b.id → (queue_less a b ≡ true) ⊎ (queue_less b a ≡ true)
queue_less_total a b h = elim (Ordering-cases (queue_cmp a b)) [
  | inl e ↦ absurd (h (id_of_cmp a b e))
  | inr (inl e) ↦ inl (rw queue_less-cmp (rw e))
  | inr (inr e) ↦ inr (rw queue_less-cmp (rw (queue_cmp-IsOrder.lt_of_gt a b e)))
]

-- The ids of the rows differ from one another.
abbrev pub HasDistinctIds : List Download → Type 0
HasDistinctIds [] = Unit
HasDistinctIds (d ∷ ds) = ((e : Download) → In e ds → d.id ≢ e.id) × HasDistinctIds ds

distinct-IsSeparated : (ds : List Download) → HasDistinctIds ds → IsSeparated queue_less ds
distinct-IsSeparated [] h = tt
distinct-IsSeparated (d ∷ ds) (first, rest) =
    ((λ e m. queue_less_total d e (first e m)), distinct-IsSeparated ds rest)

pub sort_queue-IsSorted :
    (ds : List Download) → HasDistinctIds ds → IsSorted queue_less (sort_queue ds)
unfolding sort_queue
sort_queue-IsSorted ds h = sort-IsSorted queue_less queue_less_trans ds (distinct-IsSeparated ds h)

pub sort_queue-SameMembers : (ds : List Download) → SameMembers (sort_queue ds) ds
unfolding sort_queue
sort_queue-SameMembers ds = sort-SameMembers queue_less ds

-- For rows with distinct ids, any list of the same rows that is in the claim order is what
-- sortDownloadQueue makes of them.
pub sort_queue_unique :
    (ds es : List Download)
    → HasDistinctIds ds
    → IsSorted queue_less es
    → SameMembers es ds
    → sort_queue ds ≡ es
sort_queue_unique ds es h k (there, back) =
    let (to, from) = sort_queue-SameMembers ds in
    sorted_unique queue_less queue_less_trans queue_less_irrefl (sort_queue ds) es
      (sort_queue-IsSorted ds h) k (λ a m. back a (to a m), λ a m. from a (there a m))

-- Rows with different ids that share an id are one row.
eq_of_same_id :
    (ds : List Download) (a b : Download)
    → HasDistinctIds ds
    → In a ds
    → In b ds
    → a.id ≡ b.id
    → a ≡ b
eq_of_same_id (d ∷ ds) a b (first, rest) (inl p) (inl q) e = p ∙ sym q
eq_of_same_id (d ∷ ds) a b (first, rest) (inl p) (inr n) e =
    absurd (first b n (ap (λ (x : Download). x.id) (sym p) ∙ e))
eq_of_same_id (d ∷ ds) a b (first, rest) (inr m) (inl q) e =
    absurd (first a m (ap (λ (x : Download). x.id) (sym q) ∙ sym e))
eq_of_same_id (d ∷ ds) a b (first, rest) (inr m) (inr n) e = eq_of_same_id ds a b rest m n e
eq_of_same_id [] a b h m n e = absurd m

-- A sorted list of rows of `ds` has distinct ids if `ds` has.
pub sorted-HasDistinctIds :
    (ds es : List Download)
    → HasDistinctIds ds
    → IsSorted queue_less es
    → ((e : Download) → In e es → In e ds)
    → HasDistinctIds es
sorted-HasDistinctIds ds [] h s m = tt
sorted-HasDistinctIds ds (e ∷ es) h (first, rest) m = (
  (λ c n same.
      let equal : e ≡ c = eq_of_same_id ds e c h (m e (inl refl)) (m c (inr n)) same in
      ground (
        arith,
        queue_less_irrefl e,
        subst (λ (x : Download). queue_less e x ≡ true) (sym equal) (first c n),
      )),
  sorted-HasDistinctIds ds es h rest (λ c n. m c (inr n)),
)

pub keep-HasDistinctIds :
    (p : Download → Bool) (ds : List Download) → HasDistinctIds ds → HasDistinctIds (keep p ds)
keep-HasDistinctIds p [] h = tt
keep-HasDistinctIds p (d ∷ ds) (first, rest) = elim (Bool-cases (p d)) [
  | inl e ↦ rw (e, keep) ((λ c n. first c (In-keep p c ds n).0), keep-HasDistinctIds p ds rest)
  | inr e ↦ rw (e, keep) (keep-HasDistinctIds p ds rest)
]

pub keep-IsSorted :
    (p : Download → Bool) (ds : List Download)
    → IsSorted queue_less ds
    → IsSorted queue_less (keep p ds)
keep-IsSorted p [] h = tt
keep-IsSorted p (d ∷ ds) (first, rest) = elim (Bool-cases (p d)) [
  | inl e ↦ rw (e, keep) ((λ c n. first c (In-keep p c ds n).0), keep-IsSorted p ds rest)
  | inr e ↦ rw (e, keep) (keep-IsSorted p ds rest)
]

-- Whether some row has the id.
pub id-cases :
    (k : Text) (ds : List Download)
    → ((d : Download) × In d ds × (d.id ≡ k)) ⊎ ((d : Download) → In d ds → d.id ≢ k)
id-cases k [] = inr (λ d m. absurd m)
id-cases k (c ∷ ds) = elim (Bool-cases (text_eq c.id k)) [
  | inl e ↦ inl (c, inl refl, (text_eq_iff c.id k).0 e)
  | inr e ↦ elim (id-cases k ds) [
    | inl (d, m, same) ↦ inl (d, inr m, same)
    | inr h ↦ inr (λ d m. elim m [
      | inl p ↦ λ same.
          ground (arith, (text_eq_iff c.id k).1 (ap (λ (x : Download). x.id) (sym p) ∙ same))
      | inr n ↦ h d n
    ])
  ]
]
