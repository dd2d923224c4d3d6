-- ===== src/Store/Move/Shift.antt =====
-- What the shift does to the rows: it takes one out and puts it in again elsewhere.
use iplayer_arr.Prelude.{
  ==_iff, ℕ, zero, suc, ◌<◌, ◌≡◌, ◌≢◌, refl, sym, ap, ◌∙◌, inl, inr, arith, Bool-cases, some, List,
  [], ◌∷◌, ◌++◌, In, Text, text_eq, text_eq_iff, take, drop, length, get_elem?, ◌==◌, ltb, leb, ◌+◌,
  ◌-◌, true, false, if◌then◌else◌,
}
use iplayer_arr.Prelude.Sort.{SameMembers}
use iplayer_arr.Prelude.Int.{pos}
use iplayer_arr.Store.Types.{Download}
use iplayer_arr.Store.Bolt.{ok}
use iplayer_arr.Store.Queue.Order.{HasDistinctIds}
use iplayer_arr.Store.Move.{MoveOp, top, up, down, bottom, index_of, new_index, reinsert, shift}

module _ {A : Type 0} where
  abbrev pub insert_at : ℕ → A → List A → List A
  insert_at j x l = take j l ++ (x ∷ drop j l)

  abbrev remove_at : ℕ → List A → List A
  remove_at i l = take i l ++ drop (suc i) l

  insert_at-remove_at :
      (i : ℕ) (l : List A) (x : A) → get_elem? l i ≡ some x → insert_at i x (remove_at i l) ≡ l
  insert_at-remove_at zero (y ∷ l) x h = ground arith
  insert_at-remove_at (suc i) (y ∷ l) x h = ap (◌∷◌ y) (insert_at-remove_at i l x h)
  insert_at-remove_at i [] x h = cc

  In-insert_at : (j : ℕ) (x a : A) (l : List A) → In a (insert_at j x l) → In a (x ∷ l)
  In-insert_at zero x a l h = h
  In-insert_at (suc j) x a [] h = h
  In-insert_at (suc j) x a (y ∷ l) (inl e) = inr (inl e)
  In-insert_at (suc j) x a (y ∷ l) (inr h) = elim (In-insert_at j x a l h) [
    | inl e ↦ inl e
    | inr m ↦ inr (inr m)
  ]

  In-insert_at_inv : (j : ℕ) (x a : A) (l : List A) → In a (x ∷ l) → In a (insert_at j x l)
  In-insert_at_inv zero x a l h = h
  In-insert_at_inv (suc j) x a [] h = h
  In-insert_at_inv (suc j) x a (y ∷ l) (inl e) = inr (In-insert_at_inv j x a l (inl e))
  In-insert_at_inv (suc j) x a (y ∷ l) (inr (inl e)) = inl e
  In-insert_at_inv (suc j) x a (y ∷ l) (inr (inr m)) = inr (In-insert_at_inv j x a l (inr m))

abbrev IsNew : Download → List Download → Type 0
IsNew x l = (e : Download) → In e l → x.id ≢ e.id

insert_at-HasDistinctIds :
    (j : ℕ) (x : Download) (l : List Download)
    → IsNew x l
    → HasDistinctIds l
    → HasDistinctIds (insert_at j x l)
insert_at-HasDistinctIds zero x l new h = (new, h)
insert_at-HasDistinctIds (suc j) x [] new h = (new, h)
insert_at-HasDistinctIds (suc j) x (y ∷ l) new (first, rest) = (
  (λ e m same. elim (In-insert_at j x e l m) [
    | inl p ↦ new y (inl refl) (sym (same ∙ ap (λ (d : Download). d.id) p))
    | inr n ↦ first e n same
  ]),
  insert_at-HasDistinctIds j x l (λ e m. new e (inr m)) rest,
)

insert_at-IsNew :
    (j : ℕ) (x : Download) (l : List Download)
    → HasDistinctIds (insert_at j x l)
    → IsNew x l × HasDistinctIds l
insert_at-IsNew zero x l h = h
insert_at-IsNew (suc j) x [] h = h
insert_at-IsNew (suc j) x (y ∷ l) (first, rest) =
    let (new, distinct) = insert_at-IsNew j x l rest in
    (
      (λ e m same. elim m [
        | inl p ↦
            first x (In-insert_at_inv j x x l (inl refl))
              (sym (same ∙ ap (λ (d : Download). d.id) p))
        | inr n ↦ new e n same
      ]),
      ((λ e m. first e (In-insert_at_inv j x e l (inr m))), distinct),
    )

-- The rows are a row `moved` and the `rest`, before and after; only its index changes.
pub record IsShift (i j : ℕ) (ds es : List Download) : Type 0 where
  pub moved : Download
  pub rest : List Download
  pub held : get_elem? ds i ≡ some moved
  pub before : ds ≡ insert_at i moved rest
  pub after : es ≡ insert_at j moved rest

pub IsShift-SameMembers : {i j : ℕ} {ds es : List Download} → IsShift i j ds es → SameMembers es ds
IsShift-SameMembers {i} {j} s =
    rw (s.before, s.after)
      (
        (λ a m. In-insert_at_inv i s.moved a s.rest (In-insert_at j s.moved a s.rest m)),
        (λ a m. In-insert_at_inv j s.moved a s.rest (In-insert_at i s.moved a s.rest m)),
      )

pub IsShift-HasDistinctIds :
    {i j : ℕ} {ds es : List Download} → IsShift i j ds es → HasDistinctIds ds → HasDistinctIds es
IsShift-HasDistinctIds {i} {j} s h =
    let (new, distinct) = insert_at-IsNew i s.moved s.rest (rw s.before at h) in
    rw s.after (insert_at-HasDistinctIds j s.moved s.rest new distinct)

-- The loop finds the row, if one has the id.
pub record IsFound (id : Text) (ds : List Download) : Type 0 where
  pub index : ℕ
  pub target : Download
  pub found : index_of id ds ≡ some index
  pub bound : index < length ds
  pub held : get_elem? ds index ≡ some target
  pub same_id : target.id ≡ id

pub index_of-IsFound :
    (id : Text) (ds : List Download) (d : Download) → In d ds → d.id ≡ id → IsFound id ds
unfolding index_of
index_of-IsFound id (c ∷ ds) d m e = elim (Bool-cases (text_eq c.id id)) [
  | inl same ↦ record {
    index = 0;
    target = c;
    found = rw same;
    bound = omega arith;
    held = refl;
    same_id = (text_eq_iff c.id id).0 same;
  }
  | inr other ↦
      let later : IsFound id ds = elim m [
        | inl p ↦ ground (arith, (text_eq_iff c.id id).1 (ap (λ (x : Download). x.id) (sym p) ∙ e))
        | inr n ↦ index_of-IsFound id ds d n e
      ] in
      record {
        index = suc later.index;
        target = later.target;
        found = rw (other, later.found);
        bound = omega (arith, later.bound);
        held = later.held;
        same_id = later.same_id;
      }
]
index_of-IsFound id [] d m e = absurd m

-- Where an operation takes the row at index i of n rows.
abbrev pub Goes : MoveOp → ℕ → ℕ → ℕ → Type 0
Goes top i n j = j ≡ 0
Goes up i n j = j ≡ i - 1
Goes down i n j = j ≡ (if ltb (i + 1) n then i + 1 else i)
Goes bottom i n j = suc j ≡ n

new_index-Goes :
    (op : MoveOp) (i n : ℕ) → i < n → (j : ℕ) × (new_index op i n ≡ pos j) × (j < n) × Goes op i n j
unfolding new_index
new_index-Goes top i (suc n) h =
    let inside : leb (suc n) 0 ≡ false = ground arith in (0, rw inside refl, omega arith, refl)
new_index-Goes up zero (suc n) h =
    let inside : leb (suc n) 0 ≡ false = ground arith in (0, rw inside refl, omega arith, refl)
new_index-Goes up (suc i) n h =
    let inside : leb n i ≡ false = ground arith in (i, rw inside refl, omega arith, omega arith)
new_index-Goes down i (suc n) h = elim (Bool-cases (ltb (i + 1) (suc n))) [
  | inl e ↦
      let inside : leb (suc n) (i + 1) ≡ false = ground arith in
      (i + 1, rw inside refl, ground arith, rw e refl)
  | inr e ↦
      let beyond : leb (suc n) (i + 1) ≡ true = ground arith in
      let last : n ≡ i = ground arith in (n, rw beyond refl, omega arith, rw e last)
]
new_index-Goes bottom i (suc n) h =
    let inside : leb (suc n) n ≡ false = ground arith in (n, rw inside refl, omega arith, refl)
new_index-Goes top i zero h = absurd (omega (arith, h))
new_index-Goes up zero zero h = absurd (omega (arith, h))
new_index-Goes down i zero h = absurd (omega (arith, h))
new_index-Goes bottom i zero h = absurd (omega (arith, h))

length-remove_at :
    (i : ℕ) (l : List Download) (x : Download)
    → get_elem? l i ≡ some x
    → suc (length (remove_at i l)) ≡ length l
length-remove_at i [] x h = cc
length-remove_at zero (y ∷ l) x h = refl
length-remove_at (suc i) (y ∷ l) x h = ap suc (length-remove_at i l x h)

-- All four slices are within their bounds.
reinsert_lem :
    (i j : ℕ) (x : Download) (ds : List Download)
    → get_elem? ds i ≡ some x
    → i < length ds
    → j < length ds
    → reinsert i (pos j) (some x) ds ≡ ok (insert_at j x (remove_at i ds))
unfolding reinsert
reinsert_lem i j x ds e here there =
    let size = length-remove_at i ds x e in
    let one : leb i (length ds) ≡ true = ground arith in
    let two : leb (suc i) (length ds) ≡ true = ground arith in
    let three : leb j (length (remove_at i ds)) ≡ true = ground (arith, size, there) in
    rw (one, two, three) refl

-- Shifting a row that was found succeeds, and moves that row alone.
pub shift_total :
    (op : MoveOp) (ds : List Download) (i : ℕ) (x : Download)
    → get_elem? ds i ≡ some x
    → i < length ds
    → (es : List Download) × (shift op (some i) ds ≡ ok es)
      × ((j : ℕ) × Goes op i (length ds) j × IsShift i j ds es)
unfolding shift
shift_total op ds i x e bound =
    let (j, index, inside, goes) = new_index-Goes op i (length ds) bound in
    let back = insert_at-remove_at i ds x e in
    elim (Bool-cases (j == i)) [
      | inl same ↦ (
        ds,
        rw (index, same) refl,
        (
          j,
          goes,
          record {
            moved = x;
            rest = remove_at i ds;
            held = e;
            before = sym back;
            after = rw ((==_iff j i).0 same) (sym back);
          },
        ),
      )
      | inr other ↦ (
        insert_at j x (remove_at i ds),
        rw (index, other, e) (reinsert_lem i j x ds e bound inside),
        (
          j,
          goes,
          record { moved = x; rest = remove_at i ds; held = e; before = sym back; after = refl },
        ),
      )
    ]
