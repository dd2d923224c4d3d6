-- ===== src/Store/Move/Laws.antt =====
-- MoveDownload as its callers see it.
use iplayer_arr.Prelude.{
  ℕ, ◌<◌, ◌≡◌, ◌≢◌, refl, sym, ap, ◌∙◌, subst, inl, inr, arith, true, false, Bool-cases, Option,
  none, some, List, [], ◌∷◌, In-keep_inv, Text, text_eq, text_eq_iff, length, codes, ◌⊎◌, ltb, ◌+◌,
  ◌-◌, suc, if◌then◌else◌,
}
use iplayer_arr.Prelude.Sort.{SameMembers}
use iplayer_arr.Store.Types.{Download, is_pending}
use iplayer_arr.Store.Bolt.{
  Bolt, Cell, row, malformed, Db, Error, panic, ok, err, >>=-eq-ok, >>=-eq-err, ok-injective,
}
use iplayer_arr.Store.Queue.{sort_queue}
use iplayer_arr.Store.Queue.Order.{
  HasDistinctIds, sort_queue-IsSorted, sort_queue-SameMembers, sorted-HasDistinctIds,
  keep-HasDistinctIds,
}
use iplayer_arr.Store.Downloads.{decode, complete, last_such, pending_downloads}
use iplayer_arr.Store.Downloads.Rows.{last_such_from, IsKeyed, entries-HasDistinctIds}
use iplayer_arr.Store.Move.{
  MoveOp, top, up, down, bottom, move_op, renumber, move_pending, move_target, move_checked,
  move_download,
}
use iplayer_arr.Store.Move.Shift.{
  insert_at, Goes, IsShift, IsShift-SameMembers, IsShift-HasDistinctIds, shift_total, IsFound,
  index_of-IsFound,
}
use iplayer_arr.Store.Move.Renumber.{
  renumbered, renumber-renumbered, get-renumber_other, renumber-ne-panic,
}
use iplayer_arr.Store.Move.Order.{
  waiting, complete-eq-ok, sorted_after, IsKeyed-after_renumber, whole_after, pending_whole, stored,
  row_of, waiting-sort_queue,
}

-- Where an operation, as the request spells it, takes the row at index i of n rows.
abbrev pub IsTarget : Text → ℕ → ℕ → ℕ → Type 0
IsTarget op i n j =
    ((op ≡ codes "top") × (j ≡ 0))
    ⊎ ((op ≡ codes "up") × (j ≡ i - 1))
    ⊎ ((op ≡ codes "down") × (j ≡ (if ltb (i + 1) n then i + 1 else i)))
    ⊎ ((op ≡ codes "bottom") × (suc j ≡ n))

Goes-IsTarget :
    (op : Text) (m : MoveOp) (i n j : ℕ) → move_op op ≡ some m → Goes m i n j → IsTarget op i n j
unfolding move_op
Goes-IsTarget op m i n j e g = elim (Bool-cases (text_eq op (codes "top"))) [
  | inl t ↦
      let named : m ≡ top = cc (rw t at e) in
      inl ((text_eq_iff op (codes "top")).0 t, subst (λ (x : MoveOp). Goes x i n j) named g)
  | inr t ↦ elim (Bool-cases (text_eq op (codes "up"))) [
    | inl u ↦
        let named : m ≡ up = cc (rw (t, u) at e) in
        inr (inl ((text_eq_iff op (codes "up")).0 u, subst (λ (x : MoveOp). Goes x i n j) named g))
    | inr u ↦ elim (Bool-cases (text_eq op (codes "down"))) [
      | inl d ↦
          let named : m ≡ down = cc (rw (t, u, d) at e) in
          inr (
            inr (
              inl (
                (text_eq_iff op (codes "down")).0 d,
                subst (λ (x : MoveOp). Goes x i n j) named g,
              )))
      | inr d ↦ elim (Bool-cases (text_eq op (codes "bottom"))) [
        | inl b ↦
            let named : m ≡ bottom = cc (rw (t, u, d, b) at e) in
            inr (
              inr (
                inr (
                  (text_eq_iff op (codes "bottom")).0 b,
                  subst (λ (x : MoveOp). Goes x i n j) named g,
                )))
        | inr b ↦ absurd (cc (rw (t, u, d, b) at e))
      ]
    ]
  ]
]

-- What a successful move did.
pub record Moved {B : Type 0} (bolt : Bolt B Cell) (id : Text) (op : MoveOp) (db db' : Db B)
    (q : List Download) : Type 0 where
  pub rows : List Download
  pub decoded : decode (bolt.entries db.downloads) ≡ (rows, none)
  pub found : IsFound id (sort_queue (waiting rows))
  pub shifted : List Download
  pub target : ℕ
  pub goes : Goes op found.index (length (sort_queue (waiting rows))) target
  pub moved : IsShift found.index target (sort_queue (waiting rows)) shifted
  pub run : renumber bolt db.downloads shifted ≡ ok (db'.downloads, q)
  pub history : db'.history ≡ db.history

complete-decode-ne-panic : (es : List (Text × Cell)) → complete (decode es) ≢ err panic
unfolding decode
complete-decode-ne-panic [] h = cc
complete-decode-ne-panic ((k, malformed) ∷ es) h = cc
complete-decode-ne-panic ((k, row d) ∷ es) h = ground (arith, complete-decode-ne-panic es)

module _ {B : Type 0} (bolt : Bolt B Cell) (id : Text) (db : Db B) where
  -- A pending target is among the rows that are sorted.
  target-IsFound :
      (ds : List Download) (d : Download)
      → last_such (λ c. text_eq c.id id) none ds ≡ some d
      → is_pending d.status ≡ true
      → IsFound id (sort_queue (waiting ds))
  target-IsFound ds d h p = elim (last_such_from (λ c. text_eq c.id id) none ds d h) [
    | inl e ↦ cc
    | inr (m, same) ↦
        index_of-IsFound id (sort_queue (waiting ds)) d
          ((sort_queue-SameMembers (waiting ds)).1 d
            (In-keep_inv (λ c. is_pending c.status) d ds m p))
          ((text_eq_iff d.id id).0 same)
  ]

  move_pending-Moved :
      (op : MoveOp) (ds : List Download) (db' : Db B) (q : List Download)
      → decode (bolt.entries db.downloads) ≡ (ds, none)
      → IsFound id (sort_queue (waiting ds))
      → move_pending bolt op id ds db ≡ ok (db', q)
      → Moved bolt id op db db' q
  move_pending-Moved op ds db' q whole found h =
      let queue = sort_queue (waiting ds) in
      let (es, done, (j, goes, moved)) =
        shift_total op queue found.index found.target found.held found.bound in
      let (r, run, e) = >>=-eq-ok (renumber bolt db.downloads es) _ (rw (found.found, done) at h) in
      let p : (record { downloads = r.0; history = db.history }, r.1) ≡ (db', q) = ok-injective e in
      record {
        rows = ds;
        decoded = whole;
        found = found;
        shifted = es;
        target = j;
        goes = goes;
        moved = moved;
        run = run ∙ ap (λ (t : Db B × List Download). ok (t.0.downloads, t.1)) p;
        history = sym (ap (λ (t : Db B × List Download). t.0.history) p);
      }

  move_target-Moved :
      (op : MoveOp) (ds : List Download) (o : Option Download) (db' : Db B) (q : List Download)
      → decode (bolt.entries db.downloads) ≡ (ds, none)
      → last_such (λ c. text_eq c.id id) none ds ≡ o
      → move_target bolt op id o ds db ≡ ok (db', q)
      → Moved bolt id op db db' q
  move_target-Moved op ds none db' q whole t h = cc
  move_target-Moved op ds (some d) db' q whole t h = elim (Bool-cases (is_pending d.status)) [
    | inl p ↦ move_pending-Moved op ds db' q whole (target-IsFound ds d t p) (rw p at h)
    | inr n ↦ absurd (cc (rw n at h))
  ]

  move_checked-Moved :
      (o : Option MoveOp) (db' : Db B) (q : List Download)
      → move_checked bolt o id db ≡ ok (db', q)
      → (op : MoveOp) × (o ≡ some op) × Moved bolt id op db db' q
  move_checked-Moved none db' q h = cc
  move_checked-Moved (some op) db' q h =
      let r = decode (bolt.entries db.downloads) in
      let (ds, e, more) = >>=-eq-ok (complete r) _ h in
      let (same, whole) = complete-eq-ok r ds e in
      let found = last_such (λ c. text_eq c.id id) none ds in
      (op, refl, move_target-Moved op ds found db' q (λ i. (same i, whole i)) refl more)

  pub move-Moved :
      (op : Text) (db' : Db B) (q : List Download)
      → move_download bolt id op db ≡ ok (db', q)
      → (m : MoveOp) × (move_op op ≡ some m) × Moved bolt id m db db' q
  move-Moved op db' q h = move_checked-Moved (move_op op) db' q (unfold move_download in h)

  move_pending-ne-panic :
      (op : MoveOp) (ds : List Download)
      → IsFound id (sort_queue (waiting ds))
      → move_pending bolt op id ds db ≢ err panic
  move_pending-ne-panic op ds f h =
      let queue = sort_queue (waiting ds) in
      let (es, done, _) = shift_total op queue f.index f.target f.held f.bound in
      elim (>>=-eq-err (renumber bolt db.downloads es) _ (rw (f.found, done) at h)) [
        | inl e ↦ renumber-ne-panic bolt db.downloads es e
        | inr (r, _, e) ↦ cc
      ]

  move_target-ne-panic :
      (op : MoveOp) (ds : List Download) (o : Option Download)
      → last_such (λ c. text_eq c.id id) none ds ≡ o
      → move_target bolt op id o ds db ≢ err panic
  move_target-ne-panic op ds none t h = cc
  move_target-ne-panic op ds (some d) t h = elim (Bool-cases (is_pending d.status)) [
    | inl p ↦ move_pending-ne-panic op ds (target-IsFound ds d t p) (rw p at h)
    | inr n ↦ cc (rw n at h)
  ]

  move_checked-ne-panic : (o : Option MoveOp) → move_checked bolt o id db ≢ err panic
  move_checked-ne-panic none h = cc
  move_checked-ne-panic (some op) h =
      let r = decode (bolt.entries db.downloads) in
      elim (>>=-eq-err (complete r) _ h) [
        | inl e ↦ complete-decode-ne-panic (bolt.entries db.downloads) e
        | inr (ds, _, e) ↦
            move_target-ne-panic op ds (last_such (λ c. text_eq c.id id) none ds) refl e
      ]

  -- MoveDownload never ends in a panic (an index out of range), whatever the buckets hold and
  -- whatever id and operation are asked for.
  pub move_download-ne-panic : (op : Text) → move_download bolt id op db ≢ err panic
  unfolding move_download
  move_download-ne-panic op = move_checked-ne-panic (move_op op)

  module _ (keyed : IsKeyed bolt db.downloads) where
    distinct_rows :
        (rows : List Download)
        → decode (bolt.entries db.downloads) ≡ (rows, none)
        → HasDistinctIds rows
    distinct_rows rows e =
        subst (λ (r : List Download × Option Error). HasDistinctIds r.0) e
          (entries-HasDistinctIds bolt db.downloads keyed)

    sorted_rows :
        (rows : List Download)
        → decode (bolt.entries db.downloads) ≡ (rows, none)
        → HasDistinctIds (sort_queue (waiting rows))
    sorted_rows rows e =
        let distinct = keep-HasDistinctIds (λ d. is_pending d.status) rows (distinct_rows rows e) in
        sorted-HasDistinctIds (waiting rows) (sort_queue (waiting rows)) distinct
          (sort_queue-IsSorted (waiting rows) distinct) (sort_queue-SameMembers (waiting rows)).0

    module _ (m : MoveOp) (db' : Db B) (q : List Download) (r : Moved bolt id m db db' q) where
      whole : (decode (bolt.entries db.downloads)).1 ≡ none
      whole = ap (λ (t : List Download × Option Error). t.1) r.decoded

      distinct : HasDistinctIds r.shifted
      distinct = IsShift-HasDistinctIds r.moved (sorted_rows r.rows r.decoded)

      same : SameMembers r.shifted (waiting (decode (bolt.entries db.downloads)).0)
      same =
          let (to, from) = IsShift-SameMembers r.moved in
          let (to', from') = sort_queue-SameMembers (waiting r.rows) in
          rw r.decoded ((λ a n. to' a (to a n)), (λ a n. from a (from' a n)))

      pending-after : pending_downloads bolt db' ≡ ok q
      pending-after =
          let b = db.downloads in
          let b' = db'.downloads in
          pending_whole bolt db' (whole_after bolt b b' r.shifted q keyed whole distinct same r.run)
          ∙ ap ok (sorted_after bolt b b' r.shifted q keyed whole distinct same r.run)

      IsKeyed-after : IsKeyed bolt db'.downloads
      IsKeyed-after =
          IsKeyed-after_renumber bolt db.downloads db'.downloads r.shifted q keyed whole distinct
            same r.run

      -- Only pending rows change.
      get-after :
          (k : Text) (d : Download)
          → bolt.get db.downloads k ≡ some (row d)
          → is_pending d.status ≡ false
          → bolt.get db'.downloads k ≡ some (row d)
      get-after k d held busy =
          get-renumber_other bolt db.downloads r.shifted db'.downloads q k r.run (λ e n p.
            let (own, pends) =
              stored bolt db.downloads db'.downloads r.shifted q keyed whole distinct same r.run e
                n in
            let e_is_d : e ≡ d = row_of (sym own ∙ ap (bolt.get db.downloads) p ∙ held) in
            ground (arith, ap (λ (x : Download). is_pending x.status) e_is_d, pends, busy))
          ∙ held

    module _ (op : Text) (db' : Db B) (q : List Download)
        (h : move_download bolt id op db ≡ ok (db', q)) where
      -- Where every row of the downloads lies under its own id, the queue that a successful
      -- MoveDownload returns is what PendingDownloads reads from the new database.
      pub pending_downloads-move_download : pending_downloads bolt db' ≡ ok q
      pending_downloads-move_download =
          let (m, e, r) = move-Moved op db' q h in pending-after m db' q r

      -- Where every row lies under its own id, it does so after a MoveDownload that succeeds.
      pub move_download-IsKeyed : IsKeyed bolt db'.downloads
      move_download-IsKeyed = let (m, e, r) = move-Moved op db' q h in IsKeyed-after m db' q r

      -- Where every row lies under its own id, a MoveDownload that succeeds leaves the history,
      -- and every decodable row that is not pending, as it was.
      pub move_download_frame :
          (k : Text) (d : Download)
          → bolt.get db.downloads k ≡ some (row d)
          → is_pending d.status ≡ false
          → (db'.history ≡ db.history) × (bolt.get db'.downloads k ≡ some (row d))
      move_download_frame k d held busy =
          let (m, e, r) = move-Moved op db' q h in (r.history, get-after m db' q r k d held busy)

      -- Where every row lies under its own id and MoveDownload succeeds, PendingDownloads before it
      -- gives the rows `rest` with the row of the given id put in at some index i; the returned
      -- queue is `rest` with that row put in at an index j, numbered again from the length down to
      -- 1. The operation is "top" and j is 0, or "up" and j is i - 1, or 0 if i is, or "down" and j
      -- is i + 1, or i if the row is the last, or "bottom" and j is the last index.
      pub move_download_positions :
          (before : List Download) × (i : ℕ) × (j : ℕ) × (moved : Download) × (rest : List Download)
          × (pending_downloads bolt db ≡ ok before)
          × IsTarget op i (length before) j
          × (moved.id ≡ id)
          × (i < length before)
          × (before ≡ insert_at i moved rest)
          × (q ≡ renumbered (insert_at j moved rest))
      move_download_positions =
          let (m, e, r) = move-Moved op db' q h in
          let before = sort_queue (waiting r.rows) in
          let s = r.moved in
          let same_row : s.moved ≡ r.found.target = cc (s.held, r.found.held) in
          (
            before,
            r.found.index,
            r.target,
            s.moved,
            s.rest,
            pending_whole bolt db (ap (λ (t : List Download × Option Error). t.1) r.decoded)
                ∙ ap (λ (t : List Download × Option Error). ok (waiting (sort_queue t.0))) r.decoded
                ∙ ap ok (waiting-sort_queue r.rows (distinct_rows r.rows r.decoded)),
            Goes-IsTarget op m r.found.index (length before) r.target e r.goes,
            ap (λ (x : Download). x.id) same_row ∙ r.found.same_id,
            r.found.bound,
            s.before,
            renumber-renumbered bolt db.downloads r.shifted db'.downloads q r.run
                ∙ ap renumbered s.after,
          )
