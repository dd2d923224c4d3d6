-- ===== src/Store/Move.antt =====
-- MoveDownload of internal/store/downloads.go: one pending row is shifted within the sorted pending
-- rows, and every pending row is numbered again, in one transaction.
pub mod Shift
pub mod Renumber
pub mod Order
pub mod Laws
use iplayer_arr.Prelude.{
  ℕ, zero, suc, ◌+◌, Bool, false, leb, Option, none, some, List, [], ◌∷◌, ◌++◌, Text, codes,
  text_eq, ◌==◌, keep, take, drop, length, get_elem?, if◌then◌else◌,
}
use iplayer_arr.Prelude.Int.{ℤ, pos, negsuc}
use iplayer_arr.Store.Types.{Download, is_pending}
use iplayer_arr.Store.Bolt.{
  Bolt, Cell, row, Db, Result, ok, err, not_found, not_pending, invalid_move, panic, ◌>>=◌, attempt,
}
use iplayer_arr.Store.Queue.{sort_queue}
use iplayer_arr.Store.Downloads.{decode, complete, last_such}

pub data MoveOp : Type 0 where
  top up down bottom : MoveOp

-- The switch that refuses any other operation.
unfoldable pub move_op : Text → Option MoveOp
move_op op =
    if text_eq op (codes "top")
    then some top
    else if text_eq op (codes "up")
    then some up
    else if text_eq op (codes "down")
    then some down
    else if text_eq op (codes "bottom")
    then some bottom
    else none

-- The loop that looks for the row in the sorted rows; `none` is the index -1.
unfoldable pub index_of : Text → List Download → Option ℕ
index_of id [] = none
index_of id (d ∷ ds) =
    let rest = index_of id ds in
    if text_eq d.id id then some 0 else elim rest [ none ↦ none | some i ↦ some (suc i) ]

-- n - 1
abbrev less_one : ℕ → ℤ
less_one zero = negsuc 0
less_one (suc n) = pos n

abbrev wanted_index : MoveOp → ℕ → ℕ → ℤ
wanted_index top i n = pos 0
wanted_index up i n = less_one i
wanted_index down i n = pos (i + 1)
wanted_index bottom i n = less_one n

-- if newIdx < 0 { newIdx = 0 }
abbrev from_zero : ℤ → ℤ
from_zero (pos j) = pos j
from_zero (negsuc j) = pos 0

-- newIdx > n - 1
abbrev is_beyond : ℕ → ℤ → Bool
is_beyond n (pos j) = leb n j
is_beyond n (negsuc j) = false

unfoldable pub new_index : MoveOp → ℕ → ℕ → ℤ
new_index op i n =
    let j = from_zero (wanted_index op i n) in if is_beyond n j then less_one n else j

-- s[:k] and s[k:], which panic where k is negative or beyond the length. Go lets the bound of s[:k]
-- reach the capacity; below, s[k:] is taken at the same k, and panics there.
abbrev slice_to : ℤ → List Download → Result (List Download)
slice_to (pos k) ds = if leb k (length ds) then ok (take k ds) else err panic
slice_to (negsuc k) ds = err panic

abbrev slice_from : ℤ → List Download → Result (List Download)
slice_from (pos k) ds = if leb k (length ds) then ok (drop k ds) else err panic
slice_from (negsuc k) ds = err panic

-- pending[idx], removed and inserted again at the new index
unfoldable pub reinsert : ℕ → ℤ → Option Download → List Download → Result (List Download)
reinsert i j none ds = err panic
reinsert i j (some moved) ds = do
  before ← slice_to (pos i) ds
  behind ← slice_from (pos (suc i)) ds
  front ← slice_to j (before ++ behind)
  back ← slice_from j (before ++ behind)
  ok (front ++ (moved ∷ back))

abbrev is_index : ℕ → ℤ → Bool
is_index i (pos j) = j == i
is_index i (negsuc j) = false

-- A row that was not found stands at -1, as does the new index in an empty queue.
unfoldable pub shift : MoveOp → Option ℕ → List Download → Result (List Download)
unfolding new_index reinsert
shift op none [] = ok []
shift op none (d ∷ ds) = err panic
shift op (some i) ds =
    let j = new_index op i (length ds) in
    if is_index i j then ok ds else reinsert i j (get_elem? ds i) ds

module _ {B : Type 0} (bolt : Bolt B Cell) where
  -- Row i of n gets the priority n - i, and is written if that changes it.
  unfoldable pub renumber : B → List Download → Result (B × List Download)
  renumber b [] = ok (b, [])
  renumber b (d ∷ ds) =
      let want = suc (length ds) in
      let d' = record d { priority = want } in
      let skipped : Result (B × List Download) = do (b', q) ← renumber b ds; ok (b', d ∷ q)
      in let written : Result (B × List Download) = do
        b' ← attempt (bolt.put b d.id (row d'))
        (b'', q) ← renumber b' ds
        ok (b'', d' ∷ q)
        in if d.priority == want then skipped else written

  abbrev move_pending : MoveOp → Text → List Download → Db B → Result (Db B × List Download)
  move_pending op id ds db = do
    let queue = sort_queue (keep (λ d. is_pending d.status) ds)
    shifted ← shift op (index_of id queue) queue
    (b, q) ← renumber db.downloads shifted
    ok (record db { downloads = b }, q)

  abbrev move_target :
      MoveOp → Text → Option Download → List Download → Db B → Result (Db B × List Download)
  move_target op id none ds db = err not_found
  move_target op id (some target) ds db =
      if is_pending target.status then move_pending op id ds db else err not_pending

  abbrev move_checked : Option MoveOp → Text → Db B → Result (Db B × List Download)
  move_checked none id db = err invalid_move
  move_checked (some op) id db = do
    ds ← complete (decode (bolt.entries db.downloads))
    move_target op id (last_such (λ d. text_eq d.id id) none ds) ds db

  -- The result is the new database and the queue in its new order.
  unfoldable pub move_download : Text → Text → Db B → Result (Db B × List Download)
  unfolding decode last_such
  move_download id op db = move_checked (move_op op) id db
