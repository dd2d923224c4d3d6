-- ===== src/Sabnzbd/Laws.antt =====
-- Deletions from the queue, and priorities.
use iplayer_arr.Prelude.{◌≡◌, refl, ◌⊎◌, inl, inr, some, List, Text, is_empty, Bool-cases}
use iplayer_arr.Store.Types.{Download}
use iplayer_arr.Store.Bolt.{Bolt, Cell, Db, Result, Error, ok, err}
use iplayer_arr.Store.Move.{MoveOp, move_download, move_op}
use iplayer_arr.Store.Move.Laws.{Moved, move-Moved}
use iplayer_arr.Sabnzbd.Requests.{sab_priority_to_move}
use iplayer_arr.Sabnzbd.Serve.{Server, apply_sab_priority}

Result-cases : {A : Type 0} (m : Result A) → ((a : A) × (m ≡ ok a)) ⊎ ((e : Error) × (m ≡ err e))
Result-cases (ok a) = inl (a, refl)
Result-cases (err e) = inr (e, refl)

module _ {B C : Type 0} (bolt : Bolt B Cell) (settings : Bolt C Text) (s : Server B) where
  -- A SABnzbd priority leaves the database as it is, or changes it by a move that succeeds: of the
  -- row with that id, which is pending, by the operation that sabPriorityToMove names.
  apply_sab_priority_lem :
      (id raw : Text) (db : Db B)
      → (apply_sab_priority bolt settings s id raw db ≡ db)
        ⊎ ((op : MoveOp) × (db' : Db B) × (q : List Download) × (move_op (sab_priority_to_move raw)
              ≡ some op)
            × Moved bolt id op db db' q
            × (apply_sab_priority bolt settings s id raw db ≡ db'))
  unfolding apply_sab_priority
  apply_sab_priority_lem id raw db =
      let op = sab_priority_to_move raw in
      elim (Bool-cases (is_empty op)) [
        | inl e ↦ inl (rw e refl)
        | inr e ↦ elim (Result-cases (move_download bolt id op db)) [
          | inl ((db', q), h) ↦
              let (m, is_op, moved) = move-Moved bolt id db op db' q h in
              inr (m, db', q, is_op, moved, rw (e, h) refl)
          | inr (why, h) ↦ inl (rw (e, h) refl)
        ]
      ]
