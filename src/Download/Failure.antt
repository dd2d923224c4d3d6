-- ===== src/Download/Failure.antt =====
-- failDownload of internal/download/worker.go as a whole: the row that a failed attempt leaves, and
-- where it is stored. `now` and `finished` are the clock's readings; errors of the store are ignored
-- or logged, as the code does, and the database then stays as it was.
pub mod Laws
use iplayer_arr.Prelude.{Bool, if◌then◌else◌}
use iplayer_arr.Store.Types.{Time, Download, FailCode}
use iplayer_arr.Store.Bolt.{Bolt, Cell, Db, Result, ok, err}
use iplayer_arr.Store.Downloads.{put_download, move_to_history}
use iplayer_arr.Download.Retry.{Failure, fail_row}

abbrev pub unless_failed : {B : Type 0} → Db B → Result (Db B) → Db B
unless_failed db (ok db') = db'
unless_failed db (err e) = db

module _ {B : Type 0} (bolt : Bolt B Cell) where
  abbrev pub put_row : Download → Db B → Db B
  put_row dl db = unless_failed db (put_download bolt dl db)

  -- A permanent failure is completed, stored once more, and moved to the history.
  abbrev pub retire : Time → Download → Db B → Db B
  retire finished dl db =
      let stored = put_row (record dl { completed_at = finished }) db in
      unless_failed stored (move_to_history bolt dl.id stored)

  abbrev pub settle : Time → Download → Db B → Db B
  settle finished dl db =
      let stored = put_row dl db in if dl.retryable then stored else retire finished dl stored

  unfoldable pub fail_download : Time → Time → Bool → FailCode → Failure → Download → Db B → Db B
  unfolding fail_row put_download move_to_history
  fail_download now finished cooling code f dl db =
      settle finished (fail_row now cooling code f dl) db
