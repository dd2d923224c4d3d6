-- ===== src/Store/Downloads.antt =====
-- internal/store/downloads.go without MoveDownload: each method is a transaction over the two
-- buckets. An Update whose closure returns an error is rolled back, so its result is the new
-- database or an error, never both.
pub mod Rows
use iplayer_arr.Prelude.{
  Bool, Option, none, some, List, [], ◌∷◌, Text, text_eq, ◌&&◌, keep, if◌then◌else◌,
}
use iplayer_arr.Store.Types.{Download, is_pending}
use iplayer_arr.Store.Bolt.{
  Bolt, Cell, row, malformed, Db, Error, malformed_row, not_found, Result, ok, err, ◌>>=◌, attempt,
}
use iplayer_arr.Store.Queue.{sort_queue}

-- A ForEach whose callback decodes each row: the rows before the first one that does not decode,
-- and the error that ends the walk there.
unfoldable pub decode : List (Text × Cell) → List Download × Option Error
decode [] = ([], none)
decode ((k, row d) ∷ es) = let (ds, e) = decode es in (d ∷ ds, e)
decode ((k, malformed) ∷ es) = ([], some malformed_row)

-- A ForEach whose error ends the transaction.
abbrev pub complete : List Download × Option Error → Result (List Download)
complete (ds, none) = ok ds
complete (ds, some e) = err e

-- A callback that keeps the row it saw last among those that pass.
unfoldable pub last_such : (Download → Bool) → Option Download → List Download → Option Download
last_such p found [] = found
last_such p found (d ∷ ds) = last_such p (if p d then some d else found) ds

abbrev pub same_grab : Text → Text → Download → Bool
same_grab pid quality d = text_eq d.pid pid && text_eq d.quality quality

module _ {B : Type 0} (bolt : Bolt B Cell) where
  unfoldable pub put_download : Download → Db B → Result (Db B)
  put_download dl db = do
    b ← attempt (bolt.put db.downloads dl.id (row dl))
    ok (record db { downloads = b })

  abbrev pub decoded : Option Cell → Result (Option Download)
  decoded none = ok none
  decoded (some (row d)) = ok (some d)
  decoded (some malformed) = err malformed_row

  unfoldable pub get_download : Text → Db B → Result (Option Download)
  get_download id db = decoded (bolt.get db.downloads id)

  unfoldable pub list_downloads : Db B → List Download × Option Error
  unfolding decode
  list_downloads db = let (ds, e) = decode (bolt.entries db.downloads) in (sort_queue ds, e)

  unfoldable pub pending_downloads : Db B → Result (List Download)
  pending_downloads db = do
    all ← complete (list_downloads db)
    ok (keep (λ d. is_pending d.status) all)

  unfoldable pub delete_download : Text → Db B → Result (Db B)
  delete_download id db = do
    b ← attempt (bolt.delete db.downloads id)
    ok (record db { downloads = b })

  unfoldable pub find_download_by_pid_quality : Text → Text → Db B → Option Download × Option Error
  unfolding decode last_such
  find_download_by_pid_quality pid quality db =
      let (ds, e) = decode (bolt.entries db.downloads) in
      (last_such (same_grab pid quality) none ds, e)

  abbrev move_cell : Text → Option Cell → Db B → Result (Db B)
  move_cell id none db = err not_found
  move_cell id (some cell) db = do
    h ← attempt (bolt.put db.history id cell)
    b ← attempt (bolt.delete db.downloads id)
    ok (record { downloads = b; history = h })

  -- The stored bytes are copied, not decoded.
  unfoldable pub move_to_history : Text → Db B → Result (Db B)
  move_to_history id db = move_cell id (bolt.get db.downloads id) db
