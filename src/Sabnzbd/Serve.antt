-- ===== src/Sabnzbd/Serve.antt =====
-- ServeHTTP and its handlers. The manager behind DownloadStarter is Manager of
-- internal/download/manager.go: StartDownload is Enqueue, and CancelDownload waits for the worker,
-- which may change the database meanwhile (`worker`), and then deletes the row.
use iplayer_arr.Prelude.{
  Bool, true, ◌&&◌, ◌||◌, not, Option, none, some, List, Text, codes, text_eq, is_empty,
  if◌then◌else◌,
}
use iplayer_arr.Access.{sabnzbd_authenticate}
use iplayer_arr.Store.Types.{Time, Download, failed}
use iplayer_arr.Store.Bolt.{Bolt, Cell, Db, Result, ok, err}
use iplayer_arr.Store.Downloads.{get_download, list_downloads, delete_download}
use iplayer_arr.Store.History.{list_history, put_history, delete_history}
use iplayer_arr.Store.Move.{move_download}
use iplayer_arr.Store.Settings.{get_config}
use iplayer_arr.Download.Enqueue.{Host, Grab, enqueue}
use iplayer_arr.Sabnzbd.Requests.{
  Request, Formats, Refusal, Extracted, extracted, refused, extract_from_request,
  sab_priority_to_move,
}
use iplayer_arr.Sabnzbd.Slots.{QueueSlot, HistorySlot, queue_slots, history_slots}

pub data Reply : Type 0 where
  wrong_key : Reply
  version_reply : Reply
  categories : Reply
  config_reply : Text → Reply
  status_reply : Text → Reply
  accepted : Reply
  queue_reply : List QueueSlot → Bool → Reply
  history_reply : List HistorySlot → Reply
  bad_request : Refusal → Reply
  downloads_disabled : Reply
  not_added : Reply
  added : Text → Reply
  unknown_mode : Reply

-- The handler, its manager and the clock. `has_starter` is false where the starter is nil.
pub record Server (B : Type 0) : Type 0 where
  pub host : Host
  pub formats : Formats
  pub has_starter : Bool
  pub is_paused : Bool
  pub download_dir : Text
  -- the id that generateNzoID draws, and the time
  pub new_id : Text
  pub now : Time
  pub worker : Db B → Db B
  -- what json.Unmarshal leaves in the row beside its error
  pub partial : Download

-- The store; GetConfig fails where the database is closed.
pub record Stored (B C : Type 0) : Type 0 where
  pub is_open : Bool
  pub db : Db B
  pub config : C

module _ {B C : Type 0} (bolt : Bolt B Cell) (settings : Bolt C Text) (s : Server B) where
  -- A step whose error is logged or ignored.
  abbrev pub unless_error : Db B → Result (Db B) → Db B
  unless_error db (ok db') = db'
  unless_error db (err e) = db

  unfoldable pub cancel_download : Text → Db B → Db B
  unfolding delete_download
  cancel_download id db = unless_error (s.worker db) (delete_download bolt id (s.worker db))

  -- The snapshot as the history keeps it.
  abbrev pub cancelled_row : Download → Download
  cancelled_row dl = record dl {
    status = failed;
    error = if is_empty dl.error then codes "cancelled via SAB API" else dl.error;
    completed_at = s.now;
  }

  abbrev keep_snapshot : Result (Option Download) → Db B → Db B
  keep_snapshot (ok (some dl)) db = unless_error db (put_history bolt (cancelled_row dl) db)
  keep_snapshot (ok none) db = db
  keep_snapshot (err e) db = unless_error db (put_history bolt (cancelled_row s.partial) db)

  unfoldable pub delete_from_queue : Text → Db B → Db B
  unfolding cancel_download get_download put_history
  delete_from_queue id db =
      let snapshot = get_download bolt id db in
      let db' = if s.has_starter then cancel_download id db else db in keep_snapshot snapshot db'

  abbrev moved_db : Db B → Result (Db B × List Download) → Db B
  moved_db db (ok (db', queue)) = db'
  moved_db db (err e) = db

  unfoldable pub apply_sab_priority : Text → Text → Db B → Db B
  unfolding move_download sab_priority_to_move
  apply_sab_priority id raw db =
      let op = sab_priority_to_move raw in
      if is_empty op then db else moved_db db (move_download bolt id op db)

  unfoldable pub handle_queue : Request → Db B → Db B × Reply
  unfolding delete_from_queue apply_sab_priority list_downloads queue_slots
  handle_queue r db =
      if text_eq r.name (codes "delete")
      then (delete_from_queue r.value db, accepted)
      else if text_eq r.name (codes "priority")
      then (apply_sab_priority r.value r.value2 db, accepted)
      else (db, queue_reply (queue_slots (list_downloads bolt db).0) (s.has_starter && s.is_paused))

  unfoldable pub handle_history : Request → Db B → Db B × Reply
  unfolding delete_history list_history list_downloads history_slots
  handle_history r db =
      if text_eq r.name (codes "delete")
      then (unless_error db (delete_history bolt r.value db), accepted)
      else (db, history_reply (history_slots (list_history bolt db).0 (list_downloads bolt db).0))

  abbrev pub or_else : Text → Text → Text
  or_else given other = if is_empty given then other else given

  abbrev pub grab_of : Request → Text → Text → Text → Grab
  grab_of r pid quality filename = record {
    id = s.new_id;
    now = s.now;
    pid = pid;
    quality = quality;
    title = or_else r.nzbname (or_else filename pid);
    category = or_else r.cat (codes "sonarr");
  }

  abbrev pub add_answer : Request → Db B × Option Text → Db B × Reply
  add_answer r (db, none) = (db, not_added)
  add_answer r (db, some id) = (apply_sab_priority id r.priority db, added id)

  abbrev pub add_extracted : Request → Extracted → Db B → Db B × Reply
  add_extracted r (refused reason) db = (db, bad_request reason)
  add_extracted r (extracted pid quality filename) db =
      if s.has_starter
      then add_answer r (enqueue bolt s.host (grab_of r pid quality filename) db)
      else (db, downloads_disabled)

  unfoldable pub handle_add : Request → Db B → Db B × Reply
  unfolding extract_from_request enqueue apply_sab_priority
  handle_add r db = add_extracted r (extract_from_request s.formats r) db

  unfoldable resolve_download_dir : C → Text
  unfolding get_config
  resolve_download_dir config =
      if not (is_empty s.download_dir)
      then s.download_dir
      else or_else (get_config settings (codes "download_dir") config) (codes "/downloads")

  unfoldable pub served : Request → Stored B C → Db B × Reply
  unfolding handle_queue handle_history handle_add resolve_download_dir
  served r st =
      if text_eq r.mode (codes "get_cats")
      then (st.db, categories)
      else if text_eq r.mode (codes "get_config")
      then (st.db, config_reply (resolve_download_dir st.config))
      else if text_eq r.mode (codes "fullstatus")
      then (st.db, status_reply (resolve_download_dir st.config))
      else if text_eq r.mode (codes "queue")
      then handle_queue r st.db
      else if text_eq r.mode (codes "history")
      then handle_history r st.db
      else if text_eq r.mode (codes "addurl") || text_eq r.mode (codes "addfile")
      then handle_add r st.db
      else (st.db, unknown_mode)

  -- What GetConfig("api_key") returns.
  abbrev pub read_key : Stored B C → Option Text
  read_key st = if st.is_open then some (get_config settings (codes "api_key") st.config) else none

  abbrev pub guarded : Request → Stored B C → Db B × Reply
  guarded r st =
      if sabnzbd_authenticate true (read_key st) r.credentials
      then served r st
      else (st.db, wrong_key)

  abbrev pub with_db : Stored B C → Db B × Reply → Option (Stored B C) × Reply
  with_db st (db, reply) = (some (record st { db = db }), reply)

  -- The store is `none` where the handler's store is nil.
  unfoldable pub serve_http : Request → Option (Stored B C) → Option (Stored B C) × Reply
  unfolding served sabnzbd_authenticate get_config
  serve_http r none =
      if text_eq r.mode (codes "version") then (none, version_reply) else (none, wrong_key)
  serve_http r (some st) =
      if text_eq r.mode (codes "version")
      then (some st, version_reply)
      else with_db st (guarded r st)
