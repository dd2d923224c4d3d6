-- ===== src/Api/Handlers.antt =====
-- internal/api/downloads.go: the handlers that work on the rows and the queue. A JSON body is what its
-- decoding gives, `none` where that fails. Sizes are summed without the wrap-around of int64.
use iplayer_arr.Prelude.{
  ℕ, ◌+◌, ◌-◌, ◌^◌, Bool, false, ◌&&◌, ◌||◌, not, Option, none, some, List, [], ◌∷◌, Text, codes,
  is_empty, has_prefix, trim_suffix, if◌then◌else◌,
}
use iplayer_arr.Prelude.Int.{ℤ, at_least}
use iplayer_arr.Store.Types.{Time, Download, is_failed, is_completed}
use iplayer_arr.Store.Bolt.{
  Bolt, Cell, Db, Error, bolt_error, malformed_row, not_found, not_pending, invalid_move, panic,
  Result, ok, err, ◌>>=◌,
}
use iplayer_arr.Store.Catalogue.{ShowOverride}
use iplayer_arr.Store.Downloads.{delete_download, move_to_history}
use iplayer_arr.Store.History.{delete_history, list_history_filtered}
use iplayer_arr.Store.Move.{move_download}
use iplayer_arr.Store.Overrides.{get_override}
use iplayer_arr.Download.Enqueue.{Host, Grab, enqueue}
use iplayer_arr.Newznab.Filter.{IblResult, ibl_result_to_programme}
use iplayer_arr.Newznab.Generate.{generate_title}
use iplayer_arr.Api.Settings.{
  Code, status_ok, bad_request, missing, conflict, server_error, or_given, trim_prefix,
}

module _ {B : Type 0} (bolt : Bolt B Cell) where
  abbrev with_code : Db B → Result (Db B) → Db B × Code
  with_code db (ok db') = (db', status_ok)
  with_code db (err e) = (db, server_error)

  unfoldable handle_delete_history : Text → Db B → Db B × Code
  unfolding has_prefix delete_history
  handle_delete_history path db =
      let id = trim_prefix path (codes "/api/history/") in
      if is_empty id then (db, bad_request) else with_code db (delete_history bolt id db)

  -- The numbers of completed and of failed rows, and the bytes of the completed ones.
  pub record Stats : Type 0 where
    pub completed : ℕ
    pub failed : ℕ
    pub total_bytes : ℕ

  unfoldable stats_of : List Download → Stats
  stats_of [] = record { completed = 0; failed = 0; total_bytes = 0 }
  stats_of (d ∷ ds) =
      let rest = stats_of ds in
      if is_completed d.status
      then record rest { completed = rest.completed + 1; total_bytes = rest.total_bytes + d.size }
      else if is_failed d.status
      then record rest { failed = rest.failed + 1 }
      else rest

  unfoldable handle_history_stats : Time → Db B → Result Stats
  unfolding list_history_filtered stats_of
  handle_history_stats since db =
      list_history_filtered bolt
        (record {
          status = [];
          since = since;
          page = 1;
          per_page = 2 ^ 31 - 1;
          sort_by = codes "completed_at";
          order = codes "desc";
        })
        db
      >>= λ page. ok (stats_of page.items)

  abbrev code_of : Error → Code
  code_of invalid_move = bad_request
  code_of not_found = missing
  code_of not_pending = conflict
  code_of bolt_error = server_error
  code_of malformed_row = server_error
  code_of panic = server_error

  abbrev moved_answer : Db B → Result (Db B × List Download) → Db B × Code
  moved_answer db (ok (db', queue)) = (db', status_ok)
  moved_answer db (err e) = (db, code_of e)

  -- The body is the operation.
  unfoldable handle_move_download : Text → Option Text → Db B → Db B × Code
  unfolding move_download
  handle_move_download id none db = (db, bad_request)
  handle_move_download id (some to) db =
      if is_empty id then (db, bad_request) else moved_answer db (move_download bolt id to db)

  abbrev unless_error : Db B → Result (Db B) → Db B
  unless_error db (ok db') = db'
  unless_error db (err e) = db

  abbrev moved_or_deleted : Text → Db B → Result (Db B) → Db B
  moved_or_deleted id db (ok db') = db'
  moved_or_deleted id db (err e) = unless_error db (delete_download bolt id db)

  -- `cancel` is Manager.CancelDownload, `none` where the handler has no manager.
  abbrev cancelled : Text → Option (Text → Db B → Db B) → Db B → Db B
  cancelled id none db = moved_or_deleted id db (move_to_history bolt id db)
  cancelled id (some cancel) db = cancel id db

  unfoldable handle_cancel_download : Option (Text → Db B → Db B) → Text → Db B → Db B × Code
  unfolding has_prefix trim_suffix move_to_history delete_download
  handle_cancel_download cancel path db =
      let id = trim_suffix (trim_prefix path (codes "/api/downloads/")) (codes "/") in
      if is_empty id then (db, bad_request) else (cancelled id cancel db, status_ok)

pub record ManualRequest : Type 0 where
  pub pid : Text
  pub quality : Text
  pub title : Text
  pub category : Text
  pub subtitle : Text
  pub series : ℤ
  pub episode_num : ℤ
  pub position : ℤ
  pub air_date : Text

abbrev has_metadata : ManualRequest → Bool
has_metadata r =
    not (is_empty r.subtitle)
    || at_least r.series 1
    || at_least r.episode_num 1
    || at_least r.position 1
    || not (is_empty r.air_date)

abbrev as_result : ManualRequest → IblResult
as_result r = record {
  pid = r.pid;
  title = r.title;
  subtitle = r.subtitle;
  synopsis = [];
  channel = [];
  series = r.series;
  episode_num = r.episode_num;
  position = r.position;
  air_date = r.air_date;
  thumbnail = [];
  brand_pid = [];
  duration = 0;
  available = 0;
  episode_num_assigned = false;
}

module _ {B O : Type 0} (bolt : Bolt B Cell) (overrides : Bolt O (Option ShowOverride))
    (host : Host) (scan : Text → ℤ) (partial : ShowOverride) where
  -- The error of GetOverride is ignored; `partial` is what json.Unmarshal leaves beside it.
  abbrev found_override : Result (Option ShowOverride) → Option ShowOverride
  found_override (ok o) = o
  found_override (err e) = some partial

  unfoldable manual_title : ManualRequest → Text → O → Text
  unfolding ibl_result_to_programme get_override generate_title
  manual_title r quality o =
      let p = ibl_result_to_programme (as_result r) in
      if not (is_empty r.title) && has_metadata r
      then (generate_title scan p quality (found_override (get_override overrides p.name o))).0
      else r.title

  abbrev manual_grab : Text → Time → ManualRequest → O → Grab
  manual_grab new_id now r o =
      let quality = or_given r.quality (codes "720p") in
      record {
        id = new_id;
        now = now;
        pid = r.pid;
        quality = quality;
        title = manual_title r quality o;
        category = or_given r.category (codes "manual");
      }

  abbrev queued_answer : Db B × Option Text → Db B × Code × Option Text
  queued_answer (db, none) = (db, server_error, none)
  queued_answer (db, some id) = (db, status_ok, some id)

  unfoldable handle_manual_download :
      Bool → Text → Time → Option ManualRequest → O → Db B → Db B × Code × Option Text
  unfolding manual_title enqueue
  handle_manual_download has_manager new_id now none o db =
      if has_manager then (db, bad_request, none) else (db, server_error, none)
  handle_manual_download has_manager new_id now (some r) o db =
      if not has_manager
      then (db, server_error, none)
      else if is_empty r.pid
      then (db, bad_request, none)
      else queued_answer (enqueue bolt host (manual_grab new_id now r o) db)
