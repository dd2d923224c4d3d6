-- ===== src/Download/Enqueue.antt =====
-- Manager.Enqueue of internal/download/manager.go with sanitiseFilename of worker.go, and the claimed
-- and cancelled sets of the manager. filepath.Base and filepath.Join are parameters.
pub mod Found
pub mod Laws
use iplayer_arr.Prelude.{
  ℕ, Bool, true, false, ◌&&◌, ◌||◌, not, Option, none, some, List, [], ◌∷◌, ◌++◌, Text, codes,
  text_eq, is_empty, ◌==◌, if◌then◌else◌,
}
use iplayer_arr.Store.Types.{
  Time, Download, blank, is_failed, FailCode, no_code, geo_blocked, expired, stream_unavailable,
  not_yet_available, ffmpeg_error, truncated, stalled, timeout, unknown, metadata_unavailable,
  pending,
}
use iplayer_arr.Newznab.Parse.{parse_title}
use iplayer_arr.Store.Bolt.{Bolt, Cell, Db, Result, ok, err}
use iplayer_arr.Store.Downloads.{find_download_by_pid_quality, put_download}
use iplayer_arr.Store.History.{find_history_by_pid_quality, delete_history}

-- The replacer's text for one byte.
abbrev replaced : ℕ → Text
replaced c =
    if (c == b'/') || (c == 92)
    then codes "-"
    else if c == b':'
    then codes " -"
    else if (c == b'*') || (c == b'?') || (c == 34) || (c == b'<') || (c == b'>') || (c == b'|')
    then []
    else c ∷ []

unfoldable replace_all : Text → Text
replace_all [] = []
replace_all (c ∷ s) = replaced c ++ replace_all s

-- strings.TrimLeft(s, ".")
unfoldable trim_dots : Text → Text
trim_dots [] = []
trim_dots (c ∷ s) = let rest = trim_dots s in if c == b'.' then rest else c ∷ s

unfoldable pub sanitise_filename : Text → Text
unfolding replace_all trim_dots
sanitise_filename name = trim_dots (replace_all name)

abbrev comes_back_later : FailCode → Bool
comes_back_later no_code = false
comes_back_later geo_blocked = false
comes_back_later expired = false
comes_back_later stream_unavailable = false
comes_back_later not_yet_available = true
comes_back_later ffmpeg_error = false
comes_back_later truncated = false
comes_back_later stalled = false
comes_back_later timeout = false
comes_back_later unknown = false
comes_back_later metadata_unavailable = true

-- A history row that a fresh grab replaces.
abbrev pub is_superseded : Download → Bool
is_superseded hist = is_failed hist.status && comes_back_later hist.failure_code

-- The paths of the host.
pub record Host : Type 0 where
  pub base : Text → Text
  pub join : List Text → Text
  pub download_dir : Text

abbrev safe_title : Host → Text → Text → Text
safe_title host pid title =
    let safe = sanitise_filename (host.base title) in
    if is_empty safe || text_eq safe (codes ".") || text_eq safe (codes "..") then pid else safe

-- What a caller asks for, with the id that generateNzoID draws and the time.
pub record Grab : Type 0 where
  pub id : Text
  pub now : Time
  pub pid : Text
  pub quality : Text
  pub title : Text
  pub category : Text

abbrev pub new_row : Host → Grab → Download
new_row host g =
    let ident = parse_title g.title in
    record blank {
      id = g.id;
      pid = g.pid;
      quality = g.quality;
      title = g.title;
      show_name = ident.show_name;
      season = ident.season;
      episode = ident.episode;
      air_date = ident.air_date;
      category = g.category;
      status = pending;
      output_dir =
          host.join (host.download_dir ∷ codes "incomplete" ∷ safe_title host g.pid g.title ∷ []);
      created_at = g.now;
    }

module _ {B : Type 0} (bolt : Bolt B Cell) (host : Host) where
  -- The database after a step whose error is only logged.
  abbrev pub logged : Db B → Result (Db B) → Db B
  logged db (ok db') = db'
  logged db (err e) = db

  abbrev answered : Grab → Db B → Result (Db B) → Db B × Option Text
  answered g db (ok db') = (db', some g.id)
  answered g db (err e) = (db, none)

  abbrev pub insert_row : Grab → Db B → Db B × Option Text
  insert_row g db = answered g db (put_download bolt (new_row host g) db)

  abbrev pub past_history : Grab → Option Download → Db B → Db B × Option Text
  past_history g none db = insert_row g db
  past_history g (some hist) db =
      if is_superseded hist
      then insert_row g (logged db (delete_history bolt hist.id db))
      else (db, some hist.id)

  abbrev past_queue : Grab → Option Download → Db B → Db B × Option Text
  past_queue g none db = past_history g (find_history_by_pid_quality bolt g.pid g.quality db).0 db
  past_queue g (some existing) db = (db, some existing.id)

  -- The result is the database, and the id that is returned, or `none` for an error.
  unfoldable pub enqueue : Grab → Db B → Db B × Option Text
  unfolding find_download_by_pid_quality find_history_by_pid_quality delete_history put_download
      sanitise_filename
  enqueue g db = past_queue g (find_download_by_pid_quality bolt g.pid g.quality db).0 db
