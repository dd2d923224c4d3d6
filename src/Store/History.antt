-- ===== src/Store/History.antt =====
-- internal/store/history.go without ClearHistory and ListHistoryOutputDirs. The `since` of a filter is
-- the time that time.Parse read in it, 0 if there is none. The texts of a filter are ASCII.
pub mod Laws
use iplayer_arr.Prelude.{
  ℕ, ◌+◌, ◌-◌, ◌*◌, ◌%◌, ◌^◌, Bool, true, false, ◌&&◌, ◌||◌, not, Option, none, some, List, [], ◌∷◌,
  ◌++◌, Text, codes, text_eq, text_lt, is_empty, to_lower, has_prefix, keep, take, drop, length,
  leb, ltb, if◌then◌else◌,
}
use iplayer_arr.Prelude.Sort.{sort}
use iplayer_arr.Store.Types.{
  Time, Download, Status, FailCode, pending, resolving, downloading, converting, completed, failed,
  no_code, geo_blocked, expired, stream_unavailable, not_yet_available, ffmpeg_error, truncated,
  stalled, timeout, unknown, metadata_unavailable, is_failed,
}
use iplayer_arr.Store.Bolt.{
  Bolt, Cell, row, malformed, Db, Error, panic, Result, ok, err, ◌>>=◌, attempt,
}
use iplayer_arr.Store.Downloads.{decode, complete, decoded, same_grab}

pub record HistoryFilter : Type 0 where
  pub status : Text
  pub since : Time
  pub page : ℕ
  pub per_page : ℕ
  pub sort_by : Text
  pub order : Text

pub record HistoryPage : Type 0 where
  pub items : List Download
  pub total : ℕ

-- The constants of the Status strings.
abbrev status_text : Status → Text
status_text pending = codes "pending"
status_text resolving = codes "resolving"
status_text downloading = codes "downloading"
status_text converting = codes "converting"
status_text completed = codes "completed"
status_text failed = codes "failed"

abbrev is_wanted : HistoryFilter → Download → Bool
is_wanted f dl =
    if not (is_empty f.status)
      && not (text_eq (to_lower (status_text dl.status)) (to_lower f.status))
    then false
    else not (ltb 0 f.since && ltb dl.completed_at f.since)

-- The comparison that sort.Slice is given. Of rows with equal keys it leaves the order open; here the
-- insertion sort decides it.
abbrev history_less : HistoryFilter → Download → Download → Bool
history_less f a b =
    let less =
      if text_eq f.sort_by (codes "title")
      then text_lt (to_lower a.title) (to_lower b.title)
      else ltb a.completed_at b.completed_at in
    if text_eq f.order (codes "asc") then less else not less

-- filtered[start:end] with the indices of 64-bit ints: an index that wrapped below 0 panics.
unfoldable pub page_of : ℕ → ℕ → List Download → Result HistoryPage
page_of page per_page filtered =
    let total = length filtered in
    let start = (page - 1) * per_page % 2 ^ 64 in
    if leb (2 ^ 63) start
    then err panic
    else if leb total start
    then ok (record { items = []; total = total })
    else if leb (2 ^ 63) (start + per_page)
    then err panic
    else ok (record { items = take per_page (drop start filtered); total = total })

-- Page 0 stands for every page below 1, and so for per_page.
abbrev or_default : ℕ → ℕ → ℕ
or_default n value = if ltb value 1 then n else value

abbrev paged : HistoryFilter → List Download → Result HistoryPage
paged f all =
    page_of (or_default 1 f.page) (or_default 20 f.per_page)
      (sort (history_less f) (keep (is_wanted f) all))

-- dl.Status != StatusFailed
abbrev pub succeeded : Download → Bool
succeeded dl = not (is_failed dl.status)

-- The row kept by the walk of FindHistoryByPIDQuality after a row d that matches.
abbrev pub prefer : Option Download → Download → Option Download
prefer none d = some d
prefer (some e) d = if succeeded e && is_failed d.status then some e else some d

unfoldable pub best_such : (Download → Bool) → Option Download → List Download → Option Download
best_such p found [] = found
best_such p found (d ∷ ds) = best_such p (if p d then prefer found d else found) ds

abbrev is_unavailable : FailCode → Bool
is_unavailable no_code = false
is_unavailable geo_blocked = false
is_unavailable expired = false
is_unavailable stream_unavailable = true
is_unavailable not_yet_available = false
is_unavailable ffmpeg_error = false
is_unavailable truncated = false
is_unavailable stalled = false
is_unavailable timeout = false
is_unavailable unknown = false
is_unavailable metadata_unavailable = false

abbrev is_outage_row : Bool → Time → Download → Bool
is_outage_row in_history since dl =
    is_failed dl.status
    && is_unavailable dl.failure_code
    && has_prefix dl.error (codes "playlist resolve: ")
    && not (in_history && ltb dl.completed_at since)

abbrev recoded : Bool → Download → Download
recoded true dl = record dl { failure_code = metadata_unavailable }
recoded false dl = record dl { failure_code = metadata_unavailable; retry_count = 0 }

module _ {B : Type 0} (bolt : Bolt B Cell) where
  unfoldable pub get_history : Text → Db B → Result (Option Download)
  get_history id db = decoded bolt (bolt.get db.history id)

  unfoldable pub list_history : Db B → List Download × Option Error
  unfolding decode
  list_history db = decode (bolt.entries db.history)

  unfoldable pub list_history_filtered : HistoryFilter → Db B → Result HistoryPage
  unfolding list_history page_of
  list_history_filtered f db = do all ← complete (list_history db); paged f all

  unfoldable pub delete_history : Text → Db B → Result (Db B)
  delete_history id db = do h ← attempt (bolt.delete db.history id); ok (record db { history = h })

  unfoldable pub put_history : Download → Db B → Result (Db B)
  put_history dl db = do
    h ← attempt (bolt.put db.history dl.id (row dl))
    ok (record db { history = h })

  unfoldable pub find_history_by_pid_quality : Text → Text → Db B → Option Download × Option Error
  unfolding decode best_such
  find_history_by_pid_quality pid quality db =
      let (ds, e) = decode (bolt.entries db.history) in
      (best_such (same_grab pid quality) none ds, e)

  -- The writes of one bucket, and the ids of the rows written.
  unfoldable recode_rows : Bool → List Download → B → Result (B × List Text)
  recode_rows in_history [] b = ok (b, [])
  recode_rows in_history (dl ∷ dls) b = do
    b' ← attempt (bolt.put b dl.id (row (recoded in_history dl)))
    (b'', ids) ← recode_rows in_history dls b'
    ok (b'', dl.id ∷ ids)

  abbrev recode_bucket : Bool → Time → B → Result (B × List Text)
  recode_bucket in_history since b = do
    ds ← complete (decode (bolt.entries b))
    recode_rows in_history (keep (is_outage_row in_history since) ds) b

  -- One transaction over the history, then the downloads.
  unfoldable recode_resolver_outage_failures : Time → Db B → Result (Db B × List Text)
  unfolding decode recode_rows
  recode_resolver_outage_failures since db = do
    (h, ids) ← recode_bucket true since db.history
    (d, more) ← recode_bucket false since db.downloads
    ok (record { downloads = d; history = h }, ids ++ more)
