-- ===== src/Store/Types.antt =====
-- internal/store/types.go: the download row, its statuses and failure codes.
-- Status and FailureCode are Go strings that the program only ever sets to these constants, so they
-- are enumerations here; `no_code` is the empty string. A time is the number of nanoseconds since
-- Go's zero time, so 0 is the time for which IsZero holds. Progress, the only float of the row, is
-- shown and never tested, and has no field.
use iplayer_arr.Prelude.{ℕ, Bool, true, false, List, [], Option, none, Text, ◌*◌}

pub data Status : Type 0 where
  pending resolving downloading converting completed failed : Status

pub data FailCode : Type 0 where
  no_code geo_blocked expired stream_unavailable not_yet_available ffmpeg_error : FailCode
  truncated stalled timeout unknown metadata_unavailable : FailCode

abbrev pub Time : Type 0
Time = ℕ

-- time.Second, in nanoseconds
abbrev pub second : ℕ
second = 1_000_000_000

abbrev pub minute : ℕ
minute = 60 * second

pub record Download : Type 0 where
  pub id : Text
  pub pid : Text
  pub vpid : Text
  pub title : Text
  pub show_name : Text
  pub season : ℕ
  pub episode : ℕ
  pub air_date : Text
  pub identity_tier : Text
  pub quality : Text
  pub actual_quality : Text
  pub status : Status
  pub category : Text
  pub stream_url : Text
  pub output_dir : Text
  pub output_file : Text
  pub size : ℕ
  pub downloaded : ℕ
  pub duration : ℕ
  pub error : Text
  pub failure_code : FailCode
  pub retryable : Bool
  pub retry_count : ℕ
  pub retry_after : Time
  pub cdn_failures : ℕ
  pub stall_count : ℕ
  pub stall_credits : ℕ
  pub metadata_failures : ℕ
  pub supplier : Text
  pub failed_suppliers : List Text
  pub priority : ℕ
  pub created_at : Time
  pub started_at : Time
  pub completed_at : Time
  pub file_exists : Option Bool

-- &store.Download{}: every field at its zero value. The zero Status is the empty string, which no
-- stored row has; every use of this value sets the status.
abbrev pub blank : Download
blank = record {
  id = [];
  pid = [];
  vpid = [];
  title = [];
  show_name = [];
  season = 0;
  episode = 0;
  air_date = [];
  identity_tier = [];
  quality = [];
  actual_quality = [];
  status = pending;
  category = [];
  stream_url = [];
  output_dir = [];
  output_file = [];
  size = 0;
  downloaded = 0;
  duration = 0;
  error = [];
  failure_code = no_code;
  retryable = false;
  retry_count = 0;
  retry_after = 0;
  cdn_failures = 0;
  stall_count = 0;
  stall_credits = 0;
  metadata_failures = 0;
  supplier = [];
  failed_suppliers = [];
  priority = 0;
  created_at = 0;
  started_at = 0;
  completed_at = 0;
  file_exists = none;
}

abbrev pub is_pending : Status → Bool
is_pending pending = true
is_pending resolving = false
is_pending downloading = false
is_pending converting = false
is_pending completed = false
is_pending failed = false

abbrev pub is_failed : Status → Bool
is_failed pending = false
is_failed resolving = false
is_failed downloading = false
is_failed converting = false
is_failed completed = false
is_failed failed = true

abbrev pub is_completed : Status → Bool
is_completed pending = false
is_completed resolving = false
is_completed downloading = false
is_completed converting = false
is_completed completed = true
is_completed failed = false
