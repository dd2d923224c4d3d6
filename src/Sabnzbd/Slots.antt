-- ===== src/Sabnzbd/Slots.antt =====
-- The rows as the queue and the history list them. The fields that are computed from Progress, a
-- float that is only shown, have no counterpart.
use iplayer_arr.Prelude.{
  ℕ, ◌-◌, ◌/◌, ◌^◌, ◌==◌, min, leb, ltb, Bool, ◌&&◌, ◌||◌, not, List, ◌++◌, Text, codes, keep, map,
  if◌then◌else◌,
}
use iplayer_arr.Prelude.Int.{ℤ, pos, negated}
use iplayer_arr.Store.Types.{
  Time, second, Download, Status, pending, resolving, downloading, converting, completed, failed,
  is_failed, is_completed,
}

pub record QueueSlot : Type 0 where
  pub nzo_id : Text
  pub filename : Text
  pub status : Text
  pub cat : Text
  pub size : ℕ

pub record HistorySlot : Type 0 where
  pub nzo_id : Text
  pub name : Text
  pub nzb_name : Text
  pub status : Text
  pub storage : Text
  pub bytes : ℕ
  pub completed_unix : ℤ
  pub download_time : ℕ
  pub category : Text
  pub fail_message : Text

abbrev queue_status : Status → Text
queue_status pending = codes "Queued"
queue_status resolving = codes "Queued"
queue_status downloading = codes "Downloading"
queue_status converting = codes "Downloading"
queue_status completed = codes "Completed"
queue_status failed = codes "Queued"

-- `continue` for a row that will not be tried again
abbrev in_queue : Download → Bool
in_queue dl = not (is_failed dl.status && not dl.retryable)

abbrev queue_slot : Download → QueueSlot
queue_slot dl = record {
  nzo_id = dl.id;
  filename = dl.title;
  status = queue_status dl.status;
  cat = dl.category;
  size = dl.size;
}

unfoldable pub queue_slots : List Download → List QueueSlot
queue_slots downloads = map queue_slot (keep in_queue downloads)

-- Sub saturates at the largest Duration.
unfoldable download_seconds : Time → Time → ℕ
download_seconds started_at completed_at =
    if (started_at == 0) || (completed_at == 0) || ltb completed_at started_at
    then 0
    else min (completed_at - started_at) (2 ^ 63 - 1) / second

-- The seconds from Go's zero time to 1970.
abbrev epoch : ℕ
epoch = 62_135_596_800

abbrev unix : Time → ℤ
unix t = if leb epoch (t / second) then pos (t / second - epoch) else negated (epoch - t / second)

abbrev history_slot : Download → HistorySlot
history_slot dl = record {
  nzo_id = dl.id;
  name = dl.title;
  nzb_name = dl.title ++ codes ".nzb";
  status = if is_failed dl.status then codes "Failed" else codes "Completed";
  storage = dl.output_dir;
  bytes = dl.size;
  completed_unix = unix dl.completed_at;
  download_time = download_seconds dl.started_at dl.completed_at;
  category = dl.category;
  fail_message = dl.error;
}

-- The history, and behind it the completed rows that still lie in the queue.
unfoldable pub history_slots : List Download → List Download → List HistorySlot
unfolding download_seconds
history_slots history downloads =
    map history_slot (history ++ keep (λ dl. is_completed dl.status) downloads)
