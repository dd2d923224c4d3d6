-- ===== src/Examples/Grabs.antt =====
-- Examples of grabs and of the history.
use iplayer_arr.Prelude.{
  false, true, refl, ◌≡◌, ◌+◌, ◌^◌, [], ◌∷◌, codes, some, none, arith, text_cmp, text_eq,
}
use iplayer_arr.Store.Types.{
  Download, blank, failed, completed, not_yet_available, ffmpeg_error, geo_blocked,
}
use iplayer_arr.Store.Bolt.{Cell, row, Db, ok, err, panic}
use iplayer_arr.Prelude.Sort.{sort, insert}
use iplayer_arr.Store.Queue.{sort_queue}
use iplayer_arr.Store.Downloads.{
  put_download, get_download, move_to_history, decode, same_grab, list_downloads,
}
use iplayer_arr.Download.Throttle.{Throttle, new_throttle, default_config, admit}
use iplayer_arr.Download.Worker.{process_next}
use iplayer_arr.Download.Worker.Claim.{IsFirstFree, process_next-IsFirstFree}
use iplayer_arr.Store.History.{get_history, page_of, find_history_by_pid_quality}
use iplayer_arr.Store.History.Laws.{
  IsPreferred, find_history-IsPreferred, first_pages, first_pages_whole,
}
use iplayer_arr.Download.Retry.{Failure, fail_row}
use iplayer_arr.Download.Failure.{fail_download}
use iplayer_arr.Download.Failure.Laws.{fail_download-get_retryable, fail_download-get_permanent}
use iplayer_arr.Download.Enqueue.{Host, Grab, enqueue, new_row}
use iplayer_arr.Download.Enqueue.Laws.{enqueue_twice}
use iplayer_arr.Examples.Bucket.{Bucket, bucket, empty}

-- A host that has one directory for the files of a download in progress.
abbrev pub host : Host
host = record {
  base = λ s. s;
  join = λ parts. codes "/data/incomplete/x";
  download_dir = codes "/data";
}

abbrev missing : Download
missing = record blank {
  id = codes "n1";
  pid = codes "b1";
  quality = codes "720p";
  status = failed;
  failure_code = not_yet_available;
}

abbrev done : Download
done = record missing { id = codes "n2"; status = completed }

abbrev db : Db (Bucket Cell)
db = record {
  downloads = empty Cell;
  history = record { pairs = (codes "n1", row missing) ∷ []; sorted = ((λ a i. absurd i), tt) };
}

abbrev first : Grab
first = record {
  id = codes "n3";
  now = 7;
  pid = codes "b1";
  quality = codes "720p";
  title = codes "Show";
  category = codes "tv";
}

abbrev second_grab : Grab
second_grab = record first { id = codes "n4"; now = 8; title = codes "Show again" }

abbrev after : Db (Bucket Cell)
after = (enqueue (bucket Cell) host first db).0

first_queued : enqueue (bucket Cell) host first db ≡ (after, some (codes "n3"))
unfolding enqueue text_cmp
first_queued = refl

queue-readable : (decode ((bucket Cell).entries db.downloads)).1 ≡ none
unfolding decode
queue-readable = refl

enqueue_twice_example : enqueue (bucket Cell) host second_grab after ≡ (after, some (codes "n3"))
enqueue_twice_example =
    enqueue_twice (bucket Cell) host first second_grab refl refl db after (codes "n3")
      queue-readable first_queued

find_history-IsPreferred_example :
    IsPreferred
      (same_grab (codes "b1") (codes "720p"))
      (decode (db.history.pairs)).0
      (find_history_by_pid_quality (bucket Cell) (codes "b1") (codes "720p") db).0
find_history-IsPreferred_example =
    find_history-IsPreferred (bucket Cell) (codes "b1") (codes "720p") db

first_pages_whole_example : first_pages 2 1 (missing ∷ done ∷ []) ≡ ok (missing ∷ done ∷ [])
first_pages_whole_example = first_pages_whole 2 1 (missing ∷ done ∷ []) (omega arith) (omega arith)

abbrev failure : Failure
failure = record { message = codes "exit status 1"; refused_by = none }

abbrev queued_row : Download
queued_row = new_row host first

abbrev retried : Download
retried = fail_row 5 false ffmpeg_error failure queued_row

abbrev refused : Download
refused = fail_row 5 false geo_blocked failure queued_row

abbrev kept : (b : Db (Bucket Cell)) × (put_download (bucket Cell) retried after ≡ ok b)
unfolding put_download
kept = (_, refl)

abbrev stored : (b : Db (Bucket Cell)) × (put_download (bucket Cell) refused after ≡ ok b)
unfolding put_download
stored = (_, refl)

abbrev finished_row :
    (b : Db (Bucket Cell)) × (put_download
        (bucket Cell)
        (record refused { completed_at = 6 })
        stored.0
      ≡ ok b)
unfolding put_download
finished_row = (_, refl)

abbrev moved :
    (b : Db (Bucket Cell)) × (move_to_history (bucket Cell) queued_row.id finished_row.0 ≡ ok b)
unfolding move_to_history put_download text_cmp fail_row stored finished_row enqueue
moved = (_, refl)

apart : text_eq queued_row.id (codes "n1") ≡ false
unfolding text_cmp
apart = refl

fail_download-get_retryable_example :
    (fail_download (bucket Cell) 5 6 false ffmpeg_error failure queued_row after ≡ kept.0)
    × (get_download (bucket Cell) queued_row.id kept.0 ≡ ok (some retried))
    × (get_download (bucket Cell) (codes "n1") kept.0
        ≡ get_download (bucket Cell) (codes "n1") after)
    × (kept.0.history ≡ after.history)
fail_download-get_retryable_example =
    fail_download-get_retryable (bucket Cell) 5 6 false ffmpeg_error failure queued_row after kept.0
      (codes "n1") refl kept.1 apart

fail_download-get_permanent_example :
    (fail_download (bucket Cell) 5 6 false geo_blocked failure queued_row after ≡ moved.0)
    × (get_download (bucket Cell) queued_row.id moved.0 ≡ ok none)
    × (get_history (bucket Cell) queued_row.id moved.0
        ≡ ok (some (record refused { completed_at = 6 })))
    × (get_download (bucket Cell) (codes "n1") moved.0
        ≡ get_download (bucket Cell) (codes "n1") after)
    × (get_history (bucket Cell) (codes "n1") moved.0
        ≡ get_history (bucket Cell) (codes "n1") after)
fail_download-get_permanent_example =
    fail_download-get_permanent (bucket Cell) 5 6 false geo_blocked failure queued_row after
      stored.0 finished_row.0 moved.0 (codes "n1") refl stored.1 finished_row.1 moved.1 apart

abbrev throttle : Throttle
throttle = new_throttle default_config 2 0

admitted : admit 9 0 throttle ≡ true
unfolding admit new_throttle
admitted = refl

listed : list_downloads (bucket Cell) after ≡ (queued_row ∷ [], none)
unfolding list_downloads enqueue text_cmp sort_queue sort insert
listed = refl

process_next-IsFirstFree_example :
    IsFirstFree 9 [] (queued_row ∷ []) (process_next (bucket Cell) 9 throttle [] after)
process_next-IsFirstFree_example =
    process_next-IsFirstFree (bucket Cell) 9 throttle [] after (queued_row ∷ []) admitted listed

-- A page number that overflows the index panics.
overflowing_page : page_of (2 ^ 62 + 1) 2 (missing ∷ done ∷ []) ≡ err panic
unfolding page_of
overflowing_page = refl
