-- ===== src/Examples/Attempts.antt =====
-- Examples of failing attempts, of the throttle and of the choice of a stream.
use iplayer_arr.Prelude.{
  ℕ, ◌++◌, length, min, ◌+◌, ◌*◌, ◌≤◌, ◌≡◌, refl, inl, inr, true, false, List, [], ◌∷◌, Text, codes,
  ltb, arith, some, none, text_cmp, text_eq, member, if◌then◌else◌,
}
use iplayer_arr.Prelude.Int.{pos}
use iplayer_arr.Store.Types.{
  Time, second, minute, Download, blank, stalled, ffmpeg_error, truncated,
}
use iplayer_arr.Download.Throttle.{
  Throttle, default_config, new_throttle, unix_epoch, admit, record_stall, maybe_recover,
  in_cooldown, distinct, prune_events,
}
use iplayer_arr.Download.Throttle.Limit.{
  IsValid, Call, stall, clean, recover, read, run, run-new_throttle-IsValid,
}
use iplayer_arr.Download.Throttle.Cooldown.{noted, record_stall-cooldown}
use iplayer_arr.Download.Throttle.Recovery.{maybe_recover_once, IsCalm, windows, windows-limit}
use iplayer_arr.Download.Retry.{Failure, fail_row, add_failed_supplier}
use iplayer_arr.Download.Retry.Budget.{Attempt, StaysRetryable, retries_bounded}
use iplayer_arr.Download.Retry.Delay.{retry_after_bounds, counters_are_separate}
use iplayer_arr.Download.Retry.Refusal.{next_pick, refused_supplier_is_avoided}
use iplayer_arr.Download.Quality.{quality_to_height, should_degrade, attempt_quality}
use iplayer_arr.Download.Quality.Ladder.{IsAttemptFor, attempt_quality-IsAttemptFor}
use iplayer_arr.Download.Streams.{
  VideoStream, no_stream, diff, is_excluded, pick_stream, HlsVariant, select_variant_by_height,
}
use iplayer_arr.Download.Watchdog.Tail.{collect, diagnostics, collect-newest}
use iplayer_arr.Download.Streams.Pick.{IsPick, pick_stream-IsPick}
use iplayer_arr.Download.Streams.Variant.{IsChoice, select_variant_by_height-IsChoice}

-- A time of the program's clock: the year 1970 is behind it.
abbrev noon : Time
noon = unix_epoch + 1_000_000 * second

abbrev fresh : Throttle
fresh = new_throttle default_config 4 noon

abbrev calls : List (Time × Call)
calls =
    (noon, stall (codes "a"))
    ∷ (noon + second, stall (codes "b"))
    ∷ (noon + 400 * second, recover)
    ∷ (noon + 401 * second, clean)
    ∷ (noon + 402 * second, read)
    ∷ []

run-new_throttle-IsValid_example : IsValid (run calls (new_throttle default_config 4 noon))
run-new_throttle-IsValid_example = run-new_throttle-IsValid default_config 4 noon calls

-- Two distinct downloads stalled within the window: the second one trips the throttle.
abbrev stalled_once : Throttle
stalled_once = record {
  cfg = default_config;
  ceiling = 4;
  active_limit = 4;
  events = record { id = codes "a"; at = noon } ∷ [];
  cooling_until_nanos = 0;
  consecutive = 0;
  next_recover_at = noon;
}

two_distinct : 2 ≤ distinct (noted (codes "b") (noon + second) stalled_once)
unfolding distinct prune_events text_cmp
two_distinct = omega arith

warm : in_cooldown (noon + second) stalled_once ≡ false
unfolding in_cooldown
warm = refl

record_stall-cooldown_example :
    ((record_stall (codes "b") (noon + second) stalled_once).active_limit ≡ 2)
    × ((record_stall (codes "b") (noon + second) stalled_once).consecutive ≡ 1)
    × ((later : Time) (n : ℕ)
        → admit later n (record_stall (codes "b") (noon + second) stalled_once)
          ≡ (if ltb later (noon + second + 180 * second) then false else ltb n 2))
record_stall-cooldown_example =
    record_stall-cooldown stalled_once (codes "b") (noon + second) refl warm two_distinct
      (omega arith) (omega arith)

-- A throttle at half its workers, with nothing in its window.
abbrev halved_throttle : Throttle
halved_throttle = record stalled_once { active_limit = 2; events = [] }

raised : (maybe_recover noon halved_throttle).active_limit ≡ 3
unfolding maybe_recover
raised = refl

maybe_recover_once_example :
    (maybe_recover (noon + second) (maybe_recover noon halved_throttle)).active_limit ≡ 3
maybe_recover_once_example =
    maybe_recover_once halved_throttle noon (noon + second) (omega arith) (omega arith) raised

halved-IsCalm : IsCalm noon halved_throttle
unfolding in_cooldown
halved-IsCalm = record { enabled = refl; quiet = refl; warm = refl; due = omega arith }

windows-limit_example : (windows 5 noon halved_throttle).active_limit ≡ 4
windows-limit_example = windows-limit 5 noon halved_throttle halved-IsCalm (omega arith)

abbrev no_refusal : Failure
no_refusal = record { message = codes "exit status 1"; refused_by = none }

abbrev refusal : Failure
refusal = record { message = codes "HTTP 403"; refused_by = some (codes "mf_akamai") }

abbrev grab : Download
grab = record blank { id = codes "a"; pid = codes "b0000001"; quality = codes "1080p" }

abbrev attempts : List Attempt
attempts =
    record { now = noon; cooling = false; code = ffmpeg_error; failure = no_refusal }
    ∷ record { now = noon + minute; cooling = true; code = stalled; failure = no_refusal }
    ∷ []

attempts-StaysRetryable : StaysRetryable attempts grab
unfolding fail_row
attempts-StaysRetryable = (refl, (refl, tt))

retries_bounded_example : 2 ≤ 30
retries_bounded_example = retries_bounded attempts grab refl attempts-StaysRetryable

stall_retried : (fail_row noon false stalled no_refusal grab).retryable ≡ true
unfolding fail_row
stall_retried = refl

retry_after_bounds_example :
    (noon + 30 * second ≤ (fail_row noon false stalled no_refusal grab).retry_after)
    × ((fail_row noon false stalled no_refusal grab).retry_after ≤ noon + 5 * minute)
retry_after_bounds_example = retry_after_bounds noon false stalled no_refusal grab stall_retried

counters_are_separate_example :
    ((fail_row noon false truncated no_refusal grab).retry_count ≡ 1)
    × ((fail_row noon false truncated no_refusal grab).stall_credits ≡ 0)
    × ((fail_row noon false truncated no_refusal grab).stall_count ≡ 0)
    × ((fail_row noon false truncated no_refusal grab).metadata_failures ≡ 0)
    × ((fail_row noon false truncated no_refusal grab).cdn_failures ≡ 1)
    × ((fail_row noon false truncated no_refusal grab).quality ≡ codes "1080p")
    × ((fail_row noon false truncated no_refusal grab).failure_code ≡ truncated)
counters_are_separate_example = counters_are_separate noon false truncated no_refusal grab

-- A row whose last attempt was truncated, at 1080p.
abbrev degraded_grab : Download
degraded_grab = record grab { cdn_failures = 1; failure_code = truncated }

full_hd : quality_to_height (codes "1080p") ≡ pos 1080
unfolding quality_to_height text_cmp
full_hd = refl

attempt_quality-IsAttemptFor_example :
    IsAttemptFor 1080 (should_degrade degraded_grab) (attempt_quality degraded_grab)
attempt_quality-IsAttemptFor_example =
    attempt_quality-IsAttemptFor degraded_grab 1080 full_hd (omega arith)

abbrev akamai : VideoStream
akamai = record no_stream { height = 1080; supplier = codes "mf_akamai"; format = codes "hls" }

abbrev cloudfront : VideoStream
cloudfront = record no_stream {
  height = 1080;
  supplier = codes "mf_cloudfront";
  format = codes "dash";
}

abbrev streams : List VideoStream
streams = akamai ∷ cloudfront ∷ []

pick_stream-IsPick_example :
    IsPick (quality_to_height (codes "1080p")) [] streams (pick_stream streams (codes "1080p") [])
pick_stream-IsPick_example = pick_stream-IsPick streams (codes "1080p") [] akamai (inl refl)

cloudfront_free : is_excluded (add_failed_supplier [] (codes "mf_akamai")) cloudfront ≡ false
unfolding member add_failed_supplier text_cmp
cloudfront_free = refl

cloudfront_near :
    diff (quality_to_height (codes "1080p")) cloudfront
    ≡ diff
        (quality_to_height (codes "1080p"))
        (next_pick noon false refusal grab streams (codes "1080p"))
unfolding quality_to_height pick_stream fail_row add_failed_supplier member text_cmp
cloudfront_near = refl

refused_supplier_is_avoided_example :
    text_eq (next_pick noon false refusal grab streams (codes "1080p")).supplier (codes "mf_akamai")
    ≡ false
refused_supplier_is_avoided_example =
    refused_supplier_is_avoided noon false refusal grab (codes "mf_akamai") streams (codes "1080p")
      cloudfront refl refl (inr (inl refl)) cloudfront_free cloudfront_near

abbrev variants : List HlsVariant
variants =
    record { bandwidth = 5_000_000; height = 1080; url = codes "a" }
    ∷ record { bandwidth = 2_500_000; height = 720; url = codes "b" }
    ∷ []

select_variant_by_height-IsChoice_example :
    IsChoice 540 variants (select_variant_by_height variants 540)
select_variant_by_height-IsChoice_example = select_variant_by_height-IsChoice variants 540

abbrev stderr_lines : List Text
stderr_lines = codes " HTTP error 403 " ∷ codes "frame= 1" ∷ codes "" ∷ codes "Exiting" ∷ []

collect-newest_example :
    (older : List Text) × (diagnostics stderr_lines ≡ older ++ collect 1 [] stderr_lines)
    × (length (collect 1 [] stderr_lines) ≡ min 1 (length (diagnostics stderr_lines)))
collect-newest_example = collect-newest 1 stderr_lines

collected : collect 1 [] stderr_lines ≡ codes "Exiting" ∷ []
unfolding collect
collected = refl
