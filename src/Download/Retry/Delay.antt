-- ===== src/Download/Retry/Delay.antt =====
-- When a failed row is tried again.
use iplayer_arr.Prelude.{
  ℕ, zero, suc, ◌+◌, ◌*◌, ◌≤◌, ◌<◌, ◌≡◌, refl, Bool, true, false, arith, none, some, ltb, ltb→lt,
  not, ◌&&◌, if◌then◌else◌,
}
use iplayer_arr.Store.Types.{
  Time, second, minute, Download, FailCode, no_code, geo_blocked, expired, stream_unavailable,
  not_yet_available, ffmpeg_error, truncated, stalled, timeout, unknown, metadata_unavailable,
}
use iplayer_arr.Download.Throttle.{stall_backoff}
use iplayer_arr.Download.Retry.{
  Failure, fail_row, fail_default, fail_stalled, set_retry, blame, count_stall,
}

-- The codes whose failures are charged to a counter of their own.
abbrev is_own_budget : FailCode → Bool
is_own_budget stalled = true
is_own_budget metadata_unavailable = true
is_own_budget _ = false

abbrev is_stall : FailCode → Bool
is_stall stalled = true
is_stall _ = false

abbrev is_stream_failure : FailCode → Bool
is_stream_failure ffmpeg_error = true
is_stream_failure truncated = true
is_stream_failure _ = false

abbrev is_metadata : FailCode → Bool
is_metadata metadata_unavailable = true
is_metadata _ = false

abbrev is_refusal : Failure → Bool
is_refusal f = elim f.refused_by [ none ↦ false | some s ↦ true ]

-- Below three failures the backoff is 30 or 90 seconds.
backoff_bounds : (n : ℕ) → n < 3 → (30 * second ≤ stall_backoff n) × (stall_backoff n ≤ 90 * second)
unfolding stall_backoff
backoff_bounds zero h = omega arith
backoff_bounds (suc zero) h = omega arith
backoff_bounds (suc (suc zero)) h = omega arith
backoff_bounds (suc (suc (suc n))) h = omega arith

set_retry_bounds :
    (b : Bool) (now delay : Time) (dl : Download)
    → (b ≡ true → (30 * second ≤ delay) × (delay ≤ 5 * minute))
    → (set_retry b (now + delay) dl).retryable ≡ true
    → (now + 30 * second ≤ (set_retry b (now + delay) dl).retry_after)
      × ((set_retry b (now + delay) dl).retry_after ≤ now + 5 * minute)
set_retry_bounds true now delay dl h r = let (low, high) = h refl in (omega arith, omega arith)
set_retry_bounds false now delay dl h r = cc

few_bounds :
    (n : ℕ) → ltb n 3 ≡ true → (30 * second ≤ stall_backoff n) × (stall_backoff n ≤ 5 * minute)
few_bounds n h = let (low, high) = backoff_bounds n (ltb→lt n 3 h) in (omega arith, omega arith)

default_bounds :
    (now : Time) (code : FailCode) (f : Failure) (dl : Download)
    → (fail_default now code f dl).retryable ≡ true
    → (now + 30 * second ≤ (fail_default now code f dl).retry_after)
      × ((fail_default now code f dl).retry_after ≤ now + 5 * minute)
unfolding fail_default
default_bounds now code f dl =
    let d = blame code f.refused_by (record dl { retry_count = suc dl.retry_count }) in
    set_retry_bounds (ltb d.retry_count 3) now (stall_backoff d.retry_count) d
      (few_bounds d.retry_count)

stalled_bounds :
    (now : Time) (cooling : Bool) (dl : Download)
    → (fail_stalled now cooling dl).retryable ≡ true
    → (now + 30 * second ≤ (fail_stalled now cooling dl).retry_after)
      × ((fail_stalled now cooling dl).retry_after ≤ now + 5 * minute)
unfolding fail_stalled
stalled_bounds now cooling dl =
    let d = count_stall cooling dl in
    set_retry_bounds (ltb d.stall_count 3) now (stall_backoff d.stall_count) d
      (few_bounds d.stall_count)

-- A failed attempt that leaves the row retryable sets the time of the next one between 30 seconds
-- and 5 minutes ahead.
pub retry_after_bounds :
    (now : Time) (cooling : Bool) (code : FailCode) (f : Failure) (dl : Download)
    → (fail_row now cooling code f dl).retryable ≡ true
    → (now + 30 * second ≤ (fail_row now cooling code f dl).retry_after)
      × ((fail_row now cooling code f dl).retry_after ≤ now + 5 * minute)
unfolding fail_row
retry_after_bounds now cooling stalled f dl h = stalled_bounds now cooling _ h
retry_after_bounds now cooling geo_blocked f dl h = cc
retry_after_bounds now cooling expired f dl h = cc
retry_after_bounds now cooling not_yet_available f dl h =
    set_retry_bounds _ now (5 * minute) _ (λ _. omega arith) h
retry_after_bounds now cooling metadata_unavailable f dl h =
    set_retry_bounds _ now (5 * minute) _ (λ _. omega arith) h
retry_after_bounds now cooling no_code f dl h = default_bounds now no_code f _ h
retry_after_bounds now cooling stream_unavailable f dl h =
    default_bounds now stream_unavailable f _ h
retry_after_bounds now cooling ffmpeg_error f dl h = default_bounds now ffmpeg_error f _ h
retry_after_bounds now cooling truncated f dl h = default_bounds now truncated f _ h
retry_after_bounds now cooling timeout f dl h = default_bounds now timeout f _ h
retry_after_bounds now cooling unknown f dl h = default_bounds now unknown f _ h

-- What a failed attempt adds to the counters of the row. A stall during a cooldown adds one to
-- StallCredits while these are below 6, and any other stall one to StallCount; a metadata failure
-- adds one to MetadataFailures; every other failure adds one to RetryCount; and CDNFailures is one
-- higher besides exactly where ffmpeg failed or the file was truncated and no supplier refused. No
-- other counter changes, nor does the requested quality, and the failure code is that of the attempt.
pub counters_are_separate :
    (now : Time) (cooling : Bool) (code : FailCode) (f : Failure) (dl : Download)
    → ((fail_row now cooling code f dl).retry_count
        ≡ (if is_own_budget code then dl.retry_count else suc dl.retry_count))
      × ((fail_row now cooling code f dl).stall_credits ≡ (
          if is_stall code && cooling && ltb dl.stall_credits 6
          then suc dl.stall_credits
          else dl.stall_credits))
      × ((fail_row now cooling code f dl).stall_count ≡ (
          if is_stall code && not (cooling && ltb dl.stall_credits 6)
          then suc dl.stall_count
          else dl.stall_count))
      × ((fail_row now cooling code f dl).metadata_failures
          ≡ (if is_metadata code then suc dl.metadata_failures else dl.metadata_failures))
      × ((fail_row now cooling code f dl).cdn_failures ≡ (
          if is_stream_failure code && not (is_refusal f)
          then suc dl.cdn_failures
          else dl.cdn_failures))
      × ((fail_row now cooling code f dl).quality ≡ dl.quality)
      × ((fail_row now cooling code f dl).failure_code ≡ code)
unfolding fail_row
counters_are_separate now cooling stalled f dl = (
  ground arith,
  ground arith,
  ground arith,
  ground arith,
  ground arith,
  ground arith,
  ground arith,
)
counters_are_separate now cooling code f dl = (
  ground arith,
  ground arith,
  ground arith,
  ground arith,
  ground arith,
  ground arith,
  ground arith,
)
