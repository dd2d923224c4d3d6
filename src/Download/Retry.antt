-- ===== src/Download/Retry.antt =====
-- failDownload and its budgets (internal/download/worker.go), and addFailedSupplier (supplier.go):
-- what one failed attempt does to the row.
pub mod Budget
pub mod Delay
pub mod Refusal
use iplayer_arr.Prelude.{
  ℕ, zero, suc, ◌+◌, ◌-◌, ◌*◌, Bool, true, false, ◌||◌, ◌&&◌, Option, none, some, List, [], ◌∷◌,
  ◌++◌, Text, text_eq, member, ltb, is_empty, if◌then◌else◌,
}
use iplayer_arr.Store.Types.{
  Time, second, minute, Download, FailCode, failed, no_code, geo_blocked, expired,
  stream_unavailable, not_yet_available, ffmpeg_error, truncated, stalled, timeout, unknown,
  metadata_unavailable,
}
use iplayer_arr.Download.Throttle.{max_stalls, max_stall_credits, stall_backoff}

abbrev max_retries : ℕ
max_retries = 3

abbrev max_not_yet_available_retries : ℕ
max_not_yet_available_retries = 12

abbrev not_yet_available_retry_interval : ℕ
not_yet_available_retry_interval = 5 * minute

abbrev max_metadata_failures : ℕ
max_metadata_failures = 12

-- The error of a failed attempt: its text, and the supplier if a supplierRefusedError is in it.
pub record Failure : Type 0 where
  pub message : Text
  pub refused_by : Option Text

unfoldable pub add_failed_supplier : List Text → Text → List Text
add_failed_supplier suppliers supplier =
    if is_empty supplier || member suppliers supplier then suppliers else suppliers ++ supplier ∷ []

-- Retryable, and the time of the next attempt if so.
abbrev pub set_retry : Bool → Time → Download → Download
set_retry true at dl = record dl { retryable = true; retry_after = at }
set_retry false at dl = record dl { retryable = false }

-- A stall is charged to the row, or frozen while a cooldown lasts and credits are left.
abbrev pub count_stall : Bool → Download → Download
count_stall cooling dl =
    if cooling && ltb dl.stall_credits max_stall_credits
    then record dl { stall_credits = suc dl.stall_credits }
    else record dl { stall_count = suc dl.stall_count }

unfoldable pub fail_stalled : Time → Bool → Download → Download
unfolding stall_backoff
fail_stalled now cooling dl =
    let d = count_stall cooling dl in
    set_retry (ltb d.stall_count max_stalls) (now + stall_backoff d.stall_count) d

unfoldable fail_permanent : Download → Download
fail_permanent dl = record dl { retry_count = suc dl.retry_count; retryable = false }

unfoldable fail_not_yet_available : Time → Download → Download
fail_not_yet_available now dl =
    let d = record dl { retry_count = suc dl.retry_count } in
    set_retry (ltb d.retry_count max_not_yet_available_retries)
      (now + not_yet_available_retry_interval) d

unfoldable fail_metadata : Time → Download → Download
fail_metadata now dl =
    let d = record dl { metadata_failures = suc dl.metadata_failures } in
    set_retry (ltb d.metadata_failures max_metadata_failures)
      (now + not_yet_available_retry_interval) d

abbrev pub is_cdn_code : FailCode → Bool
is_cdn_code no_code = false
is_cdn_code geo_blocked = false
is_cdn_code expired = false
is_cdn_code stream_unavailable = false
is_cdn_code not_yet_available = false
is_cdn_code ffmpeg_error = true
is_cdn_code truncated = true
is_cdn_code stalled = false
is_cdn_code timeout = false
is_cdn_code unknown = false
is_cdn_code metadata_unavailable = false

-- A refusal is held against the supplier, any other stream failure against the quality.
abbrev pub blame : FailCode → Option Text → Download → Download
blame code (some supplier) dl = record dl {
  failed_suppliers = add_failed_supplier dl.failed_suppliers supplier;
}
blame code none dl =
    if is_cdn_code code then record dl { cdn_failures = suc dl.cdn_failures } else dl

-- The loop of the exponential backoff runs retryCount - 1 times, like that of stallBackoff.
unfoldable pub fail_default : Time → FailCode → Failure → Download → Download
unfolding add_failed_supplier stall_backoff
fail_default now code f dl =
    let d = blame code f.refused_by (record dl { retry_count = suc dl.retry_count }) in
    set_retry (ltb d.retry_count max_retries) (now + stall_backoff d.retry_count) d

-- The switch on the code.
unfoldable charge : Time → Bool → FailCode → Failure → Download → Download
unfolding fail_stalled fail_permanent fail_not_yet_available fail_metadata fail_default
charge now cooling stalled f dl = fail_stalled now cooling dl
charge now cooling geo_blocked f dl = fail_permanent dl
charge now cooling expired f dl = fail_permanent dl
charge now cooling not_yet_available f dl = fail_not_yet_available now dl
charge now cooling metadata_unavailable f dl = fail_metadata now dl
charge now cooling no_code f dl = fail_default now no_code f dl
charge now cooling stream_unavailable f dl = fail_default now stream_unavailable f dl
charge now cooling ffmpeg_error f dl = fail_default now ffmpeg_error f dl
charge now cooling truncated f dl = fail_default now truncated f dl
charge now cooling timeout f dl = fail_default now timeout f dl
charge now cooling unknown f dl = fail_default now unknown f dl

-- The row as failDownload stores it first; `cooling` is what the throttle's inCooldown says.
unfoldable pub fail_row : Time → Bool → FailCode → Failure → Download → Download
unfolding charge
fail_row now cooling code f dl =
    charge now cooling code f
      (record dl { status = failed; failure_code = code; error = f.message })

-- The budget that an attempt of the row's failure code has used.
unfoldable attempt_count : Download → ℕ
attempt_count dl = elim dl.failure_code [
  | stalled ↦ dl.stall_count
  | metadata_unavailable ↦ dl.metadata_failures
  | _ ↦ dl.retry_count
]
