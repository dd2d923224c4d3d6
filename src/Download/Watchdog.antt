-- ===== src/Download/Watchdog.antt =====
-- The watchdog's window and the tail of ffmpeg's error lines (internal/download/ffmpeg.go). A window
-- is a number of nanoseconds in an int64.
pub mod Window
pub mod Tail
use iplayer_arr.Prelude.{
  trim_space, ℕ, ◌+◌, ◌-◌, ◌*◌, ◌%◌, ◌^◌, Bool, true, false, ◌&&◌, ◌||◌, not, List, [], ◌∷◌, ◌++◌,
  Text, codes, has_prefix, is_empty, ltb, leb, ◌==◌, length, drop, if◌then◌else◌,
}
use iplayer_arr.Store.Types.{second, minute}

abbrev progress_watchdog_timeout : ℕ
progress_watchdog_timeout = 60 * second

abbrev watchdog_escalation_shift_cap : ℕ
watchdog_escalation_shift_cap = 2

abbrev watchdog_escalation_max_timeout : ℕ
watchdog_escalation_max_timeout = 10 * minute

abbrev pub faststart_finalize_grace : ℕ
faststart_finalize_grace = 3 * minute

-- The shifted window may wrap to a negative int64, which is below every base.
unfoldable pub escalate_watchdog : ℕ → ℕ → ℕ
escalate_watchdog base stall_count =
    let shift =
      if ltb watchdog_escalation_shift_cap stall_count
      then watchdog_escalation_shift_cap
      else stall_count in
    let shifted = base * 2 ^ shift % 2 ^ 64 in
    let escalated =
      if ltb watchdog_escalation_max_timeout shifted
      then watchdog_escalation_max_timeout
      else shifted in
    if leb (2 ^ 63) shifted then base else if ltb escalated base then base else escalated

-- The WatchdogTimeout and the StallCount of a job; 0 is the unset timeout.
unfoldable pub effective_watchdog_timeout : ℕ → ℕ → ℕ
unfolding escalate_watchdog
effective_watchdog_timeout timeout stall_count =
    escalate_watchdog (if timeout == 0 then progress_watchdog_timeout else timeout) stall_count

unfoldable pub finalize_aware_threshold : ℕ → ℕ → Bool → ℕ
finalize_aware_threshold base grace false = base
finalize_aware_threshold base grace true = if ltb base grace then grace else base

abbrev progress_field_prefixes : List Text
progress_field_prefixes =
    codes "frame="
    ∷ codes "fps="
    ∷ codes "size="
    ∷ codes "time="
    ∷ codes "bitrate="
    ∷ codes "speed="
    ∷ codes "out_time="
    ∷ codes "out_time_ms="
    ∷ codes "out_time_us="
    ∷ codes "dup="
    ∷ codes "drop="
    ∷ []

unfoldable has_any_prefix : List Text → Text → Bool
unfolding has_prefix
has_any_prefix [] line = false
has_any_prefix (p ∷ ps) line = has_prefix line p || has_any_prefix ps line

unfoldable pub looks_like_progress_line : Text → Bool
unfolding has_any_prefix
looks_like_progress_line line = has_any_prefix progress_field_prefixes line

-- diag[len(diag)-max:] where there are more than max
abbrev pub newest : ℕ → List Text → List Text
newest cap diag = if ltb cap (length diag) then drop (length diag - cap) diag else diag

unfoldable pub append_diag_line : List Text → Text → ℕ → List Text
unfolding looks_like_progress_line trim_space
append_diag_line diag line cap =
    let trimmed = trim_space line in
    if is_empty trimmed
    then diag
    else if looks_like_progress_line trimmed
    then diag
    else newest cap (diag ++ trimmed ∷ [])
