-- ===== src/Download/Watchdog/Window.antt =====
-- The bounds of the watchdog's window (internal/download/ffmpeg.go).
use iplayer_arr.Prelude.{ℕ, ◌*◌, ◌≤◌, Bool, true, false, arith, ◌==◌, max, if◌then◌else◌}
use iplayer_arr.Store.Types.{second, minute}
use iplayer_arr.Download.Watchdog.{
  escalate_watchdog, effective_watchdog_timeout, finalize_aware_threshold, faststart_finalize_grace,
}

escalate_bounds :
    (base stalls : ℕ)
    → (base ≤ escalate_watchdog base stalls)
      × (escalate_watchdog base stalls ≤ max base (10 * minute))
unfolding escalate_watchdog
escalate_bounds base stalls = (ground arith, ground arith)

-- The base of a job's window.
abbrev base_of : ℕ → ℕ
base_of timeout = if timeout == 0 then 60 * second else timeout

-- Whatever a job's timeout and number of stalls are, and near completion or not, the window is at
-- least the timeout (60 seconds if none is set), and at most the larger of that and 10 minutes.
window_bounds :
    (timeout stalls : ℕ) (near_complete : Bool)
    → (base_of timeout
        ≤ finalize_aware_threshold
            (effective_watchdog_timeout timeout stalls)
            faststart_finalize_grace
            near_complete)
      × (finalize_aware_threshold
            (effective_watchdog_timeout timeout stalls)
            faststart_finalize_grace
            near_complete
          ≤ max (base_of timeout) (10 * minute))
unfolding effective_watchdog_timeout finalize_aware_threshold
window_bounds timeout stalls false = escalate_bounds (base_of timeout) stalls
window_bounds timeout stalls true =
    let (low, high) = escalate_bounds (base_of timeout) stalls in
    (ground (arith, low), ground (arith, high))
