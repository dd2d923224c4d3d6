-- ===== src/Download/Throttle/Recovery.antt =====
-- The recovery: one step for each clean window, up to the worker count.
use iplayer_arr.Prelude.{
  ℕ, zero, suc, ◌+◌, ◌≤◌, ◌<◌, ◌≡◌, true, false, [], arith, ltb, min, if◌then◌else◌,
}
use iplayer_arr.Store.Types.{Time}
use iplayer_arr.Download.Throttle.{Throttle, in_cooldown, maybe_recover}

-- When a call of maybeRecover raised the limit, a second call within the clean interval that
-- begins with it leaves the limit as it is.
pub maybe_recover_once :
    (t : Throttle) (now later : Time)
    → now ≤ later
    → later < now + t.cfg.cooldown_up
    → (maybe_recover now t).active_limit ≡ suc t.active_limit
    → (maybe_recover later (maybe_recover now t)).active_limit ≡ suc t.active_limit
unfolding maybe_recover
maybe_recover_once t now later h k raised = ground arith

-- A throttle with no stall in its window and no cooldown ahead.
pub record IsCalm (now : Time) (t : Throttle) : Type 0 where
  pub enabled : t.cfg.enabled ≡ true
  pub quiet : t.events ≡ []
  pub warm : in_cooldown now t ≡ false
  pub due : t.next_recover_at ≤ now

-- One call of maybe_recover at the end of each of n windows.
unfoldable pub windows : ℕ → Time → Throttle → Throttle
windows zero now t = t
windows (suc n) now t = windows n (now + t.cfg.cooldown_up) (maybe_recover now t)

IsCalm-step :
    (now : Time) (t : Throttle)
    → IsCalm now t
    → ((maybe_recover now t).active_limit
        ≡ (if ltb t.active_limit t.ceiling then suc t.active_limit else t.active_limit))
      × ((maybe_recover now t).ceiling ≡ t.ceiling)
      × ((maybe_recover now t).cfg ≡ t.cfg)
      × IsCalm (now + t.cfg.cooldown_up) (maybe_recover now t)
unfolding maybe_recover
IsCalm-step now t c = (
  ground arith,
  ground arith,
  ground arith,
  record { enabled = ground arith; quiet = ground arith; warm = ground arith; due = ground arith },
)

-- For an enabled throttle with no stall in its window, no cooldown and a recovery that is due,
-- whose limit is at most the worker count: n calls of maybeRecover, one at the end of each of n
-- clean intervals, raise the limit by n, or to the worker count if that is less.
pub windows-limit :
    (n : ℕ) (now : Time) (t : Throttle)
    → IsCalm now t
    → t.active_limit ≤ t.ceiling
    → (windows n now t).active_limit ≡ min t.ceiling (t.active_limit + n)
unfolding windows
windows-limit zero now t c h = omega arith
windows-limit (suc n) now t c h =
    let (raised, top, _, next) = IsCalm-step now t c in
    ground
      (arith, raised, top, windows-limit n (now + t.cfg.cooldown_up) (maybe_recover now t) next)
