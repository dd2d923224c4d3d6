-- ===== src/Download/Throttle/Limit.antt =====
-- The concurrency limit stays between the floor and the worker count, whatever the clock reads.
use iplayer_arr.Prelude.{ℕ, ◌≤◌, List, [], ◌∷◌, Text, arith}
use iplayer_arr.Store.Types.{Time}
use iplayer_arr.Download.Throttle.{
  Config, Throttle, new_throttle, record_stall, record_clean, maybe_recover, clear_cooldown,
  snapshot,
}

pub record IsValid (t : Throttle) : Type 0 where
  pub floor_pos : 1 ≤ t.cfg.floor
  pub threshold_pos : 1 ≤ t.cfg.threshold
  pub floor_le : t.cfg.floor ≤ t.active_limit
  pub limit_le : t.active_limit ≤ t.ceiling

new_throttle-IsValid :
    (cfg : Config) (ceiling : ℕ) (now : Time) → IsValid (new_throttle cfg ceiling now)
unfolding new_throttle
new_throttle-IsValid cfg ceiling now = ground arith

-- A call of a method of the throttle.
pub data Call : Type 0 where
  stall : Text → Call
  clean recover clear read : Call

unfoldable call : Time → Call → Throttle → Throttle
call now (stall id) t = record_stall id now t
call now clean t = record_clean now t
call now recover t = maybe_recover now t
call now clear t = clear_cooldown now t
call now read t = (snapshot now t).1

-- Calls, each with the time that its clock read.
unfoldable pub run : List (Time × Call) → Throttle → Throttle
unfolding call
run [] t = t
run ((now, c) ∷ cs) t = run cs (call now c t)

call-IsValid : (now : Time) (c : Call) (t : Throttle) → IsValid t → IsValid (call now c t)
unfolding call
call-IsValid now (stall id) t v = unfold record_stall in ground arith
call-IsValid now clean t v = unfold record_clean in ground arith
call-IsValid now recover t v = unfold maybe_recover in ground arith
call-IsValid now clear t v = unfold clear_cooldown in ground arith
call-IsValid now read t v = unfold snapshot in ground arith

run-IsValid : (cs : List (Time × Call)) (t : Throttle) → IsValid t → IsValid (run cs t)
unfolding run
run-IsValid [] t v = v
run-IsValid ((now, c) ∷ cs) t v = run-IsValid cs (call now c t) (call-IsValid now c t v)

-- From a new throttle, after any calls at any times, the floor and the threshold are at least 1
-- and the limit lies between the floor and the worker count.
pub run-new_throttle-IsValid :
    (cfg : Config) (ceiling : ℕ) (start : Time) (cs : List (Time × Call))
    → IsValid (run cs (new_throttle cfg ceiling start))
run-new_throttle-IsValid cfg ceiling start cs =
    run-IsValid cs (new_throttle cfg ceiling start) (new_throttle-IsValid cfg ceiling start)
