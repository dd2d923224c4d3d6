-- ===== src/Download/Throttle/Cooldown.antt =====
-- The cooldown: how long it lasts, and what it stops.
use iplayer_arr.Prelude.{
  ℕ, zero, suc, ◌+◌, ◌*◌, ◌/◌, ◌^◌, ◌≤◌, ◌<◌, ◌≡◌, refl, true, false, List, [], ◌∷◌, ◌++◌, Text,
  arith, ltb, leb, leb→le, Bool-cases, inl, inr, min, max, if◌then◌else◌, ◌∙◌,
}
use native.Mathlib.Nat.{pow-suc}
use iplayer_arr.Store.Types.{Time}
use iplayer_arr.Download.Throttle.{
  StallEvent, Throttle, unix_epoch, unix_nano, in_cooldown, admit, prune_events, distinct, backoff,
  halved, trip, record_stall,
}

pow_pos : (n : ℕ) → 1 ≤ 2 ^ n
pow_pos zero = omega arith
pow_pos (suc n) = omega (arith, pow-suc 2 n, pow_pos n)

le-mul_pow : (d n : ℕ) → d ≤ d * 2 ^ n
le-mul_pow d n = grind (arith, pow_pos n)

double_pow : (d n : ℕ) → d * 2 ^ suc n ≡ d * 2 * 2 ^ n
double_pow d n = grind (arith, pow-suc 2 n)

-- The doubling loop with its early exit is the doubling, capped.
backoff_closed : (n top d : ℕ) → d ≤ top → backoff n top d ≡ min top (d * 2 ^ n)
unfolding backoff
backoff_closed zero top d h = omega arith
backoff_closed (suc n) top d h = elim (Bool-cases (leb top (d * 2))) [
  | inl e ↦ rw e (omega (arith, leb→le top (d * 2) e, le-mul_pow (d * 2) n, double_pow d n))
  | inr e ↦ rw e (rw double_pow (backoff_closed n top (d * 2) (ground arith)))
]

abbrev pub noted : Text → Time → Throttle → List StallEvent
noted id now t = prune_events t.cfg.window now (t.events ++ record { id = id; at = now } ∷ [])

record_stall-trips :
    (t : Throttle) (id : Text) (now : Time)
    → t.cfg.enabled ≡ true
    → in_cooldown now t ≡ false
    → t.cfg.threshold ≤ distinct (noted id now t)
    → record_stall id now t ≡ trip now (record t { events = noted id now t })
unfolding record_stall
record_stall-trips t id now e c h = ground arith

trip-admit :
    (t : Throttle) (now later d : Time) (n : ℕ)
    → t.cfg.enabled ≡ true
    → unix_epoch < now
    → t.cooling_until_nanos ≡ unix_nano (now + d)
    → admit later n t ≡ (if ltb later (now + d) then false else ltb n t.active_limit)
unfolding admit
trip-admit t now later d n e past deadline = ground arith

-- For a throttle that is enabled and not cooling, whose base cooldown is at most the maximal one,
-- at a time after 1970: a stall, when the stalls of the window then name at least `threshold`
-- downloads, halves the limit down to the floor and counts one more trip; every download is
-- refused for min(max_cooldown, base_cooldown * 2^consecutive), and after that admitted while
-- fewer than the halved limit are claimed.
pub record_stall-cooldown :
    (t : Throttle) (id : Text) (now : Time)
    → t.cfg.enabled ≡ true
    → in_cooldown now t ≡ false
    → t.cfg.threshold ≤ distinct (noted id now t)
    → t.cfg.base_cooldown ≤ t.cfg.max_cooldown
    → unix_epoch < now
    → ((record_stall id now t).active_limit ≡ max t.cfg.floor (t.active_limit / 2))
      × ((record_stall id now t).consecutive ≡ suc t.consecutive)
      × ((later : Time) (n : ℕ)
          → admit later n (record_stall id now t) ≡ (
              if ltb later (now + min t.cfg.max_cooldown (t.cfg.base_cooldown * 2 ^ t.consecutive))
              then false
              else ltb n (max t.cfg.floor (t.active_limit / 2))))
record_stall-cooldown t id now e c h capped past =
    let limit : halved t ≡ max t.cfg.floor (t.active_limit / 2) = ground arith in
    rw (record_stall-trips t id now e c h) (
      limit,
      refl,
      (λ later n.
          let tripped = trip now (record t { events = noted id now t }) in
          trip-admit tripped now later
            (backoff t.consecutive t.cfg.max_cooldown t.cfg.base_cooldown) n e past refl
          ∙ rw (backoff_closed t.consecutive t.cfg.max_cooldown t.cfg.base_cooldown capped, limit)
              refl),
    )

-- While an enabled throttle cools, a stall is only noted in the window: the deadline, the limit
-- and the backoff stay.
record_stall-cooling :
    (t : Throttle) (id : Text) (now : Time)
    → t.cfg.enabled ≡ true
    → in_cooldown now t ≡ true
    → record_stall id now t ≡ record t { events = noted id now t }
unfolding record_stall
record_stall-cooling t id now e c = ground arith
