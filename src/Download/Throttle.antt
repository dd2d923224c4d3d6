-- ===== src/Download/Throttle.antt =====
-- internal/download/throttle.go: the adaptive throttle. Every method takes the time that its clock
-- reads. A time is in nanoseconds since Go's zero time, and the cooldown deadline in nanoseconds
-- since 1970, where 0 means that there is none. The limits are far below 2^31, so the int32 of
-- activeLimit holds them as they are.
pub mod Limit
pub mod Cooldown
pub mod Recovery
use iplayer_arr.Prelude.{
  ℕ, zero, suc, ◌+◌, ◌-◌, ◌*◌, ◌/◌, Bool, true, false, ◌&&◌, ◌||◌, not, List, [], ◌∷◌, ◌++◌, Text,
  text_eq, length, ltb, leb, ◌==◌, if◌then◌else◌,
}
use iplayer_arr.Store.Types.{Time, second}

abbrev pub max_stalls : ℕ
max_stalls = 3

abbrev pub max_stall_credits : ℕ
max_stall_credits = 6

pub record Config : Type 0 where
  pub enabled : Bool
  pub threshold : ℕ
  pub window : ℕ
  pub base_cooldown : ℕ
  pub max_cooldown : ℕ
  pub cooldown_up : ℕ
  pub floor : ℕ

abbrev pub default_config : Config
default_config = record {
  enabled = true;
  threshold = 2;
  window = 120 * second;
  base_cooldown = 180 * second;
  max_cooldown = 900 * second;
  cooldown_up = 180 * second;
  floor = 1;
}

pub record StallEvent : Type 0 where
  pub id : Text
  pub at : Time

pub record Snapshot : Type 0 where
  pub active_limit : ℕ
  pub max_workers : ℕ
  pub throttled : Bool
  pub cooldown_until : Time
  pub stalls_in_window : ℕ

pub record Throttle : Type 0 where
  pub cfg : Config
  pub ceiling : ℕ
  pub active_limit : ℕ
  pub events : List StallEvent
  pub cooling_until_nanos : ℕ
  pub consecutive : ℕ
  pub next_recover_at : Time

-- 1970-01-01, counted from 0001-01-01; the program's clock reads later times.
abbrev pub unix_epoch : Time
unix_epoch = 62_135_596_800 * second

-- time.Time.UnixNano
abbrev pub unix_nano : Time → ℕ
unix_nano t = t - unix_epoch

-- The four clamps of newAdaptiveThrottle.
abbrev at_least_one : ℕ → ℕ
at_least_one n = if ltb n 1 then 1 else n

abbrev pub at_most : ℕ → ℕ → ℕ
at_most bound n = if ltb bound n then bound else n

unfoldable pub new_throttle : Config → ℕ → Time → Throttle
new_throttle cfg ceiling now =
    let top = at_least_one ceiling in
    let cfg' = record cfg {
      floor = at_most top (at_least_one cfg.floor);
      threshold = at_least_one cfg.threshold;
    } in
    record {
      cfg = cfg';
      ceiling = top;
      active_limit = top;
      events = [];
      cooling_until_nanos = 0;
      consecutive = 0;
      next_recover_at = now + cfg.cooldown_up;
    }

-- coolingUntil; 0 is Go's zero time
unfoldable cooling_until : Throttle → Time
cooling_until t = if t.cooling_until_nanos == 0 then 0 else unix_epoch + t.cooling_until_nanos

-- inCooldown and inCooldownLocked, which differ in how they read the field
unfoldable pub in_cooldown : Time → Throttle → Bool
in_cooldown now t = not (t.cooling_until_nanos == 0) && ltb (unix_nano now) t.cooling_until_nanos

unfoldable pub admit : Time → ℕ → Throttle → Bool
unfolding in_cooldown
admit now claimed_len t =
    if not t.cfg.enabled
    then true
    else if in_cooldown now t
    then false
    else ltb claimed_len t.active_limit

-- The prefix of events that are not after now - window.
unfoldable pub prune_events : ℕ → Time → List StallEvent → List StallEvent
prune_events window now [] = []
prune_events window now (e ∷ es) =
    let rest = prune_events window now es in if leb (e.at + window) now then rest else e ∷ es

unfoldable prune : Time → Throttle → Throttle
unfolding prune_events
prune now t = record t { events = prune_events t.cfg.window now t.events }

abbrev has_event : Text → List StallEvent → Bool
has_event id [] = false
has_event id (e ∷ es) = text_eq e.id id || has_event id es

-- distinctLocked: how many ids the events name
unfoldable pub distinct : List StallEvent → ℕ
distinct [] = 0
distinct (e ∷ es) = let n = distinct es in if has_event e.id es then n else suc n

-- The doubling loop of recordStall over `consecutive` rounds.
unfoldable pub backoff : ℕ → ℕ → ℕ → ℕ
backoff zero top d = d
backoff (suc i) top d = let rest = backoff i top (d * 2) in if leb top (d * 2) then top else rest

abbrev pub halved : Throttle → ℕ
halved t = let next = t.active_limit / 2 in if ltb next t.cfg.floor then t.cfg.floor else next

abbrev pub trip : Time → Throttle → Throttle
trip now t =
    let d = backoff t.consecutive t.cfg.max_cooldown t.cfg.base_cooldown in
    record t {
      cooling_until_nanos = unix_nano (now + d);
      consecutive = suc t.consecutive;
      active_limit = halved t;
      next_recover_at = now + d + t.cfg.cooldown_up;
    }

unfoldable pub record_stall : Text → Time → Throttle → Throttle
unfolding prune in_cooldown distinct backoff
record_stall id now t =
    let noted = prune now (record t { events = t.events ++ record { id = id; at = now } ∷ [] }) in
    if not t.cfg.enabled
    then t
    else if in_cooldown now noted
    then noted
    else if ltb (distinct noted.events) t.cfg.threshold
    then noted
    else trip now noted

unfoldable pub record_clean : Time → Throttle → Throttle
unfolding in_cooldown
record_clean now t =
    if not t.cfg.enabled then t else if in_cooldown now t then t else record t { consecutive = 0 }

abbrev is_quiet : List StallEvent → Bool
is_quiet [] = true
is_quiet (e ∷ es) = false

abbrev step_up : Time → Throttle → Throttle
step_up now t =
    let limit = if ltb t.active_limit t.ceiling then suc t.active_limit else t.active_limit in
    record t {
      active_limit = limit;
      consecutive = if leb t.ceiling limit then 0 else t.consecutive;
      next_recover_at = now + t.cfg.cooldown_up;
    }

unfoldable pub maybe_recover : Time → Throttle → Throttle
unfolding prune in_cooldown
maybe_recover now t =
    let pruned = prune now t in
    if not t.cfg.enabled
    then t
    else if in_cooldown now pruned || not (is_quiet pruned.events)
    then pruned
    else if ltb now t.next_recover_at
    then pruned
    else step_up now pruned

unfoldable pub clear_cooldown : Time → Throttle → Throttle
clear_cooldown now t = record t {
  cooling_until_nanos = 0;
  active_limit = t.ceiling;
  consecutive = 0;
  events = [];
  next_recover_at = now + t.cfg.cooldown_up;
}

-- The snapshot prunes the events as it reads them.
unfoldable pub snapshot : Time → Throttle → Snapshot × Throttle
unfolding prune in_cooldown cooling_until distinct
snapshot now t =
    let pruned = prune now t in
    (
      record {
        active_limit = pruned.active_limit;
        max_workers = pruned.ceiling;
        throttled = in_cooldown now pruned || ltb pruned.active_limit pruned.ceiling;
        cooldown_until = cooling_until pruned;
        stalls_in_window = distinct pruned.events;
      },
      pruned,
    )

-- The loop of stallBackoff, for i := 1; i < stallCount; i++.
unfoldable tripled : ℕ → ℕ → ℕ
tripled zero d = d
tripled (suc i) d = tripled i (d * 3)

unfoldable pub stall_backoff : ℕ → ℕ
unfolding tripled
stall_backoff stall_count = tripled (stall_count - 1) (30 * second)
