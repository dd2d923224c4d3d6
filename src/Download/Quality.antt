-- ===== src/Download/Quality.antt =====
-- The quality of an attempt and of a finished file (internal/download/worker.go).
pub mod Ladder
use iplayer_arr.Prelude.{
  ℕ, zero, suc, ◌+◌, ◌*◌, ◌/◌, Bool, true, false, ◌&&◌, ◌||◌, not, Option, none, some, List, [],
  ◌∷◌, ◌++◌, Text, codes, text_eq, ltb, leb, is_empty, has_prefix, contains, length, drop,
  trim_suffix, to_lower, if◌then◌else◌,
}
use iplayer_arr.Prelude.Int.{ℤ, pos, negsuc, atoi, at_least}
use iplayer_arr.Store.Types.{Download}
use iplayer_arr.Download.Retry.{is_cdn_code}

abbrev default_height : Option ℤ → ℤ
default_height none = pos 720
default_height (some h) = h

unfoldable pub quality_to_height : Text → ℤ
unfolding to_lower trim_suffix atoi
quality_to_height q = default_height (atoi (trim_suffix (to_lower q) (codes "p")))

-- qualityLadder, and the tags of heightToQualityTag
abbrev pub quality_ladder : List ℕ
quality_ladder = 2160 ∷ 1080 ∷ 720 ∷ 540 ∷ 396 ∷ []

-- The ladder from the rung where the request stands: the first rung not above it, else the lowest.
unfoldable pub rungs_from : ℤ → List ℕ → List ℕ
rungs_from h [] = []
rungs_from h (r ∷ []) = r ∷ []
rungs_from h (r ∷ r' ∷ rs) =
    let rest = rungs_from h (r' ∷ rs) in if at_least h r then r ∷ r' ∷ rs else rest

-- The rung `steps` further down, or the lowest.
unfoldable pub down : ℕ → List ℕ → ℕ
down steps [] = 0
down steps (r ∷ []) = r
down zero (r ∷ r' ∷ rs) = r
down (suc n) (r ∷ r' ∷ rs) = down n (r' ∷ rs)

unfoldable pub degrade_height : ℤ → ℕ → ℤ
unfolding rungs_from down
degrade_height requested zero = requested
degrade_height requested (suc n) = pos (down (suc n) (rungs_from requested quality_ladder))

unfoldable pub height_to_quality_tag : ℤ → Text
height_to_quality_tag h =
    if at_least h 2160
    then codes "2160p"
    else if at_least h 1080
    then codes "1080p"
    else if at_least h 720
    then codes "720p"
    else if at_least h 540
    then codes "540p"
    else if at_least h 396
    then codes "396p"
    else []

unfoldable pub should_degrade : Download → Bool
should_degrade dl = ltb 0 dl.cdn_failures && is_cdn_code dl.failure_code

abbrev int_eq : ℤ → ℤ → Bool
int_eq (pos a) (pos b) = leb a b && leb b a
int_eq (negsuc a) (negsuc b) = leb a b && leb b a
int_eq _ _ = false

unfoldable pub attempt_quality : Download → ℤ × Text
unfolding quality_to_height should_degrade degrade_height height_to_quality_tag
attempt_quality dl =
    let target = quality_to_height dl.quality in
    let degraded = degrade_height target dl.cdn_failures in
    let tag = height_to_quality_tag degraded in
    if not (should_degrade dl)
    then (target, dl.quality)
    else if int_eq degraded target
    then (target, dl.quality)
    else (degraded, if is_empty tag then dl.quality else tag)

-- strings.Replace(s, old, new, 1) for a text that is not empty
unfoldable replace_first : Text → Text → Text → Text
replace_first [] old new = []
replace_first (c ∷ s) old new =
    let rest = c ∷ replace_first s old new in
    if has_prefix (c ∷ s) old then new ++ drop (length old) (c ∷ s) else rest

abbrev token : Text → Text
token q = codes "." ++ (q ++ codes ".WEB-DL.")

unfoldable reconcile_title : Text → Text → Text → Text
unfolding replace_first contains
reconcile_title title old new =
    if is_empty old || is_empty new || text_eq old new
    then title
    else if not (contains title (token old))
    then title
    else replace_first title (token old) (token new)

abbrev bits_per_second : ℤ → ℕ
bits_per_second h =
    if at_least h 1080
    then 5_000_000
    else if at_least h 720
    then 2_500_000
    else if at_least h 480
    then 1_200_000
    else 800_000

-- A duration is at least 0 and far below 2^40 seconds, so int64 does not overflow here.
unfoldable pub estimate_size : ℕ → Text → ℕ
unfolding quality_to_height
estimate_size duration quality = bits_per_second (quality_to_height quality) * duration / 8

-- `expected <= 0` returns 0, which is what the product gives at 0.
unfoldable truncation_threshold : ℕ → Text → Text → ℕ
unfolding estimate_size
truncation_threshold duration requested actual =
    let q = if is_empty actual then requested else actual in estimate_size duration q * 30 / 100
