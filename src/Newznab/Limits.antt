-- ===== src/Newznab/Limits.antt =====
-- internal/newznab/search.go: the parameters of a search that are numbers, and what bounds its answer.
pub mod Ceiling
use iplayer_arr.Prelude.{
  ℕ, ◌+◌, ◌-◌, ◌*◌, ◌/◌, ◌==◌, leb, ltb, Bool, true, false, ◌&&◌, ◌||◌, not, Option, none, some,
  List, [], ◌∷◌, ◌++◌, Text, codes, text_eq, is_empty, length, take, keep, to_lower, trim_space,
  trim_suffix, decimal, decimal_02, if◌then◌else◌,
}
use iplayer_arr.Prelude.Int.{ℤ, pos, negsuc, atoi, at_least}
use iplayer_arr.Store.Bolt.{Bolt}
use iplayer_arr.Store.Settings.{get_config}

-- The largest number of items that the capabilities advertise.
abbrev advertised_max : ℕ
advertised_max = 100

abbrev bounded_limit : Option ℤ → ℕ
bounded_limit none = 0
bounded_limit (some (negsuc n)) = 0
bounded_limit (some (pos n)) = if ltb advertised_max n then advertised_max else n

unfoldable parse_limit_param : Text → ℕ
unfolding atoi
parse_limit_param limit = if is_empty limit then 0 else bounded_limit (atoi limit)

-- strings.Split(s, "/")
abbrev grow : ℕ → List Text → List Text
grow c [] = (c ∷ []) ∷ []
grow c (part ∷ parts) = (c ∷ part) ∷ parts

unfoldable split_slash : Text → List Text
split_slash [] = [] ∷ []
split_slash (c ∷ s) = let rest = split_slash s in if c == b'/' then [] ∷ rest else grow c rest

abbrev within : ℕ → ℕ → Option ℤ → Option ℕ
within low high none = none
within low high (some (negsuc n)) = none
within low high (some (pos n)) = if leb low n && leb n high then some n else none

abbrev dated : Option ℕ → Option ℕ → Option ℕ → Text
dated (some year) (some month) (some day) =
    decimal year ++ (b'-' ∷ (decimal_02 month ++ (b'-' ∷ decimal_02 day)))
dated _ _ _ = []

abbrev month_and_day : Option ℕ → List Text → Text
month_and_day year (month ∷ day ∷ []) =
    dated year (within 1 12 (atoi month)) (within 1 31 (atoi day))
month_and_day year _ = []

-- %04d of a year from 1900 on is %d.
unfoldable parse_daily_search_date : Text → Text → Text
unfolding atoi split_slash decimal decimal_02
parse_daily_search_date season ep =
    if length season == 4
    then month_and_day (within 1900 2100 (atoi season)) (split_slash ep)
    else []

-- In bytes, at the bit rates of the four qualities.
abbrev rate_for : Text → ℕ
rate_for quality =
    if text_eq quality (codes "1080p")
    then 5000
    else if text_eq quality (codes "720p")
    then 3200
    else if text_eq quality (codes "540p")
    then 1800
    else if text_eq quality (codes "396p")
    then 1000
    else 3200

unfoldable pub estimate_size : ℕ → Text → ℕ
estimate_size duration quality =
    (if duration == 0 then 1800 else duration) * rate_for quality * 1000 / 8

abbrev or_none : Option ℤ → ℤ
or_none none = pos 0
or_none (some n) = n

-- `has_store` is false where the handler's store is nil; 0 stands for no ceiling.
unfoldable quality_ceiling_height : {C : Type 0} → Bolt C Text → Bool → C → ℤ
unfolding get_config trim_space to_lower trim_suffix atoi
quality_ceiling_height settings has_store config =
    let v = to_lower (trim_space (get_config settings (codes "quality") config)) in
    if not has_store
    then pos 0
    else if is_empty v || text_eq v (codes "any")
    then pos 0
    else or_none (atoi (trim_suffix v (codes "p")))

-- x <= ceiling
abbrev pub at_most : ℕ → ℤ → Bool
at_most x (pos n) = leb x n
at_most x (negsuc n) = false

unfoldable pub cap_heights : List ℕ → ℤ → List ℕ
cap_heights heights ceiling =
    if at_least ceiling 1 then keep (λ h. at_most h ceiling) heights else heights

-- A tag that is no height stays.
abbrev pub tag_within : ℤ → Option ℤ → Bool
tag_within ceiling none = true
tag_within ceiling (some (pos n)) = at_most n ceiling
tag_within ceiling (some (negsuc n)) = true

-- The height that a tag names.
unfoldable pub tag_height : Text → Option ℤ
unfolding trim_suffix atoi
tag_height tag = atoi (trim_suffix tag (codes "p"))

unfoldable pub cap_quality_tags : List Text → ℤ → List Text
unfolding tag_height
cap_quality_tags tags ceiling =
    if at_least ceiling 1 then keep (λ t. tag_within ceiling (tag_height t)) tags else tags

abbrev pub tag_for : ℕ → List Text → List Text
tag_for h tags =
    if leb 2160 h
    then codes "2160p" ∷ tags
    else if leb 1080 h
    then codes "1080p" ∷ tags
    else if leb 720 h
    then codes "720p" ∷ tags
    else if leb 540 h
    then codes "540p" ∷ tags
    else if leb 396 h
    then codes "396p" ∷ tags
    else tags

unfoldable pub heights_to_tags : List ℕ → List Text
heights_to_tags [] = []
heights_to_tags (h ∷ heights) = tag_for h (heights_to_tags heights)

-- The most qualities of one programme that a browse of everything advertises.
abbrev browse_qualities_per_pid : ℕ
browse_qualities_per_pid = 2

-- What BBC universally delivers, where the probe has no heights.
abbrev fallback_tags : List Text
fallback_tags = codes "720p" ∷ codes "540p" ∷ []

abbrev pub within_ceiling : Option (List ℕ) → ℤ → List Text
within_ceiling none ceiling = cap_quality_tags fallback_tags ceiling
within_ceiling (some heights) ceiling = heights_to_tags (cap_heights heights ceiling)

abbrev pub trimmed : Bool → List Text → List Text
trimmed short tags = if short then take browse_qualities_per_pid tags else tags

-- The qualities of one programme that are advertised, behind `count` items; the loop has ended before
-- unless the limit is 0 or `count` is below it.
unfoldable pub emitted_qualities : Option (List ℕ) → ℤ → Bool → ℕ → ℕ → List Text
unfolding cap_heights cap_quality_tags heights_to_tags
emitted_qualities probed ceiling browse limit count =
    let tags = within_ceiling probed ceiling in
    let shown = trimmed (browse && ltb browse_qualities_per_pid (length tags)) tags in
    if ltb 0 limit && ltb limit (count + length shown) then take (limit - count) shown else shown

-- The first n results.
unfoldable cap_browse_results : {A : Type 0} → List A → ℕ → List A
cap_browse_results results n = if leb (length results) n then results else take n results
