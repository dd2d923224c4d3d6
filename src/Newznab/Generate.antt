-- ===== src/Newznab/Generate.antt =====
-- internal/newznab/titles.go: the numbering that GenerateTitle gives a programme, and positionGuess.
-- What fmt.Sscanf reads at %d is a parameter, 0 where it reads nothing. Go's ints do not overflow
-- here.
pub mod Guess
use iplayer_arr.Prelude.{
  ℕ, ◌==◌, Bool, true, false, ◌&&◌, ◌||◌, not, Option, none, some, List, [], ◌∷◌, ◌++◌, Text, codes,
  is_empty, if◌then◌else◌,
}
use iplayer_arr.Prelude.Int.{ℤ, pos, negsuc, ◌+ℤ◌, hundredfold, is_zero, at_least}
use iplayer_arr.Store.Catalogue.{Programme, ShowOverride}
use iplayer_arr.Newznab.Subtitles.{is_special, is_date_subtitle}
use iplayer_arr.Newznab.Titles.{build_sxxexx_title, build_date_title, build_manual_title}

pub data Tier : Type 0 where
  tier_full tier_position tier_date tier_manual : Tier

-- strings.Split(s, "-")
abbrev grow : ℕ → List Text → List Text
grow c [] = (c ∷ []) ∷ []
grow c (part ∷ parts) = (c ∷ part) ∷ parts

unfoldable split_dash : Text → List Text
split_dash [] = [] ∷ []
split_dash (c ∷ s) = let rest = split_dash s in if c == b'-' then [] ∷ rest else grow c rest

abbrev month_and_day : (Text → ℤ) → List Text → ℤ
month_and_day scan (year ∷ month ∷ day ∷ []) = hundredfold (scan month) +ℤ scan day
month_and_day scan _ = pos 0

unfoldable pub mmdd_from_date : (Text → ℤ) → Text → ℤ
unfolding split_dash
mmdd_from_date scan air_date = month_and_day scan (split_dash air_date)

module _ (scan : Text → ℤ) where
  -- The episode number of a special.
  abbrev pub special_number : ℤ → Text → ℤ
  special_number position air_date =
      if is_zero position && not (is_empty air_date) then mmdd_from_date scan air_date else position

  -- What is left once the overrides have been applied: the name, the numbers, and the season of
  -- tier 2.
  unfoldable pub numbered_title : Programme → Text → Text → ℤ → ℤ → ℤ → Text × Tier
  unfolding is_special is_date_subtitle mmdd_from_date build_sxxexx_title build_date_title
      build_manual_title
  numbered_title p name quality series episode_num position_season =
      let special = special_number p.position p.air_date in
      let rest =
        if at_least series 1 && at_least episode_num 1
        then (build_sxxexx_title name p.episode series episode_num quality, tier_full)
        else if not (is_empty p.air_date) && is_date_subtitle p.episode
        then (build_date_title name [] p.air_date quality, tier_date)
        else if at_least p.position 1
        then (build_sxxexx_title name p.episode position_season p.position quality, tier_position)
        else if not (is_empty p.air_date)
        then (build_date_title name p.episode p.air_date quality, tier_date)
        else (build_manual_title name p.episode quality, tier_manual) in
      if is_special p.episode && (is_zero series || is_zero episode_num) && at_least special 1
      then (build_sxxexx_title name p.episode (pos 0) special quality, tier_full)
      else rest

  abbrev forced_name : ShowOverride → Programme → Text
  forced_name o p = if is_empty o.custom_name then p.name else o.custom_name

  -- The series and the episode number behind the overrides that correct BBC numbering.
  abbrev forced_series : ShowOverride → ℤ → ℤ
  forced_series o series =
      let placed = if o.force_position then pos 0 else series in
      let numbered = if at_least o.force_series_num 1 then o.force_series_num else placed in
      numbered +ℤ o.series_offset

  abbrev forced_episode : ShowOverride → ℤ → ℤ
  forced_episode o episode_num =
      (if o.force_position then pos 0 else episode_num) +ℤ o.episode_offset

  unfoldable pub generate_title : Programme → Text → Option ShowOverride → Text × Tier
  unfolding numbered_title
  generate_title p quality none =
      if p.tvdb_numbered
      then (build_sxxexx_title p.name p.episode p.series p.episode_num quality, tier_full)
      else numbered_title p p.name quality p.series p.episode_num (pos 1)
  generate_title p quality (some o) =
      let name = forced_name o p in
      if o.force_date_based && not (is_empty p.air_date)
      then (build_date_title name p.episode p.air_date quality, tier_date)
      else if p.tvdb_numbered
      then (build_sxxexx_title name p.episode p.series p.episode_num quality, tier_full)
      else numbered_title p name quality (forced_series o p.series) (forced_episode o p.episode_num)
          (if at_least o.force_series_num 1 then o.force_series_num else pos 1)

  -- The season and the episode that BBC data does not say, or `none` where ok is false.
  unfoldable pub position_guess : Programme → Option (ℤ × ℤ)
  unfolding is_special is_date_subtitle mmdd_from_date
  position_guess p =
      let special = special_number p.position p.air_date in
      let rest : Option (ℤ × ℤ) =
        if at_least p.series 1 && at_least p.episode_num 1
        then if p.series_assumed && is_special p.episode
          then some (p.series, p.episode_num)
          else none
        else if not (is_empty p.air_date) && is_date_subtitle p.episode
        then none
        else if at_least p.position 1
        then some (pos 1, p.position)
        else none in
      if is_special p.episode && (is_zero p.series || is_zero p.episode_num) && at_least special 1
      then some (pos 0, special)
      else rest
