-- ===== src/Newznab/Filter.antt =====
-- internal/newznab/search.go: the programme that an iPlayer result stands for, and the filters that
-- a search puts programmes through. A text is the list of its runes.
pub mod Sound
use iplayer_arr.Prelude.{
  ℕ, ◌==◌, leb, ltb, Bool, true, false, ◌&&◌, ◌||◌, not, Option, none, some, List, [], ◌∷◌, Text,
  codes, text_eq, is_empty, has_prefix, decimal, suc, if◌then◌else◌,
}
use iplayer_arr.Prelude.Int.{ℤ, pos, negsuc, at_least, is_zero}
use iplayer_arr.Store.Types.{Time}
use iplayer_arr.Store.Catalogue.{Programme, ShowOverride}
use iplayer_arr.Store.Names.{Unicode}
use iplayer_arr.Newznab.Brands.{name_matches_for, exact_name_match_for, name_extension_for}
use iplayer_arr.Newznab.Generate.{
  Tier, tier_full, tier_position, tier_date, tier_manual, generate_title,
}
use iplayer_arr.Newznab.Parse.{EpisodeIdentity, parse_title}

-- bbc.IBLResult
pub record IblResult : Type 0 where
  pub pid : Text
  pub title : Text
  pub subtitle : Text
  pub synopsis : Text
  pub channel : Text
  pub series : ℤ
  pub episode_num : ℤ
  pub position : ℤ
  pub air_date : Text
  pub thumbnail : Text
  pub brand_pid : Text
  pub duration : ℕ
  pub available : Time
  pub episode_num_assigned : Bool

-- Series 1 is assumed for an episode number without a series.
abbrev promoted : IblResult → Bool
promoted r = is_zero r.series && at_least r.episode_num 1

-- The fields that the conversion leaves at their zero values are written out.
unfoldable pub ibl_result_to_programme : IblResult → Programme
ibl_result_to_programme r = record {
  pid = r.pid;
  vpid = [];
  name = r.title;
  episode = r.subtitle;
  series = if promoted r then pos 1 else r.series;
  episode_num = r.episode_num;
  air_date = r.air_date;
  channel = r.channel;
  duration = r.duration;
  synopsis = [];
  thumbnail = r.thumbnail;
  available = 0;
  expires = 0;
  qualities = [];
  position = r.position;
  identity_tier = [];
  is_date_based = false;
  tvdb_numbered = false;
  series_assumed = promoted r;
  episode_assumed = r.episode_num_assigned;
  tvdb_unchecked = false;
  tvdb_contradicted = false;
  cached_at = 0;
}

-- x == y
abbrev pub int_eq : ℤ → ℤ → Bool
int_eq (pos m) (pos n) = m == n
int_eq (negsuc m) (negsuc n) = m == n
int_eq (pos m) (negsuc n) = false
int_eq (negsuc m) (pos n) = false

-- strconv.Itoa
abbrev itoa : ℤ → Text
itoa (pos n) = decimal n
itoa (negsuc n) = b'-' ∷ decimal (suc n)

abbrev no_season_filter : ℤ
no_season_filter = negsuc 0

abbrev quality_720 : Text
quality_720 = codes "720p"

-- The identity that a title of the first two tiers carries.
abbrev pub read_number : Text × Tier → Option EpisodeIdentity
read_number (title, tier_full) = some (parse_title title)
read_number (title, tier_position) = some (parse_title title)
read_number (title, tier_date) = none
read_number (title, tier_manual) = none

abbrev is_numbered : Option EpisodeIdentity → Bool
is_numbered none = false
is_numbered (some id) = true

abbrev pub hatch : Programme → Bool
hatch p = is_zero p.series && is_zero p.episode_num && not (is_empty p.air_date)

-- The last two tests of the filter.
abbrev pub asked_for : ℤ → ℤ → ℤ → ℤ → Bool
asked_for series episode_num filter_season filter_ep =
    if not (int_eq filter_season no_season_filter) && not (int_eq series filter_season)
    then false
    else not (at_least filter_ep 1 && not (int_eq episode_num filter_ep))

-- The switch over the number of the title, for a programme in the hatch or renumbered by an
-- override.
abbrev pub filtered_on : Programme → Option EpisodeIdentity → ℤ → ℤ → Bool
filtered_on p (some id) filter_season filter_ep =
    if ltb 0 id.episode
    then asked_for (pos id.season) (pos id.episode) filter_season filter_ep
    else if not (hatch p)
    then asked_for p.series p.episode_num filter_season filter_ep
    else int_eq filter_season no_season_filter && not (at_least filter_ep 1)
filtered_on p none filter_season filter_ep =
    if not (hatch p)
    then asked_for p.series p.episode_num filter_season filter_ep
    else not (at_least filter_season 1900) || has_prefix p.air_date (itoa filter_season)

module _ (scan : Text → ℤ) where
  unfoldable pub overrides_numbering : Programme → Option ShowOverride → Bool
  unfolding generate_title
  overrides_numbering p none = false
  overrides_numbering p (some o) = not (
      text_eq (generate_title scan p quality_720 (some (record o { custom_name = [] }))).0
        (generate_title scan p quality_720 none).0)

  -- The season and the episode in the title, or `none` for a title by date or without a number.
  unfoldable pub emitted_number : Programme → Option ShowOverride → Option EpisodeIdentity
  unfolding generate_title parse_title
  emitted_number p o = read_number (generate_title scan p quality_720 o)

  abbrev pub season_and_episode : Programme → Option ShowOverride → ℤ → ℤ → Bool
  season_and_episode p o filter_season filter_ep =
      if hatch p || overrides_numbering p o
      then filtered_on p (emitted_number p o) filter_season filter_ep
      else asked_for p.series p.episode_num filter_season filter_ep

  unfoldable pub matches_search_filter_for :
      Unicode → Programme → Option ShowOverride → Text → Bool → Text → ℤ → ℤ → Bool
  unfolding name_matches_for overrides_numbering emitted_number has_prefix decimal
  matches_search_filter_for u p o want_name the_tvdb filter_date filter_season filter_ep =
      if not (is_empty want_name) && not (name_matches_for u p.name want_name the_tvdb)
      then false
      else if not (is_empty filter_date)
      then text_eq p.air_date filter_date
      else season_and_episode p o filter_season filter_ep

  unfoldable numbered_episode : Programme → Option ShowOverride → Bool
  unfolding emitted_number
  numbered_episode p o =
      if not p.tvdb_numbered && (is_zero p.series || is_zero p.episode_num)
      then false
      else is_numbered (emitted_number p o)

  unfoldable unnumbered_hatch : Programme → Option ShowOverride → Bool
  unfolding emitted_number
  unnumbered_hatch p o = if hatch p then not (is_numbered (emitted_number p o)) else false

module _ (u : Unicode) where
  unfoldable one_off_title_for : IblResult → Text → Bool → Option Text
  unfolding exact_name_match_for name_extension_for
  one_off_title_for r want_name the_tvdb =
      if not (is_empty r.subtitle)
        || not (text_eq r.brand_pid r.pid)
        || is_empty want_name
        || exact_name_match_for u r.title want_name the_tvdb
      then none
      else name_extension_for u r.title want_name the_tvdb

  unfoldable any_title : List Text → Text → Bool → Bool
  unfolding exact_name_match_for
  any_title [] want_name the_tvdb = false
  any_title (t ∷ ts) want_name the_tvdb =
      exact_name_match_for u t want_name the_tvdb || any_title ts want_name the_tvdb

  abbrev titles : List IblResult → List Text
  titles [] = []
  titles (r ∷ rs) = r.title ∷ titles rs

  unfoldable has_exact_title_for : Text → List Text → List IblResult → Bool → Bool
  unfolding any_title
  has_exact_title_for want_name hit_titles results the_tvdb =
      any_title hit_titles want_name the_tvdb || any_title (titles results) want_name the_tvdb
