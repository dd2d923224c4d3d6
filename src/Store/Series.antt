-- ===== src/Store/Series.antt =====
-- internal/store/series.go: the series that Sonarr has searched, by TVDB id and by name. Texts are
-- lists of runes, as in Names.
pub mod ByName
use iplayer_arr.Prelude.{
  ℕ, ◌==◌, Bool, true, false, ◌&&◌, ◌||◌, not, Option, none, some, List, [], ◌∷◌, Text, text_eq,
  is_empty, if◌then◌else◌,
}
use iplayer_arr.Store.Bolt.{Bolt, Result}
use iplayer_arr.Store.Catalogue.{SeriesMapping}
use iplayer_arr.Store.Names.{Unicode, show_name_key, cut_year_suffix, trim_runes}
use iplayer_arr.Store.Tables.{put_row, get_row, rows_such}

-- strings.HasSuffix(s, ")")
unfoldable ends_bracket : Text → Bool
ends_bracket [] = false
ends_bracket (r ∷ []) = r == 41
ends_bracket (r ∷ q ∷ s) = ends_bracket (q ∷ s)

module _ (u : Unicode) where
  abbrev base_is : Text → Option Text → Bool
  base_is target none = false
  base_is target (some base) = text_eq (show_name_key u base) target

  abbrev has_year : Option Text → Bool
  has_year none = false
  has_year (some base) = true

  unfoldable pub series_name_is : Text → Text → Text → Bool
  unfolding show_name_key trim_runes cut_year_suffix ends_bracket
  series_name_is stored name target =
      let trimmed = trim_runes u stored in
      let base = cut_year_suffix trimmed in
      if not (has_year base) && ends_bracket trimmed
      then u.equal_fold trimmed (trim_runes u name)
      else if text_eq (show_name_key u stored) target
      then true
      else base_is target base

-- What GetSeriesMappingByName answers: (nil, nil), a mapping, or ErrAmbiguousSeriesName.
pub data ByNameAnswer : Type 0 where
  no_series : ByNameAnswer
  one_series : SeriesMapping → ByNameAnswer
  ambiguous_series : ByNameAnswer

abbrev pub of_found : List SeriesMapping → ByNameAnswer
of_found [] = no_series
of_found (m ∷ []) = one_series m
of_found (m ∷ n ∷ found) = ambiguous_series

module _ {B : Type 0} (bolt : Bolt B (Option SeriesMapping)) where
  unfoldable put_series_mapping : SeriesMapping → B → Result B
  unfolding put_row
  put_series_mapping m b = put_row bolt m.tvdb_id m b

  unfoldable get_series_mapping : Text → B → Result (Option SeriesMapping)
  unfolding get_row
  get_series_mapping tvdb_id b = get_row bolt tvdb_id b

  unfoldable pub get_series_mapping_by_name : Unicode → Text → B → ByNameAnswer
  unfolding show_name_key rows_such series_name_is
  get_series_mapping_by_name u name b =
      let target = show_name_key u name in
      if is_empty target
      then no_series
      else of_found (
          rows_such (λ (m : SeriesMapping). series_name_is u m.show_name name target)
            (bolt.entries b))

  unfoldable list_series_mappings : B → List SeriesMapping
  unfolding rows_such
  list_series_mappings b = rows_such (λ (m : SeriesMapping). true) (bolt.entries b)
