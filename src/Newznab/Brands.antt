-- ===== src/Newznab/Brands.antt =====
-- internal/newznab/disambiguate.go, and the comparison of names in internal/newznab/search.go. A text
-- is the list of its runes; the regular expressions are scans for the leftmost place where they
-- match up to the end of the text, on ASCII white space.
use iplayer_arr.Prelude.{
  ℕ, ◌==◌, leb, Bool, true, false, ◌&&◌, ◌||◌, not, Option, none, some, List, [], ◌∷◌, Text, codes,
  text_eq, is_empty, is_digit, digits, member, lower, if◌then◌else◌,
}
use iplayer_arr.Store.Catalogue.{Programme}
use iplayer_arr.Store.Names.{Unicode, show_name_key, show_name_key_keep_article, trim_runes}
use iplayer_arr.Newznab.Subtitles.{skip_blanks}

-- \)\s*$
abbrev closes : Text → Bool
closes [] = false
closes (c ∷ s) = (c == b')') && is_empty (skip_blanks s)

-- (\d{4}) at the start, and the rest
abbrev four_digits : Text → Option (Text × Text)
four_digits (a ∷ b ∷ c ∷ d ∷ s) =
    if is_digit a && is_digit b && is_digit c && is_digit d
    then some (a ∷ b ∷ c ∷ d ∷ [], s)
    else none
four_digits _ = none

-- "-" and the en dash
abbrev is_range_dash : ℕ → Bool
is_range_dash c = (c == b'-') || (c == 8211)

abbrev ends_year : Text → Option (Text × Text) → Option (Text × Text)
ends_year start none = none
ends_year start (some (year, rest)) = if closes rest then some (start, year) else none

-- (?:[-–](\d{4}))?\)\s*$ behind the first year: the second year is empty if there is none.
abbrev range_from : Option (Text × Text) → Option (Text × Text)
range_from none = none
range_from (some (year, [])) = none
range_from (some (year, c ∷ s)) =
    if is_range_dash c
    then ends_year year (four_digits s)
    else if closes (c ∷ s)
    then some (year, [])
    else none

-- reYearRange at the start of a text
unfoldable year_range_at : Text → Option (Text × Text)
unfolding skip_blanks
year_range_at [] = none
year_range_at (c ∷ s) = if c == b'(' then range_from (four_digits s) else none

abbrev is_some : Option (Text × Text) → Bool
is_some none = false
is_some (some r) = true

-- The text in front of the leftmost place where a test holds of the rest.
unfoldable cut_before : (Text → Bool) → Text → Text
cut_before test [] = []
cut_before test (c ∷ s) = let rest = c ∷ cut_before test s in if test (c ∷ s) then [] else rest

abbrev country_codes : List Text
country_codes =
    codes "uk"
    ∷ codes "gb"
    ∷ codes "us"
    ∷ codes "au"
    ∷ codes "ca"
    ∷ codes "nz"
    ∷ codes "ie"
    ∷ codes "in"
    ∷ codes "za"
    ∷ codes "sa"
    ∷ codes "fr"
    ∷ codes "de"
    ∷ codes "jp"
    ∷ codes "kr"
    ∷ codes "hk"
    ∷ codes "tw"
    ∷ codes "sg"
    ∷ codes "mx"
    ∷ codes "br"
    ∷ codes "ar"
    ∷ codes "ch"
    ∷ codes "at"
    ∷ codes "be"
    ∷ codes "nl"
    ∷ codes "no"
    ∷ codes "se"
    ∷ codes "dk"
    ∷ codes "fi"
    ∷ codes "pl"
    ∷ codes "it"
    ∷ codes "es"
    ∷ codes "pt"
    ∷ codes "ru"
    ∷ []

-- \((?i:UK|GB|...)\)\s*$ at the start of a text
unfoldable country_at : Text → Bool
unfolding member lower skip_blanks
country_at (c ∷ a ∷ b ∷ s) =
    (c == b'(') && member country_codes (lower a ∷ lower b ∷ []) && closes s
country_at _ = false

unfoldable bare_name : Text → Text
unfolding year_range_at country_at cut_before skip_blanks
bare_name s =
    let undated = cut_before (λ r. is_some (year_range_at (skip_blanks r))) s in
    cut_before (λ r. country_at (skip_blanks r)) undated

-- The leftmost match of reYearRange.
unfoldable find_year_range : Text → Option (Text × Text)
unfolding year_range_at
find_year_range [] = none
find_year_range (c ∷ s) =
    let later = find_year_range s in elim (year_range_at (c ∷ s)) [ none ↦ later | some r ↦ some r ]

abbrev or_zero : Option ℕ → ℕ
or_zero none = 0
or_zero (some n) = n

abbrev years : Option (Text × Text) → ℕ × ℕ
years none = (0, 0)
years (some (start, end)) =
    let first = or_zero (digits 0 start) in
    (first, if is_empty end then first else or_zero (digits 0 end))

unfoldable extract_year_range : Text → ℕ × ℕ
unfolding find_year_range digits
extract_year_range s = years (find_year_range s)

abbrev covers : ℕ → ℕ × ℕ → Bool
covers year (start, end) = leb start year && leb year end

abbrev undated_name : ℕ × ℕ → Bool
undated_name (start, end) = (start == 0) && (end == 0)

unfoldable suffixed_of : ℕ → List Programme → List Programme
unfolding extract_year_range
suffixed_of year [] = []
suffixed_of year (p ∷ ps) =
    let rest = suffixed_of year ps in
    let range = extract_year_range p.name in
    if not (undated_name range) && covers year range then p ∷ rest else rest

unfoldable bare_of : List Programme → List Programme
unfolding extract_year_range
bare_of [] = []
bare_of (p ∷ ps) =
    let rest = bare_of ps in if undated_name (extract_year_range p.name) then p ∷ rest else rest

abbrev or_bare : List Programme → List Programme → List Programme
or_bare [] bare = bare
or_bare (p ∷ ps) bare = p ∷ ps

unfoldable disambiguate_by_year : List Programme → ℕ → List Programme
unfolding suffixed_of bare_of
disambiguate_by_year progs year =
    if year == 0 then progs else or_bare (suffixed_of year progs) (bare_of progs)

module _ (u : Unicode) where
  abbrev name_key : Text → Bool → Text
  name_key name the_tvdb =
      if the_tvdb then show_name_key_keep_article u name else show_name_key u name

  unfoldable pub exact_name_match_for : Text → Text → Bool → Bool
  unfolding bare_name show_name_key show_name_key_keep_article
  exact_name_match_for prog_name want_name the_tvdb =
      text_eq (name_key (bare_name prog_name) the_tvdb) (name_key (bare_name want_name) the_tvdb)

  -- The loop of nameExtensionFor over the places where ": " stands; `seen` is what it has passed,
  -- the newest rune first. The search for the next place starts behind the colon and the space.
  abbrev reversed : Text → Text → Text
  reversed [] s = s
  reversed (c ∷ seen) s = reversed seen (c ∷ s)

  unfoldable extension_from : Text → Bool → Text → Text → Option Text
  unfolding show_name_key show_name_key_keep_article trim_runes
  extension_from want the_tvdb seen [] = none
  extension_from want the_tvdb seen (c ∷ []) = none
  extension_from want the_tvdb seen (c ∷ d ∷ s) =
      let past = extension_from want the_tvdb (d ∷ c ∷ seen) s in
      let next = extension_from want the_tvdb (c ∷ seen) (d ∷ s) in
      if (c == b':') && (d == 32)
      then if not (is_empty (trim_runes u s)) && text_eq (name_key (reversed seen []) the_tvdb) want
        then some (trim_runes u s)
        else past
      else next

  unfoldable pub name_extension_for : Text → Text → Bool → Option Text
  unfolding extension_from bare_name show_name_key show_name_key_keep_article trim_runes
  name_extension_for prog_name want_name the_tvdb =
      let want = name_key (bare_name want_name) the_tvdb in
      if is_empty want
      then none
      else extension_from want the_tvdb [] (trim_runes u (bare_name prog_name))

  abbrev is_extension : Option Text → Bool
  is_extension none = false
  is_extension (some rest) = true

  unfoldable pub name_matches_for : Text → Text → Bool → Bool
  unfolding exact_name_match_for name_extension_for
  name_matches_for prog_name want_name the_tvdb =
      exact_name_match_for prog_name want_name the_tvdb
      || is_extension (name_extension_for prog_name want_name the_tvdb)

  unfoldable emit_name : Programme → Text → Bool → Text
  unfolding exact_name_match_for
  emit_name p want_name the_tvdb =
      if not (is_empty want_name) && not (exact_name_match_for p.name want_name the_tvdb)
      then want_name
      else p.name
