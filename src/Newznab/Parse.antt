-- ===== src/Newznab/Parse.antt =====
-- internal/newznab/parse.go: the identity that a release title carries, on ASCII white space. The
-- two regular expressions are scans for the leftmost place where they match.
pub mod Marker
pub mod RoundTrip
use iplayer_arr.Prelude.{
  ℕ, ◌+◌, ◌==◌, leb, Bool, true, false, ◌&&◌, ◌||◌, not, Option, none, some, List, [], ◌∷◌, ◌++◌,
  Text, codes, length, is_empty, is_digit, is_space, digits, trim_space, trim_suffix, fields,
  join_words, if◌then◌else◌,
}
use iplayer_arr.Newznab.Subtitles.{is_letter}

pub record EpisodeIdentity : Type 0 where
  pub show_name : Text
  pub season : ℕ
  pub episode : ℕ
  pub air_date : Text

abbrev no_identity : EpisodeIdentity
no_identity = record { show_name = []; season = 0; episode = 0; air_date = [] }

-- A run of digits, and what stands behind it.
unfoldable pub digit_run : Text → Text × Text
digit_run [] = ([], [])
digit_run (c ∷ s) =
    let (run, rest) = digit_run s in if is_digit c then (c ∷ run, rest) else ([], c ∷ s)

-- A run of as many digits as stand between the bounds.
abbrev pub bounded_run : ℕ → ℕ → Text × Text → Option (Text × Text)
bounded_run low high (run, rest) =
    if leb low (length run) && leb (length run) high then some (run, rest) else none

abbrev pub paired : Text → Option (Text × Text) → Option (Text × Text)
paired season none = none
paired season (some (episode, rest)) = some (season, episode)

-- [Ee](\d{1,4})([^0-9]|$)
abbrev pub episode_at : Text → Text → Option (Text × Text)
episode_at season [] = none
episode_at season (c ∷ s) =
    if (c == b'E') || (c == b'e') then paired season (bounded_run 1 4 (digit_run s)) else none

abbrev pub season_at : Option (Text × Text) → Option (Text × Text)
season_at none = none
season_at (some (season, rest)) = episode_at season rest

-- [Ss](\d{1,2})[Ee](\d{1,4})([^0-9]|$) at the start of a text: the two runs of digits
unfoldable pub marker_at : Text → Option (Text × Text)
unfolding digit_run
marker_at [] = none
marker_at (c ∷ s) =
    if (c == b'S') || (c == b's') then season_at (bounded_run 1 2 (digit_run s)) else none

-- What a match found, with the text in front of it.
pub record Match (A : Type 0) : Type 0 where
  pub prefix : Text
  pub found : A

abbrev pub extend_match : {A : Type 0} → ℕ → Option (Match A) → Option (Match A)
extend_match c none = none
extend_match c (some m) = some (record { prefix = c ∷ m.prefix; found = m.found })

abbrev pub match_here : {A : Type 0} → Option A → Option (Match A) → Option (Match A)
match_here none later = later
match_here (some found) later = some (record { prefix = []; found = found })

abbrev pub is_alnum : ℕ → Bool
is_alnum c = is_letter c || is_digit c

-- reTitleSxxExx: the leftmost marker that stands at the start or behind a separator; `free` says
-- that the scan is at such a place.
unfoldable pub find_marker : Bool → Text → Option (Match (Text × Text))
unfolding marker_at
find_marker free [] = none
find_marker free (c ∷ s) =
    let later = extend_match c (find_marker (not (is_alnum c)) s) in
    if free then match_here (marker_at (c ∷ s)) later else later

-- The number of digits, at the end or in front of what is no digit.
abbrev exact_run : ℕ → Text × Text → Option (Text × Text)
exact_run n (run, rest) = if length run == n then some (run, rest) else none

abbrev is_date_separator : ℕ → Bool
is_date_separator c = (c == b'.') || (c == b'-')

-- (\d{2}) behind a separator, in front of what is no digit
abbrev two_digits : Text → Option (Text × Text)
two_digits [] = none
two_digits (c ∷ s) = if is_date_separator c then exact_run 2 (digit_run s) else none

abbrev then_day : Text → Option (Text × Text) → Option (Text × Text × Text)
then_day year none = none
then_day year (some (month, rest)) = elim (two_digits rest) [
  | none ↦ none
  | some (day, rest') ↦ some (year, month, day)
]

abbrev then_month : Option (Text × Text) → Option (Text × Text × Text)
then_month none = none
then_month (some (year, rest)) = then_day year (two_digits rest)

-- (\d{4})[.\-](\d{2})[.\-](\d{2})([^0-9]|$) at the start of a text
unfoldable date_at : Text → Option (Text × Text × Text)
unfolding digit_run
date_at s = then_month (exact_run 4 (digit_run s))

-- reTitleAirDate: the leftmost date that stands at the start or behind what is no digit
unfoldable pub find_date : Bool → Text → Option (Match (Text × Text × Text))
unfolding date_at
find_date free [] = none
find_date free (c ∷ s) =
    let later = extend_match c (find_date (not (is_digit c)) s) in
    if free then match_here (date_at (c ∷ s)) later else later

unfoldable dots_to_spaces : Text → Text
dots_to_spaces [] = []
dots_to_spaces (c ∷ s) = (if c == b'.' then 32 else c) ∷ dots_to_spaces s

unfoldable pub show_name_from_prefix : Text → Text
unfolding dots_to_spaces fields join_words trim_space
show_name_from_prefix prefix = trim_space (join_words (fields is_space (dots_to_spaces prefix)))

-- Each number that the date needs, within its range.
abbrev in_range : ℕ → ℕ → Option ℕ → Bool
in_range low high none = false
in_range low high (some n) = leb low n && leb n high

abbrev pub dated : Option (Match (Text × Text × Text)) → EpisodeIdentity
dated none = no_identity
dated (some m) =
    let (year, month, day) = m.found in
    if in_range 1900 2199 (digits 0 year)
      && in_range 1 12 (digits 0 month)
      && in_range 1 31 (digits 0 day)
    then record {
      show_name = show_name_from_prefix m.prefix;
      season = 0;
      episode = 0;
      air_date = year ++ (b'-' ∷ (month ++ (b'-' ∷ day)));
    }
    else no_identity

-- The numbers of a marker. Runs of at most four digits always convert.
abbrev marked : Text → Option ℕ → Option ℕ → EpisodeIdentity → EpisodeIdentity
marked prefix (some season) (some episode) other = record {
  show_name = show_name_from_prefix prefix;
  season = season;
  episode = episode;
  air_date = [];
}
marked prefix none episode other = other
marked prefix (some season) none other = other

abbrev pub identified : Option (Match (Text × Text)) → EpisodeIdentity → EpisodeIdentity
identified none other = other
identified (some m) other = marked m.prefix (digits 0 m.found.0) (digits 0 m.found.1) other

unfoldable pub identity_of : Text → EpisodeIdentity
unfolding find_marker find_date show_name_from_prefix digits
identity_of t =
    if is_empty t then no_identity else identified (find_marker true t) (dated (find_date true t))

unfoldable pub parse_title : Text → EpisodeIdentity
unfolding trim_space trim_suffix identity_of
parse_title title = identity_of (trim_suffix (trim_space title) (codes ".nzb"))
