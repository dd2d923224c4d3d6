-- ===== src/Newznab/Subtitles.antt =====
-- internal/newznab/titles.go: the tests that the regular expressions make of a subtitle, on ASCII
-- white space and with the ASCII letters of `(?i)`. A text is the list of its runes.
use iplayer_arr.Prelude.{
  ℕ, ◌==◌, leb, Bool, true, false, ◌&&◌, ◌||◌, not, Option, none, some, List, [], ◌∷◌, Text, codes,
  is_empty, has_prefix, drop, length, is_digit, to_lower, if◌then◌else◌,
}

-- \s
abbrev is_blank : ℕ → Bool
is_blank c = (c == 32) || (c == 9) || (c == 10) || (c == 12) || (c == 13)

-- The rest behind a run of blanks, and behind a run of digits.
unfoldable pub skip_blanks : Text → Text
skip_blanks [] = []
skip_blanks (c ∷ s) = let rest = skip_blanks s in if is_blank c then rest else c ∷ s

unfoldable skip_digits : Text → Text
skip_digits [] = []
skip_digits (c ∷ s) = let rest = skip_digits s in if is_digit c then rest else c ∷ s

abbrev pub is_letter : ℕ → Bool
is_letter c = (leb b'a' c && leb c b'z') || (leb b'A' c && leb c b'Z')

-- \w, between whose members and the rest \b stands
abbrev is_word : ℕ → Bool
is_word c = is_letter c || is_digit c || (c == b'_')

abbrev starts_word : Text → Bool
starts_word [] = false
starts_word (c ∷ s) = is_word c

abbrev markers : List Text
markers =
    codes "special"
    ∷ codes "christmas"
    ∷ codes "easter"
    ∷ codes "new year"
    ∷ codes "halloween"
    ∷ codes "bonfire"
    ∷ []

-- One of the markers starts here and ends at the end of a word.
unfoldable marker_here : List Text → Text → Bool
unfolding has_prefix
marker_here [] s = false
marker_here (m ∷ ms) s =
    (has_prefix s m && not (starts_word (drop (length m) s))) || marker_here ms s

-- A marker starts somewhere behind a rune that is no part of a word.
unfoldable marker_from : Bool → Text → Bool
unfolding marker_here
marker_from in_word [] = false
marker_from in_word (c ∷ s) =
    (not in_word && marker_here markers (c ∷ s)) || marker_from (is_word c) s

unfoldable pub is_special : Text → Bool
unfolding marker_from to_lower
is_special episode = marker_from false (to_lower episode)

abbrev is_date_mark : ℕ → Bool
is_date_mark c = (c == b'/') || (c == b'.') || (c == b'-')

-- \d{4}\s*$
unfoldable ends_with_year : Text → Bool
unfolding skip_blanks
ends_with_year (a ∷ b ∷ c ∷ d ∷ s) =
    is_digit a && is_digit b && is_digit c && is_digit d && is_empty (skip_blanks s)
ends_with_year _ = false

-- \d{1,2}[/.\-] in front of what `next` accepts
unfoldable day_or_month : (Text → Bool) → Text → Bool
day_or_month next (a ∷ b ∷ c ∷ s) =
    is_digit a && (if is_digit b then is_date_mark c && next s else is_date_mark b && next (c ∷ s))
day_or_month next _ = false

unfoldable pub is_date_subtitle : Text → Bool
unfolding skip_blanks day_or_month ends_with_year
is_date_subtitle s = day_or_month (day_or_month ends_with_year) (skip_blanks s)

-- ^[^:]+: in front of a bare date; the date holds no colon.
unfoldable dated_from : Bool → Text → Bool
unfolding is_date_subtitle
dated_from begun [] = false
dated_from begun (c ∷ s) =
    let rest = dated_from true s in if c == b':' then begun && is_date_subtitle s else rest

unfoldable pub is_date_like_subtitle : Text → Bool
unfolding dated_from
is_date_like_subtitle s = is_date_subtitle s || dated_from false s

-- Behind a mark, the rest without leading blanks.
abbrev after_mark : ℕ → Text → Option Text
after_mark mark [] = none
after_mark mark (c ∷ s) = if c == mark then some (skip_blanks s) else none

-- \d+ and a mark
abbrev after_number : ℕ → Text → Option Text
after_number mark [] = none
after_number mark (c ∷ s) = if is_digit c then after_mark mark (skip_digits s) else none

abbrev after_blanks : Text → Option Text
after_blanks [] = none
after_blanks (c ∷ s) = if is_blank c then some (skip_blanks s) else none

abbrev then_number : ℕ → Option Text → Option Text
then_number mark none = none
then_number mark (some s) = after_number mark s

abbrev or_all : Text → Option Text → Text
or_all s none = s
or_all s (some rest) = rest

-- reSeriesPrefix.ReplaceAllString(s, "")
unfoldable pub cut_series_prefix : Text → Text
unfolding has_prefix skip_blanks skip_digits
cut_series_prefix s =
    if has_prefix s (codes "Series")
    then or_all s (then_number b'.' (then_number b':' (after_blanks (drop 6 s))))
    else s
