-- ===== src/Newznab/Titles.antt =====
-- internal/newznab/titles.go: the release titles. A text is the list of its runes.
pub mod Clean
use iplayer_arr.Prelude.{
  ℕ, ◌+◌, ◌==◌, leb, ltb, Bool, true, false, ◌&&◌, ◌||◌, not, Option, none, some, List, [], ◌∷◌,
  ◌++◌, Text, codes, text_eq, is_empty, is_digit, keep, trim_space, decimal, decimal_02, suc,
  if◌then◌else◌,
}
use iplayer_arr.Prelude.Int.{ℤ, pos, negsuc}
use iplayer_arr.Newznab.Subtitles.{is_letter, is_date_like_subtitle, cut_series_prefix}

-- titleTransliterator: each rune of the left text becomes the right one.
abbrev pub transliterations : List (Text × Text)
transliterations =
    (codes "‘’“”´`", [])
    ∷ (codes "–—−", codes "-")
    ∷ (codes "ß", codes "ss")
    ∷ (codes "Æ", codes "AE")
    ∷ (codes "æ", codes "ae")
    ∷ (codes "Œ", codes "OE")
    ∷ (codes "œ", codes "oe")
    ∷ (codes "Þ", codes "Th")
    ∷ (codes "þ", codes "th")
    ∷ (codes "ÀÁÂÃÄÅĀ", codes "A")
    ∷ (codes "ÈÉÊËĒ", codes "E")
    ∷ (codes "ÌÍÎÏĪ", codes "I")
    ∷ (codes "ØÒÓÔÕÖŌ", codes "O")
    ∷ (codes "ÙÚÛÜŪ", codes "U")
    ∷ (codes "Ý", codes "Y")
    ∷ (codes "àáâãäåā", codes "a")
    ∷ (codes "èéêëē", codes "e")
    ∷ (codes "ìíîïī", codes "i")
    ∷ (codes "øòóôõöō", codes "o")
    ∷ (codes "ùúûüū", codes "u")
    ∷ (codes "ýÿ", codes "y")
    ∷ (codes "Ç", codes "C")
    ∷ (codes "ç", codes "c")
    ∷ (codes "Ñ", codes "N")
    ∷ (codes "ñ", codes "n")
    ∷ []

unfoldable has_rune : Text → ℕ → Bool
has_rune [] c = false
has_rune (d ∷ s) c = (d == c) || has_rune s c

unfoldable pub rune_for : List (Text × Text) → ℕ → Text
unfolding has_rune
rune_for [] c = c ∷ []
rune_for ((olds, new) ∷ rest) c =
    let other = rune_for rest c in if has_rune olds c then new else other

-- A replacer of single runes.
unfoldable pub replace_runes : (ℕ → Text) → Text → Text
replace_runes f [] = []
replace_runes f (c ∷ s) = f c ++ replace_runes f s

abbrev pub is_safe : ℕ → Bool
is_safe c = is_letter c || is_digit c || (c == b'.') || (c == b'-') || (c == 32)

abbrev pub dotted : ℕ → ℕ
dotted c = if c == 32 then b'.' else c

-- reMultiDot: a run of dots becomes one.
unfoldable pub one_dot : Text → Text
one_dot [] = []
one_dot (c ∷ []) = c ∷ []
one_dot (c ∷ d ∷ s) =
    let rest = one_dot (d ∷ s) in if (c == b'.') && (d == b'.') then rest else c ∷ rest

-- strings.Trim(s, ".")
unfoldable pub trim_dots_left : Text → Text
trim_dots_left [] = []
trim_dots_left (c ∷ s) = let rest = trim_dots_left s in if c == b'.' then rest else c ∷ s

unfoldable pub trim_dots_right : Text → Text
trim_dots_right [] = []
trim_dots_right (c ∷ s) =
    let rest = trim_dots_right s in if is_empty rest && (c == b'.') then [] else c ∷ rest

abbrev pub spell : ℕ → Text
spell c = if c == b'&' then codes "and" else if c == 39 then [] else c ∷ []

unfoldable pub sanitise_for_title : Text → Text
unfolding trim_space rune_for replace_runes one_dot trim_dots_left trim_dots_right
sanitise_for_title s =
    let folded = replace_runes (rune_for transliterations) (trim_space s) in
    let safe = keep is_safe (replace_runes spell folded) in
    trim_dots_right (trim_dots_left (one_dot (replace_runes (λ c. dotted c ∷ []) safe)))

-- The part of a release title behind the numbering or the name.
abbrev pub release_end : Text → Text → Text
release_end quality se =
    (if is_empty se then [] else b'.' ∷ se) ++ (b'.' ∷ (quality ++ codes ".WEB-DL.AAC.H264-iParr"))

-- fmt's %02d
abbrev signed_02 : ℤ → Text
signed_02 (pos n) = decimal_02 n
signed_02 (negsuc n) = b'-' ∷ decimal (suc n)

abbrev pub sxxexx : ℤ → ℤ → Text
sxxexx series ep = b'S' ∷ (signed_02 series ++ (b'E' ∷ signed_02 ep))

unfoldable pub build_sxxexx_title : Text → Text → ℤ → ℤ → Text → Text
unfolding sanitise_for_title cut_series_prefix decimal decimal_02
build_sxxexx_title name episode series ep quality =
    sanitise_for_title name
    ++ (b'.'
        ∷ (sxxexx series ep
            ++ release_end quality (sanitise_for_title (cut_series_prefix episode))))

-- strings.ReplaceAll(airDate, "-", ".")
unfoldable pub dotted_date : Text → Text
dotted_date [] = []
dotted_date (c ∷ s) = (if c == b'-' then b'.' else c) ∷ dotted_date s

unfoldable pub build_date_title : Text → Text → Text → Text → Text
unfolding is_date_like_subtitle sanitise_for_title dotted_date
build_date_title name episode air_date quality =
    let shown = if is_date_like_subtitle episode then [] else episode in
    sanitise_for_title name
    ++ (b'.' ∷ (dotted_date air_date ++ release_end quality (sanitise_for_title shown)))

unfoldable pub build_manual_title : Text → Text → Text → Text
unfolding sanitise_for_title
build_manual_title name episode quality =
    sanitise_for_title name ++ release_end quality (sanitise_for_title episode)
