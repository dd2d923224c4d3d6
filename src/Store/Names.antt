-- ===== src/Store/Names.antt =====
-- internal/store/series.go: the keys that show names are compared by. In this module and in Series a
-- text is the list of its runes, and package unicode, which is not part of the repository, is a
-- record of the functions that the code calls.
pub mod Stable
use iplayer_arr.Prelude.{
  ℕ, ◌==◌, leb, Bool, true, false, ◌&&◌, ◌||◌, not, Option, none, some, List, [], ◌∷◌, ◌++◌, Text,
  codes, map, keep, has_prefix, drop, is_digit, is_empty, fields, join_words, if◌then◌else◌,
}

pub record Unicode : Type 0 where
  pub to_lower_rune : ℕ → ℕ
  pub is_letter : ℕ → Bool
  pub is_digit_rune : ℕ → Bool
  pub is_space_rune : ℕ → Bool
  -- strings.EqualFold
  pub equal_fold : Text → Text → Bool

-- "'", ".", "`", "´", "‘" and "’"
unfoldable pub is_dropped : ℕ → Bool
is_dropped r = (r == 39) || (r == 46) || (r == 96) || (r == 180) || (r == 8216) || (r == 8217)

-- strings.ReplaceAll(s, "&", "and")
unfoldable pub spell_and : Text → Text
spell_and [] = []
spell_and (r ∷ s) = let rest = spell_and s in if r == 38 then 97 ∷ 110 ∷ 100 ∷ rest else r ∷ rest

-- strings.TrimSpace
unfoldable trim_left_runes : (ℕ → Bool) → Text → Text
trim_left_runes space [] = []
trim_left_runes space (r ∷ s) =
    let rest = trim_left_runes space s in if space r then rest else r ∷ s

unfoldable trim_right_runes : (ℕ → Bool) → Text → Text
trim_right_runes space [] = []
trim_right_runes space (r ∷ s) =
    let rest = trim_right_runes space s in if is_empty rest && space r then [] else r ∷ rest

module _ (u : Unicode) where
  abbrev pub is_word_rune : ℕ → Bool
  is_word_rune r = u.is_letter r || u.is_digit_rune r

  -- The function that strings.Map applies.
  abbrev pub or_space : ℕ → ℕ
  or_space r = if is_word_rune r then r else 32

  unfoldable pub show_name_key_keep_article : Text → Text
  unfolding spell_and is_dropped fields join_words
  show_name_key_keep_article name =
      let s = spell_and (map u.to_lower_rune name) in
      join_words (fields u.is_space_rune (map or_space (keep (λ r. not (is_dropped r)) s)))

  abbrev cut_article : Text → Text
  cut_article s = if has_prefix s (codes "the ") then drop 4 s else s

  unfoldable pub show_name_key : Text → Text
  unfolding show_name_key_keep_article has_prefix
  show_name_key name = cut_article (show_name_key_keep_article name)

  unfoldable pub trim_runes : Text → Text
  unfolding trim_left_runes trim_right_runes
  trim_runes s = trim_right_runes u.is_space_rune (trim_left_runes u.is_space_rune s)

-- strings.LastIndex(s, " ("): what stands before it and behind it
abbrev extend : ℕ → Option (Text × Text) → Option (Text × Text)
extend r none = none
extend r (some (before, behind)) = some (r ∷ before, behind)

abbrev or_here : Text → Option (Text × Text) → Option (Text × Text)
or_here s (some found) = some found
or_here s none = if has_prefix s (codes " (") then some ([], drop 2 s) else none

unfoldable cut_last_bracket : Text → Option (Text × Text)
unfolding has_prefix
cut_last_bracket [] = none
cut_last_bracket (r ∷ s) = or_here (r ∷ s) (extend r (cut_last_bracket s))

unfoldable is_four_digits : Text → Bool
is_four_digits (a ∷ b ∷ c ∷ d ∷ []) = is_digit a && is_digit b && is_digit c && is_digit d
is_four_digits _ = false

abbrev ends_year : Text → Bool
ends_year (a ∷ b ∷ c ∷ d ∷ e ∷ []) = is_four_digits (a ∷ b ∷ c ∷ d ∷ []) && (e == 41)
ends_year _ = false

abbrev year_cut : Option (Text × Text) → Option Text
year_cut none = none
year_cut (some (before, behind)) = if ends_year behind then some before else none

-- "Doctor Who" of "Doctor Who (2005)"; `none` where ok is false
unfoldable pub cut_year_suffix : Text → Option Text
unfolding cut_last_bracket is_four_digits
cut_year_suffix s = year_cut (cut_last_bracket s)
