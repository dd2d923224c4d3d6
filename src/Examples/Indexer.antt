-- ===== src/Examples/Indexer.antt =====
-- Examples of release titles, of the search filter and of the advertised qualities.
use iplayer_arr.Prelude.{
  length, digits, trim_suffix, ◌≡◌, refl, inl, ℕ, ◌+◌, ◌==◌, leb, ◌≤◌, false, true, ◌&&◌, none,
  some, [], ◌∷◌, ◌++◌, Text, codes, In, text_eq, text_cmp, arith, ◌⊎◌, ◌||◌, if◌then◌else◌,
}
use iplayer_arr.Prelude.Int.{ℤ, pos}
use iplayer_arr.Store.Catalogue.{Programme}
use iplayer_arr.Store.Names.{
  Unicode, show_name_key, show_name_key_keep_article, spell_and, is_dropped,
}
use iplayer_arr.Newznab.Brands.{name_matches_for}
use iplayer_arr.Newznab.Titles.{build_sxxexx_title, sanitise_for_title}
use iplayer_arr.Newznab.Generate.{generate_title, position_guess}
use iplayer_arr.Newznab.Generate.Guess.{titled, generate_title-position_guess}
use iplayer_arr.Newznab.Parse.{EpisodeIdentity, parse_title, find_marker, show_name_from_prefix}
use iplayer_arr.Newznab.Parse.RoundTrip.{parse_title-build_sxxexx_title}
use iplayer_arr.Newznab.Filter.{emitted_number, hatch, matches_search_filter_for}
use iplayer_arr.Newznab.Filter.Sound.{matches_search_filter-title}
use iplayer_arr.Newznab.Limits.{emitted_qualities, cap_quality_tags, tag_height}
use iplayer_arr.Newznab.Limits.Ceiling.{IsWithin, emitted_qualities-IsWithin}

-- Every subtitle without a number at its end.
abbrev scan : Text → ℤ
scan t = pos 0

-- The ASCII part of Unicode.
abbrev pub ascii : Unicode
ascii = record {
  to_lower_rune = λ r. if leb 65 r && leb r 90 then r + 32 else r;
  is_letter = λ r. (leb 65 r && leb r 90) || (leb 97 r && leb r 122);
  is_digit_rune = λ r. leb 48 r && leb r 57;
  is_space_rune = λ r. (leb 9 r && leb r 13) || (r == 32);
  equal_fold = λ s t. text_eq s t;
}

abbrev doctor_who : Text
doctor_who = codes "Doctor Who"

abbrev programme : Programme
programme = record {
  pid = codes "b1";
  vpid = codes "v1";
  name = doctor_who;
  episode = codes "Blink";
  series = pos 2;
  episode_num = pos 3;
  air_date = [];
  channel = codes "BBC One";
  duration = 2700;
  synopsis = [];
  thumbnail = [];
  available = 0;
  expires = 0;
  qualities = [];
  position = pos 3;
  identity_tier = codes "full";
  is_date_based = false;
  tvdb_numbered = false;
  series_assumed = false;
  episode_assumed = false;
  tvdb_unchecked = false;
  tvdb_contradicted = false;
  cached_at = 0;
}

abbrev name_title : Text
name_title = sanitise_for_title doctor_who

plain : find_marker true (sanitise_for_title doctor_who ++ b'.' ∷ []) ≡ none
unfolding find_marker sanitise_for_title
plain = refl

parse_title-build_sxxexx_title_example :
    parse_title (build_sxxexx_title doctor_who (codes "Blink") (pos 2) (pos 3) (codes "720p"))
    ≡ record {
      show_name = show_name_from_prefix (sanitise_for_title doctor_who ++ b'.' ∷ []);
      season = 2;
      episode = 3;
      air_date = [];
    }
parse_title-build_sxxexx_title_example =
    parse_title-build_sxxexx_title doctor_who (codes "Blink") (codes "720p") 2 3 (omega arith)
      (omega arith) plain

passes :
    matches_search_filter_for scan ascii programme none
      (codes "doctor who")
      false
      []
      (pos 2)
      (pos 3)
    ≡ true
unfolding matches_search_filter_for name_matches_for show_name_key show_name_key_keep_article
    spell_and is_dropped text_cmp
passes = refl

matches_search_filter-title_example :
    ((id : EpisodeIdentity) × (emitted_number scan programme none ≡ some id)
      × (id.season ≡ 2)
      × (id.episode ≡ 3))
    ⊎ ((emitted_number scan programme none ≡ none) × (hatch programme ≡ true))
matches_search_filter-title_example =
    matches_search_filter-title scan ascii programme (codes "doctor who") false 2 3 refl
      (omega arith) refl (omega arith) plain passes

generate_title-position_guess_example :
    (generate_title scan programme (codes "720p") none).0
    ≡ titled scan programme (codes "720p") (position_guess scan programme)
generate_title-position_guess_example =
    generate_title-position_guess scan programme (codes "720p") refl

advertised : In (codes "540p") (emitted_qualities none (pos 600) true 10 3)
unfolding emitted_qualities cap_quality_tags tag_height text_cmp digits trim_suffix
advertised = inl refl

emitted_qualities-IsWithin_example :
    IsWithin none 600 (codes "540p")
    × ((◌≡◌ {A = ℕ} 10 0) ⊎ (3 + length (emitted_qualities none (pos 600) true 10 3) ≤ 10))
emitted_qualities-IsWithin_example =
    emitted_qualities-IsWithin none 600 10 3 true (codes "540p") refl refl advertised
