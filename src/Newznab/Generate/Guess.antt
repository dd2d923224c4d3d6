-- ===== src/Newznab/Generate/Guess.antt =====
-- GenerateTitle and positionGuess agree.
use iplayer_arr.Prelude.{
  ◌≡◌, refl, sym, ap, ◌∙◌, Bool, true, false, ◌&&◌, ◌||◌, not, Option, none, some, [], ◌∷◌, ◌++◌,
  Text, is_empty, if◌then◌else◌,
}
use iplayer_arr.Prelude.Int.{ℤ, pos, at_least, is_zero}
use iplayer_arr.Store.Catalogue.{Programme}
use iplayer_arr.Newznab.Subtitles.{is_special, is_date_subtitle, is_date_like_subtitle}
use iplayer_arr.Newznab.Titles.{
  build_sxxexx_title, build_date_title, build_manual_title, sanitise_for_title, dotted_date,
  release_end,
}
use iplayer_arr.Newznab.Generate.{
  tier_full, tier_position, tier_date, tier_manual, special_number, numbered_title, generate_title,
  position_guess,
}

is_date_like :
    (episode : Text) → is_date_subtitle episode ≡ true → is_date_like_subtitle episode ≡ true
unfolding is_date_like_subtitle
is_date_like episode e = rw e refl

-- The title by date of what is left of a subtitle.
abbrev dated_title : Text → Text → Text → Text → Text
dated_title name air_date quality shown =
    sanitise_for_title name
    ++ (b'.' ∷ (dotted_date air_date ++ release_end quality (sanitise_for_title shown)))

build_date_title_lem :
    (name episode air_date quality : Text)
    → build_date_title name episode air_date quality
      ≡ dated_title name air_date quality (if is_date_like_subtitle episode then [] else episode)
unfolding build_date_title
build_date_title_lem name episode air_date quality = refl

abbrev no_text : Text
no_text = []

either_empty : (b : Bool) → (if b then no_text else no_text) ≡ no_text
either_empty true = refl
either_empty false = refl

-- A date in the subtitle is left out of a title by date in any case.
date_twice :
    (name episode air_date quality : Text)
    → is_date_subtitle episode ≡ true
    → build_date_title name [] air_date quality ≡ build_date_title name episode air_date quality
date_twice name episode air_date quality e =
    let shown : (if is_date_like_subtitle episode then [] else episode) ≡ [] =
      rw (is_date_like episode e) refl in
    build_date_title_lem name [] air_date quality
    ∙ ap (dated_title name air_date quality) (either_empty (is_date_like_subtitle []) ∙ sym shown)
    ∙ sym (build_date_title_lem name episode air_date quality)

abbrev title_of : {A T : Type 0} → A × T → A
title_of r = r.0

if_false : {A : Type 0} (b : Bool) (x y : A) → b ≡ false → (if b then x else y) ≡ y
if_false true x y h = absurd (cc h)
if_false false x y h = refl

-- The order of the tests of GenerateTitle, and of those of positionGuess, on the results that they
-- lead to.
tiers :
    {A T G : Type 0} (on : Option G → A) (special numbered assumed dated placed aired : Bool)
    (g0 gn g1 : G) (d d' m : A) (t0 tn td t1 td' tm : T)
    → (dated ≡ true → d ≡ d')
    → on none ≡ (if numbered then on (some gn) else if aired then d' else m)
    → title_of (
        if special
        then (on (some g0), t0)
        else if numbered
        then (on (some gn), tn)
        else if aired && dated
        then (d, td)
        else if placed
        then (on (some g1), t1)
        else if aired
        then (d', td')
        else (m, tm))
      ≡ on (
          if special
          then some g0
          else if numbered
          then (if assumed then some gn else none)
          else if aired && dated
          then none
          else if placed
          then some g1
          else none)
tiers on true numbered assumed dated placed aired g0 gn g1 d d' m t0 tn td t1 td' tm h n = refl
tiers on false true true dated placed aired g0 gn g1 d d' m t0 tn td t1 td' tm h n = refl
tiers on false true false dated placed aired g0 gn g1 d d' m t0 tn td t1 td' tm h n = sym n
tiers on false false assumed true placed true g0 gn g1 d d' m t0 tn td t1 td' tm h n =
    h refl ∙ sym n
tiers on false false assumed false true true g0 gn g1 d d' m t0 tn td t1 td' tm h n = refl
tiers on false false assumed false false true g0 gn g1 d d' m t0 tn td t1 td' tm h n = sym n
tiers on false false assumed dated true false g0 gn g1 d d' m t0 tn td t1 td' tm h n = refl
tiers on false false assumed dated false false g0 gn g1 d d' m t0 tn td t1 td' tm h n = sym n

module _ (scan : Text → ℤ) (p : Programme) (quality : Text) where
  abbrev pub titled : Option (ℤ × ℤ) → Text
  titled (some (season, episode)) = build_sxxexx_title p.name p.episode season episode quality
  titled none =
      if at_least p.series 1 && at_least p.episode_num 1
      then build_sxxexx_title p.name p.episode p.series p.episode_num quality
      else if not (is_empty p.air_date)
      then build_date_title p.name p.episode p.air_date quality
      else build_manual_title p.name p.episode quality

  -- For a programme that TheTVDB does not number and no override, GenerateTitle emits the number of
  -- positionGuess where that has one; otherwise it emits the series and the episode number of the
  -- BBC where both are positive, else the air date where there is one, and else the bare name.
  pub generate_title-position_guess :
      p.tvdb_numbered ≡ false
      → (generate_title scan p quality none).0 ≡ titled (position_guess scan p)
  unfolding generate_title position_guess numbered_title
  generate_title-position_guess h =
      let special = special_number scan p.position p.air_date in
      ap title_of (
        if_false p.tvdb_numbered
          (build_sxxexx_title p.name p.episode p.series p.episode_num quality, tier_full)
          (numbered_title scan p p.name quality p.series p.episode_num (pos 1)) h)
      ∙ tiers titled
          (is_special p.episode
            && (is_zero p.series || is_zero p.episode_num)
            && at_least special 1)
          (at_least p.series 1 && at_least p.episode_num 1)
          (p.series_assumed && is_special p.episode) (is_date_subtitle p.episode)
          (at_least p.position 1) (not (is_empty p.air_date)) (pos 0, special)
          (p.series, p.episode_num) (pos 1, p.position)
          (build_date_title p.name [] p.air_date quality)
          (build_date_title p.name p.episode p.air_date quality)
          (build_manual_title p.name p.episode quality) tier_full tier_full tier_date tier_position
          tier_date tier_manual (date_twice p.name p.episode p.air_date quality) refl
