-- ===== src/Newznab/Filter/Sound.antt =====
-- What passes the filter of a search says what was searched for.
use iplayer_arr.Prelude.{
  ◌≡◌, refl, sym, ap, ◌∙◌, ◌⊎◌, inl, inr, ℕ, ◌<◌, ◌==◌, ==_iff, leb, ltb, Bool, true, false, ◌&&◌,
  not, Option, none, some, [], ◌∷◌, ◌++◌, Text, is_empty, codes, text_eq, Bool-cases, arith,
  if◌then◌else◌,
}
use iplayer_arr.Prelude.Int.{ℤ, pos, negsuc, at_least}
use iplayer_arr.Store.Catalogue.{Programme}
use iplayer_arr.Store.Names.{Unicode}
use iplayer_arr.Newznab.Brands.{name_matches_for}
use iplayer_arr.Newznab.Subtitles.{is_special}
use iplayer_arr.Newznab.Titles.{build_sxxexx_title, sanitise_for_title}
use iplayer_arr.Newznab.Generate.{Tier, tier_full, generate_title, numbered_title, special_number}
use iplayer_arr.Newznab.Parse.{EpisodeIdentity, parse_title, find_marker}
use iplayer_arr.Newznab.Parse.RoundTrip.{parse_title-build_sxxexx_title}
use iplayer_arr.Newznab.Filter.{
  int_eq, overrides_numbering, read_number, emitted_number, hatch, asked_for, filtered_on,
  season_and_episode, matches_search_filter_for,
}

int_eq_lem : (x : ℤ) (n : ℕ) → int_eq x (pos n) ≡ true → x ≡ pos n
int_eq_lem (pos m) n h = ap pos ((==_iff m n).0 h)
int_eq_lem (negsuc m) n h = absurd (cc h)

both :
    (a b : Bool) → (if not a then false else not (true && not b)) ≡ true → (a ≡ true) × (b ≡ true)
both true true h = (refl, refl)
both true false h = absurd (cc h)
both false b h = absurd (cc h)

asked :
    (series episode_num : ℤ) (season number : ℕ)
    → leb 1 number ≡ true
    → asked_for series episode_num (pos season) (pos number) ≡ true
    → (series ≡ pos season) × (episode_num ≡ pos number)
asked series episode_num season number positive h =
    let (s, e) =
      both (int_eq series (pos season)) (int_eq episode_num (pos number)) (rw positive at h) in
    (int_eq_lem series season s, int_eq_lem episode_num number e)

-- A text of the name filter and the date filter that are passed leaves the numbers.
filters_left :
    (named : Bool) (date : Text) (dated rest : Bool)
    → is_empty date ≡ true
    → (if named then false else if not (is_empty date) then dated else rest) ≡ true
    → rest ≡ true
filters_left true date dated rest d h = absurd (cc h)
filters_left false date dated rest d h = rw d at h

either_same : {A : Type 0} (b : Bool) (x y : A) → y ≡ x → (if b then x else y) ≡ x
either_same true x y h = refl
either_same false x y h = h

past_special : (b c : Bool) → (b && false && c) ≡ false
past_special true c = refl
past_special false c = refl

numbered_own :
    (scan : Text → ℤ) (p : Programme) (quality : Text) (position_season : ℤ) (season number : ℕ)
    → leb 1 season ≡ true
    → leb 1 number ≡ true
    → numbered_title scan p p.name quality (pos season) (pos number) position_season
      ≡ (build_sxxexx_title p.name p.episode (pos season) (pos number) quality, tier_full)
unfolding numbered_title
numbered_own scan p quality position_season season number positive positive_too =
    let no_zero : (season == 0) ≡ false = ground arith in
    let no_zero_too : (number == 0) ≡ false = ground arith in
    rw
      (
        no_zero,
        no_zero_too,
        past_special (is_special p.episode)
            (at_least (special_number scan p.position p.air_date) 1),
        positive,
        positive_too,
      )
      refl

-- The title of a programme with a series and an episode number of its own, without an override.
own_numbers :
    (scan : Text → ℤ) (p : Programme) (quality : Text) (season number : ℕ)
    → p.series ≡ pos season
    → p.episode_num ≡ pos number
    → leb 1 season ≡ true
    → leb 1 number ≡ true
    → generate_title scan p quality none
      ≡ (build_sxxexx_title p.name p.episode (pos season) (pos number) quality, tier_full)
unfolding generate_title
own_numbers scan p quality season number s e positive positive_too =
    let title = λ (x : ℤ) (y : ℤ).
      if◌then◌else◌ {A = Text × Tier} p.tvdb_numbered
        (build_sxxexx_title p.name p.episode x y quality, tier_full)
        (numbered_title scan p p.name quality x y (pos 1)) in
    ap (λ (x : ℤ). title x p.episode_num) s
    ∙ ap (title (pos season)) e
    ∙ either_same p.tvdb_numbered
        (build_sxxexx_title p.name p.episode (pos season) (pos number) quality, tier_full)
        (numbered_title scan p p.name quality (pos season) (pos number) (pos 1))
        (numbered_own scan p quality (pos 1) season number positive positive_too)

module _ (scan : Text → ℤ) (u : Unicode) (p : Programme) (want_name : Text) (the_tvdb : Bool) where
  -- What the filter says of a number that it read in the title.
  read_lem :
      (id : EpisodeIdentity) (season number : ℕ)
      → leb 1 number ≡ true
      → hatch p ≡ true
      → filtered_on p (some id) (pos season) (pos number) ≡ true
      → (id.season ≡ season) × (id.episode ≡ number)
  read_lem id season number positive dateable h = elim (Bool-cases (ltb 0 id.episode)) [
    | inl readable ↦
        let (s, e) =
          asked (pos id.season) (pos id.episode) season number positive (rw readable at h) in
        (cc, cc)
    | inr zero ↦ absurd (cc (rw (zero, dateable) at h))
  ]

  hatch_lem :
      (o : Option EpisodeIdentity) (season number : ℕ)
      → leb 1 number ≡ true
      → hatch p ≡ true
      → filtered_on p o (pos season) (pos number) ≡ true
      → ((id : EpisodeIdentity) × (o ≡ some id) × (id.season ≡ season) × (id.episode ≡ number))
        ⊎ ((o ≡ none) × (hatch p ≡ true))
  hatch_lem none season number positive dateable h = inr (refl, dateable)
  hatch_lem (some id) season number positive dateable h =
      let (s, e) = read_lem id season number positive dateable h in inl (id, refl, s, e)

  passed :
      (season number : ℕ)
      → matches_search_filter_for scan u p none want_name the_tvdb [] (pos season) (pos number)
        ≡ true
      → season_and_episode scan p none (pos season) (pos number) ≡ true
  unfolding matches_search_filter_for
  passed season number h =
      filters_left (not (is_empty want_name) && not (name_matches_for u p.name want_name the_tvdb))
        [] (text_eq p.air_date []) (season_and_episode scan p none (pos season) (pos number)) refl h

  -- Which numbers the last tests are made on.
  on_title :
      (season number : ℕ)
      → hatch p ≡ true
      → season_and_episode scan p none (pos season) (pos number)
        ≡ filtered_on p (emitted_number scan p none) (pos season) (pos number)
  on_title season number dateable = rw dateable refl

  on_own :
      (season number : ℕ)
      → hatch p ≡ false
      → season_and_episode scan p none (pos season) (pos number)
        ≡ asked_for p.series p.episode_num (pos season) (pos number)
  unfolding overrides_numbering
  on_own season number shut = rw shut refl

  emitted_own :
      (season number : ℕ)
      → p.series ≡ pos season
      → p.episode_num ≡ pos number
      → leb 1 season ≡ true
      → leb 1 number ≡ true
      → emitted_number scan p none
        ≡ some (
            parse_title
              (build_sxxexx_title p.name p.episode (pos season) (pos number) (codes "720p")))
  unfolding emitted_number
  emitted_own season number s e s1 e1 =
      ap read_number (own_numbers scan p (codes "720p") season number s e s1 e1)

  -- A programme without an override that passes the filter of a search for a season from 1 to 99 and
  -- an episode from 1 to 9999 goes out under a title that ParseTitle reads as that season and that
  -- episode, or under a title without a number, and the latter only if the BBC has no numbers for it
  -- and it has an air date. The sanitised name before its dot must read as no numbering of its own.
  pub matches_search_filter-title :
      (season number : ℕ)
      → leb 1 season ≡ true
      → season < 100
      → leb 1 number ≡ true
      → number < 10000
      → find_marker true (sanitise_for_title p.name ++ b'.' ∷ []) ≡ none
      → matches_search_filter_for scan u p none want_name the_tvdb [] (pos season) (pos number)
        ≡ true
      → ((id : EpisodeIdentity) × (emitted_number scan p none ≡ some id)
          × (id.season ≡ season)
          × (id.episode ≡ number))
        ⊎ ((emitted_number scan p none ≡ none) × (hatch p ≡ true))
  matches_search_filter-title season number s1 s2 e1 e2 plain h =
      let through = passed season number h in
      elim (Bool-cases (hatch p)) [
        | inl dateable ↦
            hatch_lem (emitted_number scan p none) season number e1 dateable
              (sym (on_title season number dateable) ∙ through)
        | inr shut ↦
            let (s, e) =
              asked p.series p.episode_num season number e1
                (sym (on_own season number shut) ∙ through) in
            let read =
              parse_title-build_sxxexx_title p.name p.episode (codes "720p") season number s2 e2
                plain in
            inl (
              parse_title
                  (build_sxxexx_title p.name p.episode (pos season) (pos number) (codes "720p")),
              emitted_own season number s e s1 e1,
              ap (λ (id : EpisodeIdentity). id.season) read,
              ap (λ (id : EpisodeIdentity). id.episode) read,
            )
      ]
