-- ===== src/Newznab/Parse/RoundTrip.antt =====
-- ParseTitle reads back the numbers that buildSxxExxTitle wrote.
use iplayer_arr.Prelude.{
  ◌≡◌, refl, sym, ap, ◌∙◌, subst, ℕ, ◌<◌, true, false, Option, none, some, [], ◌∷◌, ◌++◌, Text,
  codes, All, is_space, is_empty, text_eq, text_cmp, trim_space, trim_left, trim_right, trim_suffix,
  arith, if◌then◌else◌, decimal_02, decimal_02-IsPrinted, decimal_02-length,
}
use iplayer_arr.Prelude.Int.{pos}
use mathlib.Core.List.{append_assoc}
use iplayer_arr.Newznab.Subtitles.{cut_series_prefix}
use iplayer_arr.Newznab.Titles.{sanitise_for_title, build_sxxexx_title, release_end, sxxexx}
use iplayer_arr.Newznab.Titles.Clean.{is_title_rune, sanitise_for_title-IsClean}
use iplayer_arr.Newznab.Parse.{
  Match, find_marker, find_date, marker_at, identified, dated, show_name_from_prefix, identity_of,
  parse_title,
}
use iplayer_arr.Newznab.Parse.Marker.{marker_at-made, find_marker-behind}

-- A text that ends with the last letter of the release group.
abbrev EndsGroup : Text → Type 0
EndsGroup t = (s : Text) × (t ≡ s ++ b'r' ∷ [])

ends_behind : (s t : Text) → EndsGroup t → EndsGroup (s ++ t)
ends_behind s t (u, e) = (s ++ u, ap (λ v. s ++ v) e ∙ sym (append_assoc s u (b'r' ∷ [])))

full : (s : Text) → is_empty (s ++ b'r' ∷ []) ≡ false
full [] = refl
full (c ∷ s) = refl

trim_right-group : (s : Text) → trim_right (s ++ b'r' ∷ []) ≡ s ++ b'r' ∷ []
unfolding trim_right
trim_right-group [] = refl
trim_right-group (c ∷ s) = rw (trim_right-group s, full s) refl

not_nzb : (s : Text) → text_eq (s ++ b'r' ∷ []) (codes ".nzb") ≡ false
unfolding text_cmp
not_nzb [] = refl
not_nzb (a ∷ []) = ground arith
not_nzb (a ∷ b ∷ []) = ground arith
not_nzb (a ∷ b ∷ c ∷ []) = ground arith
not_nzb (a ∷ b ∷ c ∷ d ∷ []) = ground arith
not_nzb (a ∷ b ∷ c ∷ d ∷ e ∷ s) = ground arith

trim_suffix-group : (s : Text) → trim_suffix (s ++ b'r' ∷ []) (codes ".nzb") ≡ s ++ b'r' ∷ []
unfolding trim_suffix
trim_suffix-group [] = rw (not_nzb []) refl
trim_suffix-group (c ∷ s) = rw (not_nzb (c ∷ s)) (ap (λ t. c ∷ t) (trim_suffix-group s))

release_end-EndsGroup : (quality se : Text) → EndsGroup (release_end quality se)
release_end-EndsGroup quality se =
    let name = if is_empty se then [] else b'.' ∷ se in
    ends_behind name (b'.' ∷ (quality ++ codes ".WEB-DL.AAC.H264-iParr")) (
      ends_behind (b'.' ∷ quality) (codes ".WEB-DL.AAC.H264-iParr")
        (codes ".WEB-DL.AAC.H264-iPar", refl))

-- The part of a title behind the numbering starts with a dot.
release_end-dot : (quality se : Text) → (rest : Text) × (release_end quality se ≡ b'.' ∷ rest)
release_end-dot quality [] = (quality ++ codes ".WEB-DL.AAC.H264-iParr", refl)
release_end-dot quality (c ∷ se) =
    (c ∷ (se ++ b'.' ∷ (quality ++ codes ".WEB-DL.AAC.H264-iParr")), refl)

-- A fragment in front of a dot starts with no space.
trim_left-title :
    (n t : Text) → All (λ c. is_title_rune c ≡ true) n → trim_left (n ++ b'.' ∷ t) ≡ n ++ b'.' ∷ t
unfolding trim_left
trim_left-title [] t h = refl
trim_left-title (c ∷ n) t (e, h) = let black : is_space c ≡ false = ground arith in rw black refl

-- Trimming leaves a title with a numbering alone.
trimmed :
    (n t : Text)
    → All (λ c. is_title_rune c ≡ true) n
    → EndsGroup t
    → trim_suffix (trim_space (n ++ b'.' ∷ t)) (codes ".nzb") ≡ n ++ b'.' ∷ t
unfolding trim_space
trimmed n t h ends =
    let (s, e) = ends_behind (n ++ b'.' ∷ []) t ends in
    let whole : n ++ b'.' ∷ t ≡ s ++ b'r' ∷ [] = sym (append_assoc n (b'.' ∷ []) t) ∙ e in
    ap (λ (v : Text). trim_suffix (trim_right v) (codes ".nzb")) (trim_left-title n t h ∙ whole)
    ∙ ap (λ (v : Text). trim_suffix v (codes ".nzb")) (trim_right-group s)
    ∙ trim_suffix-group s
    ∙ sym whole

-- The numbering, in front of the rest of the title, is read as its two numbers.
numbering :
    (season episode : ℕ) (rest : Text)
    → season < 100
    → episode < 10000
    → marker_at (b'S' ∷ (decimal_02 season ++ b'E' ∷ (decimal_02 episode ++ b'.' ∷ rest)))
      ≡ some (decimal_02 season, decimal_02 episode)
numbering season episode rest hs he =
    let s = decimal_02-IsPrinted season in
    let e = decimal_02-IsPrinted episode in
    let two = s.at_least_two in
    let two_too = e.at_least_two in
    let short = decimal_02-length 1 season (omega arith) hs in
    let short_too = decimal_02-length 3 episode (omega arith) he in
    marker_at-made (decimal_02 season) (decimal_02 episode) rest s.all_digits e.all_digits
      (ground (arith, two, short)) (ground (arith, two_too, short_too))

-- The pieces of a title with a numbering, in the order in which they are read.
pieces :
    (name episode quality : Text) (season number : ℕ)
    → (rest : Text) × (build_sxxexx_title name episode (pos season) (pos number) quality
        ≡ sanitise_for_title name
          ++ b'.' ∷ (b'S' ∷ (decimal_02 season ++ b'E' ∷ (decimal_02 number ++ b'.' ∷ rest))))
      × EndsGroup (b'S' ∷ (decimal_02 season ++ b'E' ∷ (decimal_02 number ++ b'.' ∷ rest)))
unfolding build_sxxexx_title
pieces name episode quality season number =
    let n = sanitise_for_title name in
    let se = sanitise_for_title (cut_series_prefix episode) in
    let s = decimal_02 season in
    let e = decimal_02 number in
    let (rest, dot) = release_end-dot quality se in
    let joined : sxxexx (pos season) (pos number) ++ release_end quality se
        ≡ b'S' ∷ (s ++ b'E' ∷ (e ++ b'.' ∷ rest)) =
      ap (λ (r : Text). b'S' ∷ ((s ++ b'E' ∷ e) ++ r)) dot
      ∙ ap (λ (r : Text). b'S' ∷ r) (append_assoc s (b'E' ∷ e) (b'.' ∷ rest)) in
    (
      rest,
      ap (λ (r : Text). n ++ b'.' ∷ r) joined,
      subst EndsGroup joined (
          ends_behind (sxxexx (pos season) (pos number)) (release_end quality se)
            (release_end-EndsGroup quality se)),
    )

identity_of_lem :
    (t : Text)
    → is_empty t ≡ false
    → identity_of t ≡ identified (find_marker true t) (dated (find_date true t))
unfolding identity_of
identity_of_lem t e = rw e refl

dot_full : (n t : Text) → is_empty (n ++ b'.' ∷ t) ≡ false
dot_full [] t = refl
dot_full (c ∷ n) t = refl

-- A season below 100 and an episode number below 10000 come back from the release title that they
-- were written into: ParseTitle of a title of buildSxxExxTitle gives these two numbers, the name in
-- front of them, and no air date, where the sanitised name before its dot reads as no numbering of
-- its own. The subtitle and the quality may contain anything.
pub parse_title-build_sxxexx_title :
    (name episode quality : Text) (season number : ℕ)
    → season < 100
    → number < 10000
    → find_marker true (sanitise_for_title name ++ b'.' ∷ []) ≡ none
    → parse_title (build_sxxexx_title name episode (pos season) (pos number) quality) ≡ record {
      show_name = show_name_from_prefix (sanitise_for_title name ++ b'.' ∷ []);
      season = season;
      episode = number;
      air_date = [];
    }
unfolding parse_title
parse_title-build_sxxexx_title name episode quality season number hs he plain =
    let (rest, shape, ends) = pieces name episode quality season number in
    let n = sanitise_for_title name in
    let t = b'S' ∷ (decimal_02 season ++ b'E' ∷ (decimal_02 number ++ b'.' ∷ rest)) in
    let clean = (sanitise_for_title-IsClean name).0 in
    let found =
      find_marker-behind true n t (decimal_02 season, decimal_02 number) plain
        (numbering season number rest hs he) in
    ap (λ (v : Text). identity_of (trim_suffix (trim_space v) (codes ".nzb"))) shape
    ∙ ap identity_of (trimmed n t clean ends)
    ∙ identity_of_lem (n ++ b'.' ∷ t) (dot_full n t)
    ∙ ap
        (λ (o : Option (Match (Text × Text))).
          identified o (dated (find_date true (n ++ b'.' ∷ t))))
        found
    ∙ rw ((decimal_02-IsPrinted season).reads, (decimal_02-IsPrinted number).reads) refl
