-- ===== src/Newznab/Titles/Clean.antt =====
-- A sanitised title fragment is made of letters, digits, dots and hyphens, with no two dots in a row
-- and none at either end.
use iplayer_arr.Prelude.{
  ◌≡◌, refl, ◌∙◌, inl, inr, ℕ, ◌==◌, Bool, true, false, ◌&&◌, ◌||◌, [], ◌∷◌, Text, All, keep,
  is_digit, is_empty, Bool-cases, trim_space, arith, if◌then◌else◌,
}
use iplayer_arr.Newznab.Subtitles.{is_letter}
use iplayer_arr.Newznab.Titles.{
  is_safe, dotted, spell, one_dot, trim_dots_left, trim_dots_right, replace_runes, rune_for,
  transliterations, sanitise_for_title,
}

-- A rune of a release title's fragment.
abbrev pub is_title_rune : ℕ → Bool
is_title_rune c = is_letter c || is_digit c || (c == b'.') || (c == b'-')

abbrev IsTitle : Text → Type 0
IsTitle s = All (λ c. is_title_rune c ≡ true) s

kept-All : (p : ℕ → Bool) (s : Text) → All (λ c. p c ≡ true) (keep p s)
kept-All p [] = tt
kept-All p (c ∷ s) = elim (Bool-cases (p c)) [
  | inl e ↦ rw (keep, e) (e, kept-All p s)
  | inr e ↦ rw (keep, e) (kept-All p s)
]

dotted-title : (c : ℕ) → is_safe c ≡ true → is_title_rune (dotted c) ≡ true
dotted-title c h = ground arith

dotted-All :
    (s : Text) → All (λ c. is_safe c ≡ true) s → IsTitle (replace_runes (λ c. dotted c ∷ []) s)
unfolding replace_runes
dotted-All [] h = tt
dotted-All (c ∷ s) (e, h) = (dotted-title c e, dotted-All s h)

one_dot-All : (s : Text) → IsTitle s → IsTitle (one_dot s)
unfolding one_dot
one_dot-All [] h = tt
one_dot-All (c ∷ []) h = h
one_dot-All (c ∷ d ∷ s) (e, h) = elim (Bool-cases ((c == b'.') && (d == b'.'))) [
  | inl both ↦ rw both (one_dot-All (d ∷ s) h)
  | inr no_dots ↦ rw no_dots (e, one_dot-All (d ∷ s) h)
]

trim_left-All : (s : Text) → IsTitle s → IsTitle (trim_dots_left s)
unfolding trim_dots_left
trim_left-All [] h = tt
trim_left-All (c ∷ s) (e, h) = elim (Bool-cases (c == b'.')) [
  | inl dot ↦ rw dot (trim_left-All s h)
  | inr other ↦ rw other (e, h)
]

trim_right-All : (s : Text) → IsTitle s → IsTitle (trim_dots_right s)
unfolding trim_dots_right
trim_right-All [] h = tt
trim_right-All (c ∷ s) (e, h) = elim (Bool-cases (is_empty (trim_dots_right s) && (c == b'.'))) [
  | inl end ↦ rw end tt
  | inr more ↦ rw more (e, trim_right-All s h)
]

-- Two dots in a row, a dot at the start, and a dot at the end.
unfoldable pub has_two_dots : Text → Bool
has_two_dots [] = false
has_two_dots (c ∷ []) = false
has_two_dots (c ∷ d ∷ s) = ((c == b'.') && (d == b'.')) || has_two_dots (d ∷ s)

unfoldable pub starts_dot : Text → Bool
starts_dot [] = false
starts_dot (c ∷ s) = c == b'.'

unfoldable pub ends_dot : Text → Bool
ends_dot [] = false
ends_dot (c ∷ []) = c == b'.'
ends_dot (c ∷ d ∷ s) = ends_dot (d ∷ s)

two_dots-cons :
    (c : ℕ) (t : Text) → has_two_dots (c ∷ t) ≡ (((c == b'.') && starts_dot t) || has_two_dots t)
unfolding has_two_dots starts_dot
two_dots-cons c [] = ground arith
two_dots-cons c (d ∷ t) = refl

ends_dot-cons :
    (c : ℕ) (t : Text) → ends_dot (c ∷ t) ≡ (if is_empty t then c == b'.' else ends_dot t)
unfolding ends_dot
ends_dot-cons c [] = refl
ends_dot-cons c (d ∷ t) = refl

starts_dot-one_dot : (c : ℕ) (s : Text) → starts_dot (one_dot (c ∷ s)) ≡ (c == b'.')
unfolding starts_dot one_dot
starts_dot-one_dot c [] = refl
starts_dot-one_dot c (d ∷ s) = ground (arith, starts_dot-one_dot d s)

one_dot_lem : (s : Text) → has_two_dots (one_dot s) ≡ false
unfolding has_two_dots one_dot
one_dot_lem [] = refl
one_dot_lem (c ∷ []) = refl
one_dot_lem (c ∷ d ∷ s) = elim (Bool-cases ((c == b'.') && (d == b'.'))) [
  | inl both ↦ rw both (one_dot_lem (d ∷ s))
  | inr no_dots ↦ rw no_dots (
      two_dots-cons c (one_dot (d ∷ s))
      ∙ rw (starts_dot-one_dot d s, no_dots, one_dot_lem (d ∷ s)) refl)
]

two_dots-tail : (c : ℕ) (t : Text) → has_two_dots (c ∷ t) ≡ false → has_two_dots t ≡ false
two_dots-tail c t h = ground (arith, two_dots-cons c t, h)

left_lem :
    (s : Text)
    → has_two_dots s ≡ false
    → (has_two_dots (trim_dots_left s) ≡ false) × (starts_dot (trim_dots_left s) ≡ false)
unfolding trim_dots_left starts_dot
left_lem [] h = (h, refl)
left_lem (c ∷ s) h = elim (Bool-cases (c == b'.')) [
  | inl dot ↦ rw dot (left_lem s (two_dots-tail c s h))
  | inr other ↦ rw other (h, other)
]

starts_dot-trim_right : (s : Text) → starts_dot s ≡ false → starts_dot (trim_dots_right s) ≡ false
unfolding trim_dots_right starts_dot
starts_dot-trim_right [] h = refl
starts_dot-trim_right (c ∷ s) h = ground (arith, h)

right_lem :
    (s : Text)
    → has_two_dots s ≡ false
    → (has_two_dots (trim_dots_right s) ≡ false) × (ends_dot (trim_dots_right s) ≡ false)
unfolding trim_dots_right
right_lem [] h = (unfold has_two_dots in refl, unfold ends_dot in refl)
right_lem (c ∷ s) h =
    let rest = trim_dots_right s in
    let (two, end) = right_lem s (two_dots-tail c s h) in
    elim (Bool-cases (is_empty rest && (c == b'.'))) [
      | inl dropped ↦ rw dropped (unfold has_two_dots in refl, unfold ends_dot in refl)
      | inr kept ↦ rw kept (
        two_dots-cons c rest ∙ ground (arith, two, two_dots-cons c s, h, starts_dot-trim_right s),
        ends_dot-cons c rest ∙ ground (arith, kept, end),
      )
    ]

-- What sanitiseForTitle gives, of any text, consists of ASCII letters and digits, dots and hyphens,
-- and has no two dots in a row and no dot at its start or its end.
pub sanitise_for_title-IsClean :
    (s : Text)
    → All (λ c. is_title_rune c ≡ true) (sanitise_for_title s)
      × (has_two_dots (sanitise_for_title s) ≡ false)
      × (starts_dot (sanitise_for_title s) ≡ false)
      × (ends_dot (sanitise_for_title s) ≡ false)
unfolding sanitise_for_title trim_space
sanitise_for_title-IsClean s =
    let folded = replace_runes (rune_for transliterations) (trim_space s) in
    let safe = keep is_safe (replace_runes spell folded) in
    let fragment = replace_runes (λ c. dotted c ∷ []) safe in
    let (two, start) = left_lem (one_dot fragment) (one_dot_lem fragment) in
    let (two_left, end) = right_lem (trim_dots_left (one_dot fragment)) two in
    (
      trim_right-All (trim_dots_left (one_dot fragment)) (
          trim_left-All (one_dot fragment) (
            one_dot-All fragment
              (dotted-All safe (kept-All is_safe (replace_runes spell folded))))),
      two_left,
      starts_dot-trim_right (trim_dots_left (one_dot fragment)) start,
      end,
    )
