-- ===== src/Newznab/Parse/Marker.antt =====
-- Where the marker of the numbering is found in a title.
use iplayer_arr.Prelude.{
  ◌≡◌, refl, ap, ◌∙◌, inl, inr, ℕ, ◌==◌, leb, Bool, true, false, ◌&&◌, ◌||◌, not, Option, none,
  some, [], ◌∷◌, ◌++◌, Text, All, is_digit, length, Bool-cases, arith, if◌then◌else◌,
}
use iplayer_arr.Newznab.Parse.{
  digit_run, bounded_run, paired, episode_at, season_at, marker_at, Match, extend_match, match_here,
  is_alnum, find_marker,
}

digit_run-append :
    (ds s : Text) (c : ℕ)
    → All (λ d. is_digit d ≡ true) ds
    → is_digit c ≡ false
    → digit_run (ds ++ c ∷ s) ≡ (ds, c ∷ s)
unfolding digit_run
digit_run-append [] s c h e = rw e refl
digit_run-append (d ∷ ds) s c (a, h) e = rw (digit_run-append ds s c h e, a) refl

bounded_run-in :
    (low high : ℕ) (run rest : Text)
    → (leb low (length run) && leb (length run) high) ≡ true
    → bounded_run low high (run, rest) ≡ some (run, rest)
bounded_run-in low high run rest e = rw e refl

-- A marker, of numbers with as many digits as the expression allows, in front of a dot.
pub marker_at-made :
    (season episode s : Text)
    → All (λ d. is_digit d ≡ true) season
    → All (λ d. is_digit d ≡ true) episode
    → (leb 1 (length season) && leb (length season) 2) ≡ true
    → (leb 1 (length episode) && leb (length episode) 4) ≡ true
    → marker_at (b'S' ∷ (season ++ b'E' ∷ (episode ++ b'.' ∷ s))) ≡ some (season, episode)
unfolding marker_at
marker_at-made season episode s hs he bs be =
    ap (λ (r : Text × Text). season_at (bounded_run 1 2 r))
      (digit_run-append season (episode ++ b'.' ∷ s) b'E' hs refl)
    ∙ ap season_at (bounded_run-in 1 2 season (b'E' ∷ (episode ++ b'.' ∷ s)) bs)
    ∙ ap (λ (r : Text × Text). paired season (bounded_run 1 4 r))
        (digit_run-append episode s b'.' he refl)
    ∙ ap (paired season) (bounded_run-in 1 4 episode (b'.' ∷ s) be)

-- A run of digits ends in front of a dot at the latest.
digit_run-dot :
    (n t : Text) → digit_run (n ++ b'.' ∷ t) ≡ ((digit_run n).0, (digit_run n).1 ++ b'.' ∷ t)
unfolding digit_run
digit_run-dot [] t = refl
digit_run-dot (c ∷ n) t = ground (arith, digit_run-dot n t)

paired-bounded :
    (season run x y : Text)
    → paired season (bounded_run 1 4 (run, x)) ≡ paired season (bounded_run 1 4 (run, y))
paired-bounded season run x y = elim (Bool-cases (leb 1 (length run) && leb (length run) 4)) [
  | inl e ↦ rw e refl
  | inr e ↦ rw e refl
]

episode_at-dot :
    (season rest t : Text)
    → episode_at season (rest ++ b'.' ∷ t) ≡ episode_at season (rest ++ b'.' ∷ [])
episode_at-dot season [] t = refl
episode_at-dot season (c ∷ n) t = elim (Bool-cases ((c == b'E') || (c == b'e'))) [
  | inl e ↦
      rw (e, digit_run-dot n t, digit_run-dot n [])
        (paired-bounded season (digit_run n).0 ((digit_run n).1 ++ b'.' ∷ t)
          ((digit_run n).1 ++ b'.' ∷ []))
  | inr e ↦ rw e refl
]

season_at-dot :
    (run rest t : Text)
    → season_at (bounded_run 1 2 (run, rest ++ b'.' ∷ t))
      ≡ season_at (bounded_run 1 2 (run, rest ++ b'.' ∷ []))
season_at-dot run rest t = elim (Bool-cases (leb 1 (length run) && leb (length run) 2)) [
  | inl e ↦ rw e (episode_at-dot run rest t)
  | inr e ↦ rw e refl
]

-- A marker that starts in front of a dot ends in front of it, so what stands behind is no matter.
marker_at-dot : (n t : Text) → marker_at (n ++ b'.' ∷ t) ≡ marker_at (n ++ b'.' ∷ [])
unfolding marker_at
marker_at-dot [] t = refl
marker_at-dot (c ∷ n) t = elim (Bool-cases ((c == b'S') || (c == b's'))) [
  | inl e ↦
      rw (e, digit_run-dot n t, digit_run-dot n [])
        (season_at-dot (digit_run n).0 (digit_run n).1 t)
  | inr e ↦ rw e refl
]

-- What a scan that found nothing says of its first step.
absent :
    (free : Bool) (o : Option (Text × Text)) (later other : Option (Match (Text × Text)))
    → (if free then match_here o later else later) ≡ none
    → (later ≡ none) × ((if free then match_here o other else other) ≡ other)
absent true none later other h = (h, refl)
absent true (some f) later other h = absurd (cc h)
absent false o later other h = (h, refl)

absent_behind : (c : ℕ) (o : Option (Match (Text × Text))) → extend_match c o ≡ none → o ≡ none
absent_behind c none h = refl
absent_behind c (some m) h = absurd (cc h)

no_marker : marker_at [] ≡ none
unfolding marker_at
no_marker = refl

found_at :
    (t : Text) (f : Text × Text)
    → marker_at t ≡ some f
    → find_marker true t ≡ some (record { prefix = []; found = f })
unfolding find_marker
found_at [] f m = absurd (cc (m, no_marker))
found_at (c ∷ t) f m = rw m refl

-- Where a name in front of a dot holds no marker, the marker behind it is the leftmost one.
pub find_marker-behind :
    (free : Bool) (n t : Text) (f : Text × Text)
    → find_marker free (n ++ b'.' ∷ []) ≡ none
    → marker_at t ≡ some f
    → find_marker free (n ++ b'.' ∷ t) ≡ some (record { prefix = n ++ b'.' ∷ []; found = f })
unfolding find_marker marker_at
find_marker-behind true [] t f h m = ap (extend_match b'.') (found_at t f m)
find_marker-behind false [] t f h m = ap (extend_match b'.') (found_at t f m)
find_marker-behind free (c ∷ n) t f h m =
    let behind = extend_match c (find_marker (not (is_alnum c)) (n ++ b'.' ∷ t)) in
    let (none_later, skipped) =
      absent free (marker_at (c ∷ (n ++ b'.' ∷ [])))
        (extend_match c (find_marker (not (is_alnum c)) (n ++ b'.' ∷ []))) behind h in
    let none_behind =
      absent_behind c (find_marker (not (is_alnum c)) (n ++ b'.' ∷ [])) none_later in
    ap (λ (o : Option (Text × Text)). if free then match_here o behind else behind)
      (marker_at-dot (c ∷ n) t)
    ∙ skipped
    ∙ ap (extend_match c) (find_marker-behind (not (is_alnum c)) n t f none_behind m)
