-- ===== src/Bbc/Playlist/Choice.antt =====
-- pickVersion in one pass finds what three separate searches of the versions would.
use iplayer_arr.Prelude.{
  ◌≡◌, refl, sym, ap, ◌∙◌, inl, inr, ltb, Bool, true, false, ◌&&◌, not, Option, none, some, List,
  [], ◌∷◌, Text, Bool-cases, arith, if◌then◌else◌,
}
use iplayer_arr.Store.Types.{Time}
use iplayer_arr.Bbc.Playlist.{
  Version, available_from, no_version, Answer, found, refused, Seen, normalise_version_type,
  is_live_kind, is_accessible_kind, has_started, earlier_start, first_accessible, nothing_started,
  pick_from, pick_version, or_zero, starts_later,
}

-- The first version of a list that passes a test.
abbrev pub first_such : (Version → Bool) → List Version → Option Version
first_such test [] = none
first_such test (v ∷ versions) = if test v then some v else first_such test versions

-- The three searches in turn.
abbrev pub choice : Option Version → Option Time → Option Version → Answer (Version × Bool)
choice (some v) start fallback = found (v, false)
choice none (some start) fallback = refused (available_from start)
choice none none (some v) = found (v, true)
choice none none none = refused no_version

module _ (parse : Text → Option Time) (now : Time) where
  abbrev kind_of : Version → Text
  kind_of v = normalise_version_type v.kind

  -- A version on demand that is neither audio-described nor signed.
  abbrev is_standard : Version → Bool
  is_standard v = not (is_live_kind (kind_of v)) && not (is_accessible_kind (kind_of v))

  abbrev pub is_playable : Version → Bool
  is_playable v = is_standard v && has_started parse now v

  abbrev pub is_fallback : Version → Bool
  is_fallback v =
      not (is_live_kind (kind_of v)) && is_accessible_kind (kind_of v) && has_started parse now v

  abbrev is_announced : Version → Bool
  is_announced v = is_standard v && not (has_started parse now v)

  abbrev sooner : Time → Option Time → Time
  sooner start none = start
  sooner start (some t) = if ltb t start then t else start

  -- The earliest start of the announced versions.
  abbrev pub soonest : List Version → Option Time
  soonest [] = none
  soonest (v ∷ versions) =
      if is_announced v
      then some (sooner (or_zero (parse v.start)) (soonest versions))
      else soonest versions

  abbrev joined : Time → Option Time → Time
  joined first none = first
  joined first (some t) = earlier_start first t

  abbrev or_later : Option Version → Option Version → Option Version
  or_later none later = later
  or_later (some v) later = some v

  abbrev unless_playable : Option Version → Answer (Version × Bool) → Answer (Version × Bool)
  unless_playable (some v) rest = found (v, false)
  unless_playable none rest = rest

  joined-sooner :
      (first start : Time) (o : Option Time)
      → ltb 0 start ≡ true
      → joined (earlier_start first start) o ≡ joined first (some (sooner start o))
  joined-sooner first start none h = refl
  joined-sooner first start (some t) h = ground arith

  or_later-first :
      (a : Option Version) (v : Version) (o : Option Version)
      → or_later (first_accessible a v) o ≡ or_later a (some v)
  or_later-first none v o = refl
  or_later-first (some w) v o = refl

  later_positive : (o : Option Time) → starts_later parse now o ≡ true → ltb 0 (or_zero o) ≡ true
  later_positive none h = absurd (cc h)
  later_positive (some t) h = ground arith

  started_not :
      (o : Option Time) → not (starts_later parse now o) ≡ false → starts_later parse now o ≡ true
  started_not o h = ground arith

  announced : (a b : Bool) → (a && not (not b)) ≡ true → b ≡ true
  announced true true h = refl
  announced true false h = absurd (cc h)
  announced false b h = absurd (cc h)

  sooner_positive :
      (start : Time) (o : Option Time)
      → ltb 0 start ≡ true
      → ((t : Time) → o ≡ some t → ltb 0 t ≡ true)
      → ltb 0 (sooner start o) ≡ true
  sooner_positive start none h k = h
  sooner_positive start (some t) h k = let positive = k t refl in ground arith

  soonest_positive :
      (versions : List Version) (t : Time) → soonest versions ≡ some t → ltb 0 t ≡ true
  soonest_positive [] t h = cc
  soonest_positive (v ∷ versions) t h = elim (Bool-cases (is_announced v)) [
    | inl e ↦
        let later = announced (is_standard v) (starts_later parse now (parse v.start)) e in
        let same : sooner (or_zero (parse v.start)) (soonest versions) ≡ t = cc (rw e at h) in
        ap (ltb 0) (sym same)
        ∙ sooner_positive (or_zero (parse v.start)) (soonest versions)
            (later_positive (parse v.start) later) (soonest_positive versions)
    | inr e ↦ soonest_positive versions t (rw e at h)
  ]

  -- The loop's state behind the versions that are left.
  abbrev behind : List Version → Seen → Seen
  behind versions seen = record {
    first_start = joined seen.first_start (soonest versions);
    accessible = or_later seen.accessible (first_such is_fallback versions);
  }

  or_later-none : (a : Option Version) → or_later a none ≡ a
  or_later-none none = refl
  or_later-none (some v) = refl

  -- What is found in the versions that are left, from a first start and a fallback.
  abbrev ending : List Version → Time → Option Version → Answer (Version × Bool)
  ending versions first fallback =
      unless_playable (first_such is_playable versions)
        (nothing_started (record { first_start = first; accessible = fallback }))

  pick_from_lem :
      (versions : List Version) (seen : Seen)
      → pick_from parse now versions seen
        ≡ unless_playable (first_such is_playable versions) (nothing_started (behind versions seen))
  unfolding pick_from
  pick_from_lem [] seen = ap (ending [] seen.first_start) (sym (or_later-none seen.accessible))
  pick_from_lem (v ∷ versions) seen = elim (Bool-cases (is_live_kind (kind_of v))) [
    | inl live ↦ rw live (pick_from_lem versions seen)
    | inr on_demand ↦ elim (Bool-cases (is_accessible_kind (kind_of v))) [
      | inl accessible ↦ elim (Bool-cases (has_started parse now v)) [
        | inl started ↦
            rw (on_demand, accessible, started)
              (pick_from_lem versions
                  (record seen { accessible = first_accessible seen.accessible v })
                ∙ ap (ending versions (joined seen.first_start (soonest versions)))
                    (or_later-first seen.accessible v (first_such is_fallback versions)))
        | inr later ↦ rw (on_demand, accessible, later) (pick_from_lem versions seen)
      ]
      | inr standard ↦ elim (Bool-cases (has_started parse now v)) [
        | inl started ↦ rw (on_demand, standard, started) refl
        | inr later ↦
            rw (on_demand, standard, later)
              (pick_from_lem versions (record seen {
                first_start = earlier_start seen.first_start (or_zero (parse v.start));
              })
                ∙ ap
                    (λ (t : Time).
                      ending versions t
                        (or_later seen.accessible (first_such is_fallback versions)))
                    (joined-sooner seen.first_start (or_zero (parse v.start)) (soonest versions)
                      (later_positive (parse v.start) (started_not (parse v.start) later))))
      ]
    ]
  ]

  ending_lem :
      (playable : Option Version) (start : Option Time) (fallback : Option Version)
      → ((t : Time) → start ≡ some t → ltb 0 t ≡ true)
      → unless_playable playable
          (nothing_started (record { first_start = joined 0 start; accessible = fallback }))
        ≡ choice playable start fallback
  ending_lem (some v) start fallback h = refl
  ending_lem none (some t) fallback h = let positive = h t refl in ground arith
  ending_lem none none (some v) h = refl
  ending_lem none none none h = refl

  -- pickVersion finds the first version of the list that is on demand, is neither audio-described nor
  -- signed, and has started; failing that, it refuses until the earliest start of such versions that
  -- start later; failing those too, it finds the first audio-described or signed version on demand
  -- that has started, and says that it is one; and it refuses where there is none of these. A version
  -- whose start does not parse has started.
  pub pick_version-choice :
      (versions : List Version)
      → pick_version parse now versions
        ≡ choice
            (first_such is_playable versions)
            (soonest versions)
            (first_such is_fallback versions)
  unfolding pick_version
  pick_version-choice versions =
      pick_from_lem versions (record { first_start = 0; accessible = none })
      ∙ ending_lem (first_such is_playable versions) (soonest versions)
          (first_such is_fallback versions) (soonest_positive versions)
