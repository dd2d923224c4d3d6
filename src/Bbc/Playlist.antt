-- ===== src/Bbc/Playlist.antt =====
-- internal/bbc/playlist.go: which version of an episode is downloaded. Strings are ASCII where their
-- case is changed. The fetch with its decoding, time.Parse at RFC 3339, and parseISODuration, which
-- computes in floating point, are parameters; the time 0 is Go's zero time.
pub mod Choice
pub mod Asked
use iplayer_arr.Prelude.{
  ℕ, zero, suc, has_prefix, leb, ltb, ◌==◌, Bool, true, false, ◌&&◌, ◌||◌, not, Option, none, some,
  List, [], ◌∷◌, ◌++◌, Text, codes, text_eq, is_empty, is_digit, is_space, length, map, contains,
  to_lower, fields, if◌then◌else◌,
}
use iplayer_arr.Store.Types.{Time}

pub record Version : Type 0 where
  pub id : Text
  pub kind : Text
  pub duration : Text
  pub start : Text

-- `versions` is `none` where the key is missing.
pub record Episode : Type 0 where
  pub id : Text
  pub live : Bool
  pub title : Text
  pub subtitle : Text
  pub synopsis : Text
  pub image : Text
  pub versions : Option (List Version)

pub record VersionInfo : Type 0 where
  pub pid : Text
  pub vpid : Text
  pub kind : Text

pub record PlaylistInfo : Type 0 where
  pub vpid : Text
  pub title : Text
  pub summary : Text
  pub duration : ℕ
  pub thumbnail : Text
  pub kind : Text
  pub versions : List VersionInfo
  pub accessibility_only : Bool

-- The errors; the last four wrap ErrNotYetAvailable.
pub data Refusal : Type 0 where
  invalid_pid fetch_failed parse_failed unexpected_shape : Refusal
  not_listed airing_live no_version : Refusal
  available_from : Time → Refusal

pub data Answer (A : Type 0) : Type 0 where
  found : A → Answer A
  refused : Refusal → Answer A

-- What the fetch and the decoding give: `episodes` is `none` where the key is missing.
pub data Fetched : Type 0 where
  no_body bad_body : Fetched
  episodes : Option (List Episode) → Fetched

abbrev first_field : List Text → Text
first_field [] = codes "unknown"
first_field (field ∷ rest) = to_lower field

unfoldable pub normalise_version_type : Text → Text
unfolding to_lower contains fields
normalise_version_type raw =
    let lowered = to_lower raw in
    let described =
      contains lowered (codes "described") || contains lowered (codes "description") in
    if contains lowered (codes "sign")
    then if described then codes "combined" else codes "signed"
    else if described
    then codes "audiodescribed"
    else if contains lowered (codes "open subtitles")
    then codes "opensubtitles"
    else first_field (fields is_space raw)

-- pidPattern: ^[0-9a-z]{1,32}$
abbrev is_pid_rune : ℕ → Bool
is_pid_rune c = is_digit c || (leb b'a' c && leb c b'z')

unfoldable all_pid_runes : Text → Bool
all_pid_runes [] = true
all_pid_runes (c ∷ s) = is_pid_rune c && all_pid_runes s

unfoldable pub is_pid : Text → Bool
unfolding all_pid_runes
is_pid s = leb 1 (length s) && leb (length s) 32 && all_pid_runes s

abbrev pub is_live_kind : Text → Bool
is_live_kind kind = text_eq kind (codes "simulcast") || text_eq kind (codes "webcast")

abbrev pub is_accessible_kind : Text → Bool
is_accessible_kind kind =
    text_eq kind (codes "audiodescribed")
    || text_eq kind (codes "signed")
    || text_eq kind (codes "combined")

-- The loop's state: the first start so far, and the first accessible version.
pub record Seen : Type 0 where
  pub first_start : Time
  pub accessible : Option Version

abbrev pub or_zero : Option Time → Time
or_zero none = 0
or_zero (some t) = t

abbrev pub first_accessible : Option Version → Version → Option Version
first_accessible none v = some v
first_accessible (some w) v = some w

abbrev pub earlier_start : Time → Time → Time
earlier_start first start = if (first == 0) || ltb start first then start else first

abbrev of_accessible : Option Version → Answer (Version × Bool)
of_accessible none = refused no_version
of_accessible (some v) = found (v, true)

abbrev pub nothing_started : Seen → Answer (Version × Bool)
nothing_started seen =
    if not (seen.first_start == 0)
    then refused (available_from seen.first_start)
    else of_accessible seen.accessible

-- strings.ReplaceAll(s, "{recipe}", "960x540") behind as many bytes as are still to be skipped.
unfoldable pub with_recipe : ℕ → Text → Text
unfolding has_prefix
with_recipe skip [] = []
with_recipe zero (c ∷ s) =
    let plain = c ∷ with_recipe 0 s in
    let replaced = codes "960x540" ++ with_recipe 7 s in
    if has_prefix (c ∷ s) (codes "{recipe}") then replaced else plain
with_recipe (suc skip) (c ∷ s) = with_recipe skip s

module _ (parse : Text → Option Time) (now : Time) where
  abbrev pub starts_later : Option Time → Bool
  starts_later none = false
  starts_later (some start) = ltb now start

  -- Whether a version has started; one whose start does not parse has.
  abbrev pub has_started : Version → Bool
  has_started v = not (starts_later (parse v.start))

  -- The loop of pickVersion from a version on.
  unfoldable pub pick_from : List Version → Seen → Answer (Version × Bool)
  unfolding normalise_version_type
  pick_from [] seen = nothing_started seen
  pick_from (v ∷ versions) seen =
      let kind = normalise_version_type v.kind in
      let past = pick_from versions seen in
      let past_accessible =
        pick_from versions (record seen { accessible = first_accessible seen.accessible v }) in
      let past_later =
        pick_from versions (record seen {
          first_start = earlier_start seen.first_start (or_zero (parse v.start));
        }) in
      if is_live_kind kind
      then past
      else if is_accessible_kind kind
      then if has_started v then past_accessible else past
      else if not (has_started v)
      then past_later
      else found (v, false)

  unfoldable pub pick_version : List Version → Answer (Version × Bool)
  unfolding pick_from
  pick_version versions = pick_from versions (record { first_start = 0; accessible = none })

  module _ (fetch : Text → Fetched) (duration_of : Text → ℕ) where
    abbrev version_info : Version → VersionInfo
    version_info v = record { pid = v.id; vpid = v.id; kind = normalise_version_type v.kind }

    abbrev pub info_of : Episode → List Version → Version → Bool → PlaylistInfo
    info_of ep versions v accessibility_only = record {
      vpid = v.id;
      title = if is_empty ep.subtitle then ep.title else ep.title ++ codes ": " ++ ep.subtitle;
      summary = ep.synopsis;
      duration = duration_of v.duration;
      thumbnail = with_recipe 0 ep.image;
      kind = codes "tv";
      versions = map version_info versions;
      accessibility_only = accessibility_only;
    }

    abbrev pub of_choice : Episode → List Version → Answer (Version × Bool) → Answer PlaylistInfo
    of_choice ep versions (refused why) = refused why
    of_choice ep versions (found (v, accessibility_only)) =
        if is_empty v.id
        then refused unexpected_shape
        else found (info_of ep versions v accessibility_only)

    abbrev pub of_versions : Episode → Option (List Version) → Answer PlaylistInfo
    of_versions ep none = refused unexpected_shape
    of_versions ep (some versions) = of_choice ep versions (pick_version versions)

    abbrev pub of_episodes : Text → Option (List Episode) → Answer PlaylistInfo
    of_episodes pid none = refused unexpected_shape
    of_episodes pid (some []) = refused not_listed
    of_episodes pid (some (ep ∷ rest)) =
        if not (text_eq ep.id pid)
        then refused unexpected_shape
        else if ep.live
        then refused airing_live
        else of_versions ep ep.versions

    abbrev pub of_fetched : Text → Fetched → Answer PlaylistInfo
    of_fetched pid no_body = refused fetch_failed
    of_fetched pid bad_body = refused parse_failed
    of_fetched pid (episodes listed) = of_episodes pid listed

    -- ResolveCtx
    unfoldable pub resolve : Text → Answer PlaylistInfo
    unfolding is_pid pick_version normalise_version_type with_recipe
    resolve pid = if not (is_pid pid) then refused invalid_pid else of_fetched pid (fetch pid)
