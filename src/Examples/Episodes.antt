-- ===== src/Examples/Episodes.antt =====
-- Examples of the choice of a version.
use iplayer_arr.Prelude.{
  ◌≡◌, refl, ℕ, true, false, Option, none, some, List, [], ◌∷◌, Text, codes, is_empty, text_cmp,
}
use iplayer_arr.Store.Types.{Time}
use iplayer_arr.Bbc.Playlist.{
  Version, Episode, PlaylistInfo, found, Fetched, episodes, is_pid, pick_version, resolve,
  normalise_version_type, with_recipe, pick_from,
}
use iplayer_arr.Bbc.Playlist.Choice.{
  first_such, is_playable, is_fallback, soonest, choice, pick_version-choice,
}
use iplayer_arr.Bbc.Playlist.Asked.{resolve-found}

-- Times written as one number.
abbrev parse : Text → Option Time
parse [] = none
parse (n ∷ s) = some n

abbrev described : Version
described = record {
  id = codes "v1";
  kind = codes "audio-described";
  duration = codes "PT1H";
  start = 5 ∷ [];
}

abbrev original : Version
original = record described { id = codes "v2"; kind = codes "original" }

abbrev announced : Version
announced = record original { id = codes "v3"; start = 50 ∷ [] }

abbrev versions : List Version
versions = described ∷ announced ∷ original ∷ []

pick_version-choice_example :
    pick_version parse 9 versions
    ≡ choice
        (first_such (is_playable parse 9) versions)
        (soonest parse 9 versions)
        (first_such (is_fallback parse 9) versions)
pick_version-choice_example = pick_version-choice parse 9 versions

abbrev episode : Episode
episode = record {
  id = codes "b01";
  live = false;
  title = codes "Doctor Who";
  subtitle = codes "Blink";
  synopsis = [];
  image = codes "x/{recipe}.jpg";
  versions = some versions;
}

abbrev fetch : Text → Fetched
fetch pid = episodes (some (episode ∷ []))

abbrev duration_of : Text → ℕ
duration_of iso = 3600

abbrev resolved :
    (info : PlaylistInfo) × (resolve parse 9 fetch duration_of (codes "b01") ≡ found info)
unfolding resolve normalise_version_type with_recipe is_pid text_cmp pick_from pick_version
resolved = (_, refl)

resolve-found_example :
    (is_pid (codes "b01") ≡ true)
    × ((ep : Episode) × (rest : List Episode) × (versions : List Version) × (v : Version) × (fetch
            (codes "b01")
          ≡ episodes (some (ep ∷ rest)))
        × (ep.id ≡ codes "b01")
        × (ep.live ≡ false)
        × (ep.versions ≡ some versions)
        × (pick_version parse 9 versions ≡ found (v, resolved.0.accessibility_only))
        × (resolved.0.vpid ≡ v.id)
        × (is_empty resolved.0.vpid ≡ false))
resolve-found_example = resolve-found parse 9 fetch duration_of (codes "b01") resolved.0 resolved.1
