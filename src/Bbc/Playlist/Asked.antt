-- ===== src/Bbc/Playlist/Asked.antt =====
-- What is resolved is the episode that was asked for.
use iplayer_arr.Prelude.{
  ◌≡◌, refl, inl, inr, ℕ, Bool, true, false, not, Option, none, some, List, [], ◌∷◌, Text, text_eq,
  text_eq_iff, is_empty, Bool-cases, subst, ap, ◌∙◌, if◌then◌else◌,
}
use iplayer_arr.Store.Types.{Time}
use iplayer_arr.Bbc.Playlist.{
  Version, Episode, PlaylistInfo, Answer, found, refused, Fetched, no_body, bad_body, episodes,
  is_pid, pick_version, of_choice, of_versions, of_episodes, of_fetched, resolve, info_of,
  unexpected_shape, airing_live,
}

through :
    (a b : Bool) (x : Answer PlaylistInfo) (info : PlaylistInfo)
    → (if not a then refused unexpected_shape else if b then refused airing_live else x)
      ≡ found info
    → (a ≡ true) × (b ≡ false) × (x ≡ found info)
through true false x info h = (refl, refl, h)
through true true x info h = absurd (cc h)
through false b x info h = absurd (cc h)

module _ (parse : Text → Option Time) (now : Time) (fetch : Text → Fetched)
    (duration_of : Text → ℕ) where
  -- The version that an answer was made of.
  abbrev Chosen : List Version → PlaylistInfo → Type 0
  Chosen versions info =
      (v : Version) × (pick_version parse now versions ≡ found (v, info.accessibility_only))
      × (info.vpid ≡ v.id)
      × (is_empty info.vpid ≡ false)

  abbrev Listed : Text → Option (List Episode) → PlaylistInfo → Type 0
  Listed pid listed info =
      (ep : Episode) × (rest : List Episode) × (versions : List Version) × (listed
        ≡ some (ep ∷ rest))
      × (ep.id ≡ pid)
      × (ep.live ≡ false)
      × (ep.versions ≡ some versions)
      × Chosen versions info

  found_version :
      (ep : Episode) (versions : List Version) (a : Answer (Version × Bool)) (info : PlaylistInfo)
      → of_choice parse now fetch duration_of ep versions a ≡ found info
      → (v : Version) × (a ≡ found (v, info.accessibility_only))
        × (info.vpid ≡ v.id)
        × (is_empty info.vpid ≡ false)
  found_version ep versions (refused why) info h = absurd (cc h)
  found_version ep versions (found (v, b)) info h = elim (Bool-cases (is_empty v.id)) [
    | inl e ↦ absurd (cc (rw e at h))
    | inr e ↦
        let same : info_of parse now fetch duration_of ep versions v b ≡ info = cc (rw e at h) in
        subst
          (λ (i : PlaylistInfo).
            (x : Version) × (◌≡◌ {A = Answer (Version × Bool)} (found (v, b))
              (found (x, i.accessibility_only)))
            × (i.vpid ≡ x.id)
            × (is_empty i.vpid ≡ false))
          same (v, refl, refl, e)
  ]

  of_versions_lem :
      (ep : Episode) (o : Option (List Version)) (info : PlaylistInfo)
      → of_versions parse now fetch duration_of ep o ≡ found info
      → (versions : List Version) × (o ≡ some versions) × Chosen versions info
  of_versions_lem ep none info h = absurd (cc h)
  of_versions_lem ep (some versions) info h =
      (versions, refl, found_version ep versions (pick_version parse now versions) info h)

  of_episodes_lem :
      (pid : Text) (listed : Option (List Episode)) (info : PlaylistInfo)
      → of_episodes parse now fetch duration_of pid listed ≡ found info
      → Listed pid listed info
  of_episodes_lem pid none info h = absurd (cc h)
  of_episodes_lem pid (some []) info h = absurd (cc h)
  of_episodes_lem pid (some (ep ∷ rest)) info h =
      let (same, on_demand, past) =
        through (text_eq ep.id pid) ep.live (of_versions parse now fetch duration_of ep ep.versions)
          info h in
      let (versions, has, chosen) = of_versions_lem ep ep.versions info past in
      (ep, rest, versions, refl, (text_eq_iff ep.id pid).0 same, on_demand, has, chosen)

  of_fetched_lem :
      (pid : Text) (got : Fetched) (info : PlaylistInfo)
      → of_fetched parse now fetch duration_of pid got ≡ found info
      → (listed : Option (List Episode)) × (got ≡ episodes listed) × Listed pid listed info
  of_fetched_lem pid no_body info h = absurd (cc h)
  of_fetched_lem pid bad_body info h = absurd (cc h)
  of_fetched_lem pid (episodes listed) info h = (listed, refl, of_episodes_lem pid listed info h)

  -- Where ResolveCtx gives an answer, the PID that was asked for is one to 32 digits and lower-case
  -- letters, the first episode that iBL lists has that PID and is not airing live, and the version id
  -- is that of the version that pickVersion finds among the versions of that episode, and is not empty.
  pub resolve-found :
      (pid : Text) (info : PlaylistInfo)
      → resolve parse now fetch duration_of pid ≡ found info
      → (is_pid pid ≡ true)
        × ((ep : Episode) × (rest : List Episode) × (versions : List Version) × (v : Version)
            × (fetch pid ≡ episodes (some (ep ∷ rest)))
            × (ep.id ≡ pid)
            × (ep.live ≡ false)
            × (ep.versions ≡ some versions)
            × (pick_version parse now versions ≡ found (v, info.accessibility_only))
            × (info.vpid ≡ v.id)
            × (is_empty info.vpid ≡ false))
  unfolding resolve
  resolve-found pid info h = elim (Bool-cases (is_pid pid)) [
    | inl e ↦
        let (
          listed,
          got,
          (ep, rest, versions, first, same, on_demand, has, (v, picked, vpid, full)),
        ) =
          of_fetched_lem pid (fetch pid) info (rw e at h) in
        (
          e,
          (
            ep,
            rest,
            versions,
            v,
            got ∙ ap episodes first,
            same,
            on_demand,
            has,
            picked,
            vpid,
            full,
          ),
        )
    | inr e ↦ absurd (cc (rw e at h))
  ]
