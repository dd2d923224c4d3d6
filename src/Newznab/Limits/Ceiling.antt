-- ===== src/Newznab/Limits/Ceiling.antt =====
-- No advertised quality lies above the configured ceiling.
use iplayer_arr.Prelude.{
  ◌≡◌, refl, ap, sym, zero, false, suc, ◌<◌, ◌+◌, ◌-◌, ltb, ◌&&◌, Option, none, take, length, arith,
  ◌∙◌, subst, ◌⊎◌, inl, inr, ℕ, ◌≤◌, leb, leb→le, Bool, true, some, List, [], ◌∷◌, Text, codes,
  text_cmp, In, In-keep, keep, digits, Bool-cases, if◌then◌else◌,
}
use iplayer_arr.Prelude.Int.{pos}
use iplayer_arr.Newznab.Limits.{
  cap_heights, heights_to_tags, tag_for, tag_height, at_most, tag_within, cap_quality_tags,
  within_ceiling, trimmed, emitted_qualities,
}

-- A tag of a height, if it has one, names a height that is no larger.
abbrev Named : Text → ℕ → Type 0
Named t h = (n : ℕ) × (tag_height t ≡ some (pos n)) × (n ≤ h)

step :
    (t : Text) (h n : ℕ) (tag : Text) (tags rest : List Text)
    → tag_height tag ≡ some (pos n)
    → (In t rest → Named t h ⊎ In t tags)
    → In t (if leb n h then tag ∷ tags else rest)
    → Named t h ⊎ In t tags
step t h n tag tags rest height next i = elim (Bool-cases (leb n h)) [
  | inl e ↦
      let here : In t (tag ∷ tags) =
        subst (λ (b : Bool). In t (if b then tag ∷ tags else rest)) e i in
      elim here [
        | inl same ↦ inl (n, ap tag_height same ∙ height, leb→le n h e)
        | inr later ↦ inr later
      ]
  | inr e ↦ next (subst (λ (b : Bool). In t (if b then tag ∷ tags else rest)) e i)
]

In-tag_for : (t : Text) (h : ℕ) (tags : List Text) → In t (tag_for h tags) → Named t h ⊎ In t tags
unfolding tag_height text_cmp digits
In-tag_for t h tags =
    let below_540 = step t h 396 (codes "396p") tags tags refl (λ i. inr i) in
    let tags_540 = if leb 396 h then codes "396p" ∷ tags else tags in
    let below_720 = step t h 540 (codes "540p") tags tags_540 refl below_540 in
    let tags_720 = if leb 540 h then codes "540p" ∷ tags else tags_540 in
    let below_1080 = step t h 720 (codes "720p") tags tags_720 refl below_720 in
    let tags_1080 = if leb 720 h then codes "720p" ∷ tags else tags_720 in
    let below_2160 = step t h 1080 (codes "1080p") tags tags_1080 refl below_1080 in
    let tags_2160 = if leb 1080 h then codes "1080p" ∷ tags else tags_1080 in
    step t h 2160 (codes "2160p") tags tags_2160 refl below_2160

In-heights_to_tags :
    (t : Text) (heights : List ℕ)
    → In t (heights_to_tags heights)
    → (h : ℕ) × In h heights × Named t h
unfolding heights_to_tags
In-heights_to_tags t (h ∷ heights) i = elim (In-tag_for t h (heights_to_tags heights) i) [
  | inl named ↦ (h, inl refl, named)
  | inr later ↦ let (g, j, named) = In-heights_to_tags t heights later in (g, inr j, named)
]
In-heights_to_tags t [] i = absurd i

-- What is known of a tag within a positive ceiling.
abbrev pub IsWithin : Option (List ℕ) → ℕ → Text → Type 0
IsWithin probed ceiling t =
    (n : ℕ) × (tag_height t ≡ some (pos n))
    × (n ≤ ceiling)
    × (((heights : List ℕ) × (h : ℕ) × (probed ≡ some heights) × In h heights × (n ≤ h))
        ⊎ ((probed ≡ none) × ((n ≡ 720) ⊎ (n ≡ 540))))

probed_lem :
    (heights : List ℕ) (ceiling : ℕ) (t : Text)
    → leb 1 ceiling ≡ true
    → In t (heights_to_tags (cap_heights heights (pos ceiling)))
    → IsWithin (some heights) ceiling t
unfolding cap_heights
probed_lem heights ceiling t positive i =
    let kept = keep (λ h. at_most h (pos ceiling)) heights in
    let j : In t (heights_to_tags kept) =
      subst (λ (b : Bool). In t (heights_to_tags (if b then kept else heights))) positive i in
    let (h, k, (n, height, small)) = In-heights_to_tags t kept j in
    let (m, low) = In-keep (λ h. at_most h (pos ceiling)) h heights k in
    let bound = leb→le h ceiling low in
    (n, height, omega (arith, small, bound), inl (heights, h, refl, m, small))

abbrev fits : ℕ → Text → Bool
fits ceiling t = tag_within (pos ceiling) (tag_height t)

low_720 : tag_height (codes "720p") ≡ some (pos 720)
unfolding tag_height text_cmp digits
low_720 = refl

low_540 : tag_height (codes "540p") ≡ some (pos 540)
unfolding tag_height text_cmp digits
low_540 = refl

fallback_one :
    (t tag : Text) (n ceiling : ℕ)
    → ((n ≡ 720) ⊎ (n ≡ 540))
    → tag_height tag ≡ some (pos n)
    → t ≡ tag
    → fits ceiling t ≡ true
    → IsWithin none ceiling t
fallback_one t tag n ceiling which height same low =
    let own : tag_height t ≡ some (pos n) = ap tag_height same ∙ height in
    let within : leb n ceiling ≡ true = sym (ap (tag_within (pos ceiling)) own) ∙ low in
    (n, own, leb→le n ceiling within, inr (refl, which))

fallback_lem :
    (ceiling : ℕ) (t : Text)
    → leb 1 ceiling ≡ true
    → In t (cap_quality_tags (codes "720p" ∷ codes "540p" ∷ []) (pos ceiling))
    → IsWithin none ceiling t
unfolding cap_quality_tags
fallback_lem ceiling t positive i =
    let tags = codes "720p" ∷ codes "540p" ∷ [] in
    let kept = keep (fits ceiling) tags in
    let j : In t kept = subst (λ (b : Bool). In t (if b then kept else tags)) positive i in
    let (m, low) = In-keep (fits ceiling) t tags j in
    elim m [
      | inl same ↦ fallback_one t (codes "720p") 720 ceiling (inl refl) low_720 same low
      | inr (inl same) ↦ fallback_one t (codes "540p") 540 ceiling (inr refl) low_540 same low
      | inr (inr nothing) ↦ absurd nothing
    ]

In-take : (t : Text) (k : ℕ) (tags : List Text) → In t (take k tags) → In t tags
In-take t zero tags i = absurd i
In-take t (suc k) [] i = i
In-take t (suc k) (u ∷ tags) (inl e) = inl e
In-take t (suc k) (u ∷ tags) (inr i) = inr (In-take t k tags i)

length-take : (k : ℕ) (tags : List Text) → length (take k tags) ≤ k
length-take zero tags = omega arith
length-take (suc k) [] = omega arith
length-take (suc k) (u ∷ tags) = omega (arith, length-take k tags)

In-if :
    (b : Bool) (t : Text) (k : ℕ) (tags : List Text)
    → In t (if b then take k tags else tags)
    → In t tags
In-if true t k tags i = In-take t k tags i
In-if false t k tags i = i

within_lem :
    (probed : Option (List ℕ)) (ceiling : ℕ) (t : Text)
    → leb 1 ceiling ≡ true
    → In t (within_ceiling probed (pos ceiling))
    → IsWithin probed ceiling t
within_lem none ceiling t positive i = fallback_lem ceiling t positive i
within_lem (some heights) ceiling t positive i = probed_lem heights ceiling t positive i

-- Behind fewer items than the limit, the cut leaves at most the limit.
cut_lem :
    (limit count : ℕ) (shown : List Text)
    → ltb 0 limit ≡ true
    → count < limit
    → count
        + length (
            if ltb 0 limit && ltb limit (count + length shown)
            then take (limit - count) shown
            else shown)
      ≤ limit
cut_lem limit count shown positive below = elim (Bool-cases (ltb limit (count + length shown))) [
  | inl e ↦ rw (positive, e) (omega (arith, length-take (limit - count) shown, below))
  | inr e ↦ rw (positive, e) (ground arith)
]

limit_lem :
    (limit count : ℕ) (shown : List Text)
    → (ltb 0 limit && leb limit count) ≡ false
    → (limit ≡ 0)
      ⊎ (count
            + length (
                if ltb 0 limit && ltb limit (count + length shown)
                then take (limit - count) shown
                else shown)
          ≤ limit)
limit_lem limit count shown going = elim (Bool-cases (ltb 0 limit)) [
  | inl positive ↦
      let below : count < limit = ground arith in inr (cut_lem limit count shown positive below)
  | inr unlimited ↦ inl (ground arith)
]

-- With a positive ceiling, every quality that is advertised for a programme names a height that is at
-- most the ceiling. Where the probe found the programme's heights, it is at most one of these, and
-- where it found none, it is 720 or 540. Where the loop has not ended, because there is no limit or
-- the items before are below it, there is no limit or the items with the programme's qualities are
-- at most the limit.
pub emitted_qualities-IsWithin :
    (probed : Option (List ℕ)) (ceiling limit count : ℕ) (browse : Bool) (t : Text)
    → leb 1 ceiling ≡ true
    → (ltb 0 limit && leb limit count) ≡ false
    → In t (emitted_qualities probed (pos ceiling) browse limit count)
    → IsWithin probed ceiling t
      × ((limit ≡ 0)
          ⊎ (count + length (emitted_qualities probed (pos ceiling) browse limit count) ≤ limit))
unfolding emitted_qualities
emitted_qualities-IsWithin probed ceiling limit count browse t positive going i =
    let tags = within_ceiling probed (pos ceiling) in
    let shown = trimmed (browse && ltb 2 (length tags)) tags in
    let j = In-if (ltb 0 limit && ltb limit (count + length shown)) t (limit - count) shown i in
    let k = In-if (browse && ltb 2 (length tags)) t 2 tags j in
    (within_lem probed ceiling t positive k, limit_lem limit count shown going)
