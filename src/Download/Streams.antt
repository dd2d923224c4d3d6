-- ===== src/Download/Streams.antt =====
-- The choice of a stream and of an HLS variant (internal/download/worker.go: pickStream;
-- internal/download/ffmpeg.go: selectVariantByHeight; internal/bbc/mediaselector.go: VideoStream).
-- Heights and bandwidths are the digits of a JSON document or of a playlist, so natural numbers.
pub mod Pick
pub mod Variant
use iplayer_arr.Prelude.{
  ℕ, ◌<◌, Bool, true, false, ◌&&◌, ◌||◌, not, Option, none, some, List, [], ◌∷◌, Text, codes,
  text_eq, member, ltb, keep, ◌==◌, if◌then◌else◌,
}
use iplayer_arr.Prelude.Int.{ℤ, distance}
use iplayer_arr.Download.Quality.{quality_to_height}

pub record VideoStream : Type 0 where
  pub url : Text
  pub height : ℕ
  pub width : ℕ
  pub bitrate : ℕ
  pub supplier : Text
  pub protocol : Text
  pub format : Text

abbrev pub no_stream : VideoStream
no_stream = record {
  url = [];
  height = 0;
  width = 0;
  bitrate = 0;
  supplier = [];
  protocol = [];
  format = [];
}

-- abs(s.Height - targetHeight)
abbrev pub diff : ℤ → VideoStream → ℕ
diff target s = distance s.height target

unfoldable pub best_diff : ℤ → ℕ → List VideoStream → ℕ
best_diff target best [] = best
best_diff target best (s ∷ ss) =
    best_diff target (if ltb (diff target s) best then diff target s else best) ss

abbrev pub is_hls : VideoStream → Bool
is_hls s = text_eq s.format (codes "hls")

abbrev pub is_excluded : List Text → VideoStream → Bool
is_excluded excluded s = member excluded s.supplier

-- The first HLS entry, else the first one.
unfoldable pub prefer_hls : VideoStream → List VideoStream → VideoStream
prefer_hls fallback [] = fallback
prefer_hls fallback (s ∷ ss) = let rest = prefer_hls fallback ss in if is_hls s then s else rest

abbrev pub or_else : List VideoStream → List VideoStream → List VideoStream
or_else [] candidates = candidates
or_else (s ∷ ss) candidates = s ∷ ss

abbrev pub head_of : List VideoStream → VideoStream
head_of [] = no_stream
head_of (s ∷ ss) = s

abbrev pub select : List VideoStream → VideoStream
select allowed = prefer_hls (head_of allowed) allowed

unfoldable pub pick_from : ℤ → ℕ → List VideoStream → List Text → VideoStream
unfolding prefer_hls
pick_from target best streams excluded =
    let candidates = keep (λ s. diff target s == best) streams in
    select (or_else (keep (λ s. not (is_excluded excluded s)) candidates) candidates)

unfoldable pub pick_stream : List VideoStream → Text → List Text → VideoStream
unfolding best_diff pick_from quality_to_height
pick_stream [] quality excluded = no_stream
pick_stream (s ∷ ss) quality excluded =
    let target = quality_to_height quality in
    pick_from target (best_diff target (diff target s) ss) (s ∷ ss) excluded

-- One #EXT-X-STREAM-INF entry; height is 0 when it carries no RESOLUTION.
pub record HlsVariant : Type 0 where
  pub bandwidth : ℕ
  pub height : ℕ
  pub url : Text

-- `exact`, `below` and `above` of the loop: the best entries so far.
pub record Best : Type 0 where
  pub exact : Option HlsVariant
  pub below : Option HlsVariant
  pub above : Option HlsVariant

-- `cur == nil || better`, where better compares with the current entry
abbrev pub improve :
    (HlsVariant → HlsVariant → Bool) → HlsVariant → Option HlsVariant → Option HlsVariant
improve better v none = some v
improve better v (some cur) = if better v cur then some v else some cur

abbrev pub wider : HlsVariant → HlsVariant → Bool
wider v cur = ltb cur.bandwidth v.bandwidth

abbrev pub better_below : HlsVariant → HlsVariant → Bool
better_below v cur = ltb cur.height v.height || ((v.height == cur.height) && wider v cur)

abbrev pub better_above : HlsVariant → HlsVariant → Bool
better_above v cur = ltb v.height cur.height || ((v.height == cur.height) && wider v cur)

abbrev pub consider : ℕ → HlsVariant → Best → Best
consider target v b =
    if v.height == 0
    then b
    else if v.height == target
    then record b { exact = improve wider v b.exact }
    else if ltb v.height target
    then record b { below = improve better_below v b.below }
    else record b { above = improve better_above v b.above }

unfoldable pub survey : ℕ → List HlsVariant → Best → Best
survey target [] b = b
survey target (v ∷ vs) b = survey target vs (consider target v b)

abbrev pub verdict : Best → Option HlsVariant
verdict b = elim b.exact [
  | some v ↦ some v
  | none ↦ elim b.below [ some v ↦ some v | none ↦ b.above ]
]

unfoldable pub select_variant_by_height : List HlsVariant → ℕ → Option HlsVariant
unfolding survey
select_variant_by_height variants target =
    verdict (survey target variants (record { exact = none; below = none; above = none }))
