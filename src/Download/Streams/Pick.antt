-- ===== src/Download/Streams/Pick.antt =====
-- What pickStream promises of the stream it returns (internal/download/worker.go).
use iplayer_arr.Prelude.{
  ℕ, ◌≤◌, ◌≡◌, ◌⊎◌, inl, inr, refl, sym, ap, ◌∙◌, true, false, not, List, [], ◌∷◌, Text, arith, In,
  In-keep, In-keep_inv, keep, subst, ltb, ◌==◌, Bool-cases, if◌then◌else◌, ==_iff,
}
use iplayer_arr.Prelude.Int.{ℤ}
use iplayer_arr.Download.Quality.{quality_to_height}
use iplayer_arr.Download.Streams.{
  VideoStream, diff, best_diff, is_hls, is_excluded, prefer_hls, or_else, head_of, select,
  pick_from, pick_stream,
}

-- The best distance is at most every listed one, and is the distance of a listed stream.
best_diff-le :
    (t : ℤ) (best : ℕ) (ss : List VideoStream)
    → (best_diff t best ss ≤ best) × ((s : VideoStream) → In s ss → best_diff t best ss ≤ diff t s)
unfolding best_diff
best_diff-le t best [] = (omega arith, λ s i. absurd i)
best_diff-le t best (x ∷ ss) =
    let next = if ltb (diff t x) best then diff t x else best in
    let (le, all) = best_diff-le t next ss in
    (
      ground arith,
      λ s i. elim i [
        | inl e ↦ subst (λ (y : VideoStream). best_diff t next ss ≤ diff t y) (sym e) (ground arith)
        | inr j ↦ all s j
      ],
    )

best_diff-attained :
    (t : ℤ) (best : ℕ) (ss : List VideoStream)
    → (best_diff t best ss ≡ best)
      ⊎ ((s : VideoStream) × In s ss × (diff t s ≡ best_diff t best ss))
unfolding best_diff
best_diff-attained t best [] = inl refl
best_diff-attained t best (x ∷ ss) = elim (Bool-cases (ltb (diff t x) best)) [
  | inl e ↦ elim (best_diff-attained t (diff t x) ss) [
    | inl h ↦ inr (x, inl refl, rw (e, h) refl)
    | inr (s, i, h) ↦ inr (s, inr i, rw (e, h) refl)
  ]
  | inr e ↦ elim (best_diff-attained t best ss) [
    | inl h ↦ inl (rw (e, h) refl)
    | inr (s, i, h) ↦ inr (s, inr i, rw (e, h) refl)
  ]
]

prefer_hls-eq-skipped :
    (d s : VideoStream) (ss : List VideoStream)
    → is_hls s ≡ false
    → prefer_hls d (s ∷ ss) ≡ prefer_hls d ss
unfolding prefer_hls
prefer_hls-eq-skipped d s ss e = rw e

prefer_hls-In :
    (d : VideoStream) (ss : List VideoStream) → (prefer_hls d ss ≡ d) ⊎ In (prefer_hls d ss) ss
unfolding prefer_hls
prefer_hls-In d [] = inl refl
prefer_hls-In d (s ∷ ss) = elim (Bool-cases (is_hls s)) [
  | inl e ↦ inr (inl (rw e refl))
  | inr e ↦ elim (prefer_hls-In d ss) [
    | inl h ↦ inl (rw (e, h) refl)
    | inr i ↦
        inr (inr (subst (λ (x : VideoStream). In x ss) (sym (prefer_hls-eq-skipped d s ss e)) i))
  ]
]

prefer_hls-hls :
    (d : VideoStream) (ss : List VideoStream) (s : VideoStream)
    → In s ss
    → is_hls s ≡ true
    → is_hls (prefer_hls d ss) ≡ true
unfolding prefer_hls
prefer_hls-hls d (x ∷ ss) s i h = elim (Bool-cases (is_hls x)) [
  | inl e ↦ rw e e
  | inr e ↦ elim i [
    | inl same ↦ absurd (cc (same, h, e))
    | inr j ↦ rw e (prefer_hls-hls d ss s j h)
  ]
]
prefer_hls-hls d [] s i h = absurd i

select-In : (x : VideoStream) (ss : List VideoStream) → In (select (x ∷ ss)) (x ∷ ss)
select-In x ss = elim (prefer_hls-In x (x ∷ ss)) [ inl e ↦ inl e | inr i ↦ i ]

or_else-cases :
    (a c : List VideoStream)
    → ((a ≡ []) × (or_else a c ≡ c)) ⊎ ((or_else a c ≡ a) × In (select a) a)
or_else-cases [] c = inl (refl, refl)
or_else-cases (x ∷ a) c = inr (refl, select-In x a)

select-In_inhabited : (c : List VideoStream) (s : VideoStream) → In s c → In (select c) c
select-In_inhabited (x ∷ c) s i = select-In x c
select-In_inhabited [] s i = absurd i

-- What a stream r has to be, to be the right one of a list for a target height and a list of
-- suppliers to avoid: a listed stream at the least distance from the target; from an avoided
-- supplier only if every stream at that distance is; and, among the streams at that distance that
-- are as avoided as it is, HLS if one of them is.
pub record IsPick (target : ℤ) (excluded : List Text) (l : List VideoStream) (r : VideoStream)
    : Type 0 where
  pub listed : In r l
  pub closest : (s : VideoStream) → In s l → diff target r ≤ diff target s
  pub avoids :
      (s : VideoStream)
      → In s l
      → diff target s ≡ diff target r
      → is_excluded excluded r ≡ true
      → is_excluded excluded s ≡ true
  pub prefers :
      (s : VideoStream)
      → In s l
      → diff target s ≡ diff target r
      → is_excluded excluded s ≡ is_excluded excluded r
      → is_hls s ≡ true
      → is_hls r ≡ true

-- The last two parts, for the candidates c.
module _ (excluded : List Text) (c : List VideoStream) where
  abbrev allowed : List VideoStream
  allowed = keep (λ s. not (is_excluded excluded s)) c

  abbrev chosen : VideoStream
  chosen = select (or_else allowed c)

  allowed-In : (s : VideoStream) → In s c → is_excluded excluded s ≡ false → In s allowed
  allowed-In s i e = In-keep_inv (λ s. not (is_excluded excluded s)) s c i (rw e refl)

  allowed-excluded : (s : VideoStream) → In s allowed → is_excluded excluded s ≡ false
  allowed-excluded s i =
      let (_, e) = In-keep (λ s. not (is_excluded excluded s)) s c i in ground (arith, e)

  chosen-In : (s : VideoStream) → In s c → In chosen c
  chosen-In s i = elim (or_else-cases allowed c) [
    | inl (_, e) ↦
        subst (λ (l : List VideoStream). In (select l) c) (sym e) (select-In_inhabited c s i)
    | inr (e, j) ↦
        let (k, _) = In-keep (λ s. not (is_excluded excluded s)) (select allowed) c j in
        subst (λ (l : List VideoStream). In (select l) c) (sym e) k
  ]

  chosen-avoids :
      (s : VideoStream)
      → In s c
      → is_excluded excluded s ≡ false
      → is_excluded excluded chosen ≡ false
  chosen-avoids s i e = elim (or_else-cases allowed c) [
    | inl (none_left, _) ↦
        absurd (subst (λ (l : List VideoStream). In s l) none_left (allowed-In s i e))
    | inr (eq, j) ↦
        ap (λ l. is_excluded excluded (select l)) eq ∙ allowed-excluded (select allowed) j
  ]

  chosen-prefers :
      (s : VideoStream)
      → In s c
      → is_excluded excluded s ≡ is_excluded excluded chosen
      → is_hls s ≡ true
      → is_hls chosen ≡ true
  chosen-prefers s i same h = elim (or_else-cases allowed c) [
    | inl (_, eq) ↦ ap (λ l. is_hls (select l)) eq ∙ prefer_hls-hls (head_of c) c s i h
    | inr (eq, j) ↦
        let free =
          same
          ∙ (ap (λ l. is_excluded excluded (select l)) eq ∙ allowed-excluded (select allowed) j) in
        ap (λ l. is_hls (select l)) eq
        ∙ prefer_hls-hls (head_of allowed) allowed s (allowed-In s i free) h
  ]

-- The candidates, for the least distance of the list.
pick_from-IsPick :
    (target : ℤ) (best : ℕ) (l : List VideoStream) (excluded : List Text)
    → ((s : VideoStream) → In s l → best ≤ diff target s)
    → (s : VideoStream) → In s l
    → diff target s ≡ best
    → IsPick target excluded l (pick_from target best l excluded)
unfolding pick_from
pick_from-IsPick target best l excluded least w i e =
    let at_best = λ (s : VideoStream). diff target s == best in
    let c = keep at_best l in
    let here = λ (s : VideoStream) (j : In s l) (d : diff target s ≡ best).
      In-keep_inv at_best s l j ((==_iff (diff target s) best).1 d) in
    let (k, d) = In-keep at_best (chosen excluded c) l (chosen-In excluded c w (here w i e)) in
    let near = (==_iff (diff target (chosen excluded c)) best).0 d in
    record {
      listed = k;
      closest = λ s j. subst (λ d. d ≤ diff target s) (sym near) (least s j);
      avoids = λ s j q x. elim (Bool-cases (is_excluded excluded s)) [
        | inl y ↦ y
        | inr y ↦ absurd (cc (x, chosen-avoids excluded c s (here s j (q ∙ near)) y))
      ];
      prefers = λ s j q. chosen-prefers excluded c s (here s j (q ∙ near));
    }

least_of :
    (t : ℤ) (x : VideoStream) (l : List VideoStream) (s : VideoStream)
    → In s (x ∷ l)
    → best_diff t (diff t x) l ≤ diff t s
least_of t x l s (inl e) =
    subst (λ (y : VideoStream). best_diff t (diff t x) l ≤ diff t y) (sym e)
      (best_diff-le t (diff t x) l).0
least_of t x l s (inr j) = (best_diff-le t (diff t x) l).1 s j

-- pickStream returns, for any list with a stream in it, any quality and any suppliers to avoid, a
-- stream of the list at the least distance from the quality's height; from a supplier to avoid only
-- if all streams at this distance are; and HLS if an HLS stream at this distance is as acceptable
-- by its supplier.
pub pick_stream-IsPick :
    (l : List VideoStream) (quality : Text) (excluded : List Text) (w : VideoStream)
    → In w l
    → IsPick (quality_to_height quality) excluded l (pick_stream l quality excluded)
unfolding pick_stream
pick_stream-IsPick (x ∷ l) quality excluded w i =
    let t = quality_to_height quality in
    let best = best_diff t (diff t x) l in
    let least = least_of t x l in
    elim (best_diff-attained t (diff t x) l) [
      | inl e ↦ pick_from-IsPick t best (x ∷ l) excluded least x (inl refl) (sym e)
      | inr (s, j, e) ↦ pick_from-IsPick t best (x ∷ l) excluded least s (inr j) e
    ]
pick_stream-IsPick [] quality excluded w i = absurd i
