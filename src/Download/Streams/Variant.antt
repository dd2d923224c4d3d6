-- ===== src/Download/Streams/Variant.antt =====
-- What selectVariantByHeight returns (internal/download/ffmpeg.go).
use Prim.Native.Nat.{Ordering, compare}
use iplayer_arr.Prelude.Order.{lex, by_key, descending}
use iplayer_arr.Prelude.{
  ℕ, ◌≢◌, ◌<◌, ◌-◌, ◌≡◌, ◌⊎◌, inl, inr, refl, sym, ap, ◌∙◌, Bool, true, false, ◌&&◌, not, Option,
  none, some, List, [], ◌∷◌, arith, In, onto, onto-In, onto-In_inv, subst, ltb, ◌==◌, Bool-cases,
  if◌then◌else◌,
}
use iplayer_arr.Download.Streams.{
  HlsVariant, Best, improve, wider, better_below, better_above, consider, survey, verdict,
  select_variant_by_height,
}

-- The entry o is the best of those of l that p admits.
abbrev Tops :
    (HlsVariant → Bool)
    → (HlsVariant → HlsVariant → Bool)
    → List HlsVariant
    → Option HlsVariant
    → Type 0
Tops p better l none = (u : HlsVariant) → In u l → p u ≡ false
Tops p better l (some v) =
    In v l × (p v ≡ true) × ((u : HlsVariant) → In u l → p u ≡ true → better u v ≡ false)

improve-taken :
    (better : HlsVariant → HlsVariant → Bool) (v cur : HlsVariant)
    → better v cur ≡ true
    → improve better v (some cur) ≡ some v
improve-taken better v cur e = rw e

improve-left :
    (better : HlsVariant → HlsVariant → Bool) (v cur : HlsVariant)
    → better v cur ≡ false
    → improve better v (some cur) ≡ some cur
improve-left better v cur e = rw e

module _ (p : HlsVariant → Bool) (better : HlsVariant → HlsVariant → Bool)
    (irrefl : (v : HlsVariant) → better v v ≡ false)
    (keeps : (u v cur : HlsVariant)
      → better v cur ≡ true
      → better u cur ≡ false
      → better u v ≡ false) where
  Tops-skip :
      (v : HlsVariant) (l : List HlsVariant) (o : Option HlsVariant)
      → p v ≡ false
      → Tops p better l o
      → Tops p better (v ∷ l) o
  Tops-skip v l none e t = λ u i. elim i [ inl same ↦ ap p same ∙ e | inr j ↦ t u j ]
  Tops-skip v l (some w) e (i, h, t) =
      (inr i, h, λ u j x. elim j [ inl same ↦ absurd (cc (same, e, x)) | inr k ↦ t u k x ])

  Tops-improve :
      (v : HlsVariant) (l : List HlsVariant) (o : Option HlsVariant)
      → p v ≡ true
      → Tops p better l o
      → Tops p better (v ∷ l) (improve better v o)
  Tops-improve v l none e t = (
    inl refl,
    e,
    λ u j x. elim j [
      | inl same ↦ ap (λ w. better w v) same ∙ irrefl v
      | inr k ↦ absurd (cc (x, t u k))
    ],
  )
  Tops-improve v l (some cur) e (i, h, t) = elim (Bool-cases (better v cur)) [
    | inl b ↦ subst (Tops p better (v ∷ l)) (sym (improve-taken better v cur b)) (
      inl refl,
      e,
      λ u j x. elim j [
        | inl same ↦ ap (λ w. better w v) same ∙ irrefl v
        | inr k ↦ keeps u v cur b (t u k x)
      ],
    )
    | inr b ↦
        subst (Tops p better (v ∷ l)) (sym (improve-left better v cur b)) (
          inr i,
          h,
          λ u j x. elim j [ inl same ↦ ap (λ w. better w cur) same ∙ b | inr k ↦ t u k x ],
        )
  ]

  Tops-step :
      (v : HlsVariant) (l : List HlsVariant) (o o' : Option HlsVariant)
      → o' ≡ (if p v then improve better v o else o)
      → Tops p better l o
      → Tops p better (v ∷ l) o'
  Tops-step v l o o' e t = elim (Bool-cases (p v)) [
    | inl x ↦ subst (Tops p better (v ∷ l)) (sym (e ∙ taken x)) (Tops-improve v l o x t)
    | inr x ↦ subst (Tops p better (v ∷ l)) (sym (e ∙ left x)) (Tops-skip v l o x t)
  ]
    where
      taken : p v ≡ true → (if p v then improve better v o else o) ≡ improve better v o
      taken x = rw x

      left : p v ≡ false → (if p v then improve better v o else o) ≡ o
      left x = rw x

abbrev at_height : ℕ → HlsVariant → Bool
at_height t v = not (v.height == 0) && (v.height == t)

abbrev under : ℕ → HlsVariant → Bool
under t v = not (v.height == 0) && ltb v.height t

abbrev over : ℕ → HlsVariant → Bool
over t v = not (v.height == 0) && ltb t v.height

-- The three best entries of what has been read, for the target t.
abbrev AreBest : ℕ → List HlsVariant → Best → Type 0
AreBest t l b =
    Tops (at_height t) wider l b.exact
    × Tops (under t) better_below l b.below
    × Tops (over t) better_above l b.above

wider_irrefl : (v : HlsVariant) → wider v v ≡ false
wider_irrefl v = ground arith

wider-keeps : (u v cur : HlsVariant) → wider v cur ≡ true → wider u cur ≡ false → wider u v ≡ false
wider-keeps u v cur h k = ground arith

better_below_irrefl : (v : HlsVariant) → better_below v v ≡ false
better_below_irrefl v = ground arith

better_below-keeps :
    (u v cur : HlsVariant)
    → better_below v cur ≡ true
    → better_below u cur ≡ false
    → better_below u v ≡ false
better_below-keeps u v cur h k = ground arith

better_above_irrefl : (v : HlsVariant) → better_above v v ≡ false
better_above_irrefl v = ground arith

better_above-keeps :
    (u v cur : HlsVariant)
    → better_above v cur ≡ true
    → better_above u cur ≡ false
    → better_above u v ≡ false
better_above-keeps u v cur h k = ground arith

consider-AreBest :
    (t : ℕ) (v : HlsVariant) (l : List HlsVariant) (b : Best)
    → AreBest t l b
    → AreBest t (v ∷ l) (consider t v b)
consider-AreBest t v l b (e, lo, hi) = (
  Tops-step (at_height t) wider wider_irrefl wider-keeps v l b.exact (consider t v b).exact
      (ground arith) e,
  Tops-step (under t) better_below better_below_irrefl better_below-keeps v l b.below
      (consider t v b).below (ground arith) lo,
  Tops-step (over t) better_above better_above_irrefl better_above-keeps v l b.above
      (consider t v b).above (ground arith) hi,
)

survey-AreBest :
    (t : ℕ) (vs seen : List HlsVariant) (b : Best)
    → AreBest t seen b
    → AreBest t (onto vs seen) (survey t vs b)
unfolding survey
survey-AreBest t [] seen b h = h
survey-AreBest t (v ∷ vs) seen b h =
    survey-AreBest t vs (v ∷ seen) (consider t v b) (consider-AreBest t v seen b h)

-- An entry's rank for a target, least first: one above the target behind all others, then by the
-- distance from the target, then by the bandwidth, the larger one first.
abbrev rank : ℕ → HlsVariant → HlsVariant → Ordering
rank target =
    lex (by_key (λ v. v.height - target) compare) (
      lex (by_key (λ v. target - v.height) compare)
        (by_key (λ v. v.bandwidth) (descending compare)))

-- The result of a choice: nothing if no entry has a height, else a listed entry with a height that
-- no other one with a height is ranked before.
abbrev pub IsChoice : ℕ → List HlsVariant → Option HlsVariant → Type 0
IsChoice target l none = (u : HlsVariant) → In u l → u.height ≡ 0
IsChoice target l (some v) =
    In v l
    × (0 < v.height)
    × ((u : HlsVariant) → In u l → 0 < u.height → rank target u v ≢ Ordering.lt)

verdict-IsChoice :
    (t : ℕ) (l : List HlsVariant) (e lo hi : Option HlsVariant)
    → AreBest t l (record { exact = e; below = lo; above = hi })
    → IsChoice t l (verdict (record { exact = e; below = lo; above = hi }))
verdict-IsChoice t l (some v) lo hi ((i, p, best), _, _) =
    (i, ground arith, λ u j pos_u. ground (arith, best u j))
verdict-IsChoice t l none (some v) hi (no_exact, (i, p, best), _) =
    (i, ground arith, λ u j pos_u. ground (arith, best u j, no_exact u j))
verdict-IsChoice t l none none (some v) (no_exact, no_below, (i, p, best)) =
    (i, ground arith, λ u j pos_u. ground (arith, best u j, no_exact u j, no_below u j))
verdict-IsChoice t l none none none (no_exact, no_below, no_above) =
    λ u j. ground (arith, no_exact u j, no_below u j, no_above u j)

IsChoice-onto :
    (t : ℕ) (l : List HlsVariant) (o : Option HlsVariant)
    → IsChoice t (onto l []) o
    → IsChoice t l o
IsChoice-onto t l none c = λ u i. c u (onto-In u l [] (inl i))
IsChoice-onto t l (some v) (i, p, best) =
    (read (onto-In_inv v l [] i), p, λ u j. best u (onto-In u l [] (inl j)))
  where
    read : In v l ⊎ In v [] → In v l
    read (inl j) = j
    read (inr j) = absurd j

-- selectVariantByHeight returns nothing exactly where no entry of the playlist has a height;
-- otherwise it returns an entry of the playlist with a height that no other such entry is ranked
-- before: at or below the target before above it, then the nearer to the target, then the larger
-- bandwidth.
pub select_variant_by_height-IsChoice :
    (variants : List HlsVariant) (target : ℕ)
    → IsChoice target variants (select_variant_by_height variants target)
unfolding select_variant_by_height
select_variant_by_height-IsChoice variants target =
    let start : Best = record { exact = none; below = none; above = none } in
    let end = survey target variants start in
    IsChoice-onto target variants (verdict end) (
      verdict-IsChoice target (onto variants []) end.exact end.below end.above (
        survey-AreBest target variants [] start
          ((λ u i. absurd i), (λ u i. absurd i), (λ u i. absurd i))))
