-- ===== src/Store/Names/Stable.antt =====
-- A show name's key is a normal form: the key of a key is that key.
use iplayer_arr.Prelude.{
  ◌≡◌, refl, ap, ◌∙◌, ◌⊎◌, inl, inr, ℕ, ◌==◌, ==_iff, Bool, true, false, not, List, [], ◌∷◌, ◌++◌,
  Text, All, map, keep, Bool-cases, fields, join_words, IsWord, Inner, fields-All,
  fields-join_words,
}
use iplayer_arr.Store.Names.{
  Unicode, is_dropped, spell_and, is_word_rune, or_space, show_name_key_keep_article,
}

-- What package unicode documents of the runes that the keys are made of.
pub record IsUnicode (u : Unicode) : Type 0 where
  pub lower_again : (r : ℕ) → u.to_lower_rune (u.to_lower_rune r) ≡ u.to_lower_rune r
  -- a, n, d and the space
  pub lower_a : u.to_lower_rune 97 ≡ 97
  pub lower_n : u.to_lower_rune 110 ≡ 110
  pub lower_d : u.to_lower_rune 100 ≡ 100
  pub lower_space : u.to_lower_rune 32 ≡ 32
  pub space_is_space : u.is_space_rune 32 ≡ true
  pub word_is_no_space : (r : ℕ) → is_word_rune u r ≡ true → u.is_space_rune r ≡ false
  pub ampersand_is_no_word : is_word_rune u 38 ≡ false
  pub dropped_is_no_word : (r : ℕ) → is_dropped r ≡ true → is_word_rune u r ≡ false

-- A rune that every stage of the key leaves alone.
record Fixed (u : Unicode) (r : ℕ) : Type 0 where
  lowered : u.to_lower_rune r ≡ r
  spelled : (r == 38) ≡ false
  undropped : is_dropped r ≡ false
  kept_rune : or_space u r ≡ r

map-All :
    (f : ℕ → ℕ) (P Q : ℕ → Type 0) (s : Text)
    → ((r : ℕ) → P r → Q (f r))
    → All P s
    → All Q (map f s)
map-All f P Q [] step h = tt
map-All f P Q (r ∷ s) step (p, h) = (step r p, map-All f P Q s step h)

All-map : (P Q : ℕ → Type 0) (s : Text) → ((r : ℕ) → P r → Q r) → All P s → All Q s
All-map P Q [] step h = tt
All-map P Q (r ∷ s) step (p, h) = (step r p, All-map P Q s step h)

keep-All : (t : ℕ → Bool) (P : ℕ → Type 0) (s : Text) → All P s → All P (keep t s)
keep-All t P [] h = tt
keep-All t P (r ∷ s) (p, h) =
    elim (t r) as (λ b. All P (elim b [ true ↦ r ∷ keep t s | false ↦ keep t s ])) [
      | true ↦ (p, keep-All t P s h)
      | false ↦ keep-All t P s h
    ]

append-All : (P : ℕ → Type 0) (s t : Text) → All P s → All P t → All P (s ++ t)
append-All P [] t h k = k
append-All P (r ∷ s) t (p, h) k = (p, append-All P s t h k)

module _ (u : Unicode) (laws : IsUnicode u) where
  abbrev stages : Text → Text
  stages s = map (or_space u) (keep (λ r. not (is_dropped r)) (spell_and (map u.to_lower_rune s)))

  stages-fix : (s : Text) → All (Fixed u) s → stages s ≡ s
  unfolding spell_and
  stages-fix [] h = refl
  stages-fix (r ∷ s) (f, h) =
      let spelled : spell_and (map u.to_lower_rune (r ∷ s))
          ≡ r ∷ spell_and (map u.to_lower_rune s) =
        rw (f.lowered, f.spelled) refl in
      let rest = spell_and (map u.to_lower_rune s) in
      let through : map (or_space u) (keep (λ c. not (is_dropped c)) (r ∷ rest)) ≡ r ∷ stages s =
        rw (keep, f.undropped, f.kept_rune) refl in
      ap (λ (t : Text). map (or_space u) (keep (λ c. not (is_dropped c)) t)) spelled
      ∙ through
      ∙ ap (λ (t : Text). r ∷ t) (stages-fix s h)

  -- What the first two stages make: runes in lower case.
  spelled-All : (s : Text) → All (λ r. u.to_lower_rune r ≡ r) (spell_and (map u.to_lower_rune s))
  unfolding spell_and
  spelled-All [] = tt
  spelled-All (r ∷ s) = elim (Bool-cases (u.to_lower_rune r == 38)) [
    | inl e ↦ rw e (laws.lower_a, (laws.lower_n, (laws.lower_d, spelled-All s)))
    | inr e ↦ rw e (laws.lower_again r, spelled-All s)
  ]

  space-Fixed : Fixed u 32
  unfolding is_dropped
  space-Fixed = record {
    lowered = laws.lower_space;
    spelled = refl;
    undropped = refl;
    kept_rune = elim (Bool-cases (is_word_rune u 32)) [ inl w ↦ rw w refl | inr w ↦ rw w refl ];
  }

  word-Fixed : (r : ℕ) → u.to_lower_rune r ≡ r → is_word_rune u r ≡ true → Fixed u r
  word-Fixed r l w = record {
    lowered = l;
    spelled = elim (Bool-cases (r == 38)) [
      | inl e ↦
          let is_amp : r ≡ 38 = (==_iff r 38).0 e in
          absurd (cc (w, ap (is_word_rune u) is_amp, laws.ampersand_is_no_word))
      | inr e ↦ e
    ];
    undropped = elim (Bool-cases (is_dropped r)) [
      | inl d ↦ absurd (cc (w, laws.dropped_is_no_word r d))
      | inr d ↦ d
    ];
    kept_rune = rw w refl;
  }

  -- A rune behind the last stage is a space or one that every stage leaves alone.
  staged :
      (r : ℕ)
      → u.to_lower_rune r ≡ r
      → (u.is_space_rune (or_space u r) ≡ true) ⊎ Fixed u (or_space u r)
  staged r l = elim (Bool-cases (is_word_rune u r)) [
    | inl w ↦ inr (rw w (word-Fixed r l w))
    | inr w ↦ inl (rw w laws.space_is_space)
  ]

  stages-All : (s : Text) → All (λ r. (u.is_space_rune r ≡ true) ⊎ Fixed u r) (stages s)
  stages-All s =
      let spelled = spell_and (map u.to_lower_rune s) in
      map-All (or_space u) (λ r. u.to_lower_rune r ≡ r)
        (λ r. (u.is_space_rune r ≡ true) ⊎ Fixed u r) (keep (λ r. not (is_dropped r)) spelled)
        staged
        (keep-All (λ r. not (is_dropped r)) (λ r. u.to_lower_rune r ≡ r) spelled (spelled-All s))

  IsWord-All :
      (w : Text)
      → IsWord (Inner u.is_space_rune (Fixed u)) w
      → All (Fixed u) w × IsWord (λ r. u.is_space_rune r ≡ false) w
  IsWord-All [] h = absurd h
  IsWord-All (r ∷ w) h = (
    All-map (Inner u.is_space_rune (Fixed u)) (Fixed u) (r ∷ w) (λ c p. p.1) h,
    All-map (Inner u.is_space_rune (Fixed u)) (λ c. u.is_space_rune c ≡ false) (r ∷ w) (λ c p. p.0)
        h,
  )

  join-All :
      (words : List Text)
      → All (IsWord (Inner u.is_space_rune (Fixed u))) words
      → All (Fixed u) (join_words words) × All (IsWord (λ r. u.is_space_rune r ≡ false)) words
  unfolding join_words
  join-All [] h = (tt, tt)
  join-All (w ∷ []) (h, hs) = let (f, i) = IsWord-All w h in (f, (i, tt))
  join-All (w ∷ v ∷ words) (h, hs) =
      let (f, i) = IsWord-All w h in
      let (fs, is) = join-All (v ∷ words) hs in
      (append-All (Fixed u) w (32 ∷ join_words (v ∷ words)) f (space-Fixed, fs), (i, is))

  -- The key of a show name, with its article or without the fold of one, is a normal form: the key
  -- that keeps the article, taken of such a key, is that key again. The laws are what package
  -- unicode documents of the runes concerned.
  show_name_key_keep_article_idem :
      (name : Text)
      → show_name_key_keep_article u (show_name_key_keep_article u name)
        ≡ show_name_key_keep_article u name
  unfolding show_name_key_keep_article
  show_name_key_keep_article_idem name =
      let words = fields u.is_space_rune (stages name) in
      let good = fields-All u.is_space_rune (Fixed u) (stages name) (stages-All name) in
      let (fixed, cut) = join-All words good in
      let staged_again : stages (join_words words) ≡ join_words words =
        stages-fix (join_words words) fixed in
      rw (staged_again, fields-join_words u.is_space_rune words laws.space_is_space cut) refl
