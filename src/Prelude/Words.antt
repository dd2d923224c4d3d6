-- ===== src/Prelude/Words.antt =====
-- strings.Fields and strings.Join with a space, and that the words of a joined text are its words.
use Prim.Native.Nat.{ℕ}
use mathlib.Core.Path.{◌≡◌, refl, sym, subst, ◌∙◌}
use mathlib.Core.Bool.{Bool, true, false}
use mathlib.Core.List.{List, [], ◌∷◌, ◌++◌}
use mathlib.Core.Logic.{◌⊎◌, inl, inr}
use iplayer_arr.Prelude.Tests.{if◌then◌else◌, Bool-cases}
use iplayer_arr.Prelude.Lists.{All}
use iplayer_arr.Prelude.Strings.{Text}

abbrev flush : Text → List Text → List Text
flush [] words = words
flush (r ∷ w) words = (r ∷ w) ∷ words

-- The word that a text starts with, and the words behind it.
unfoldable words_of : (ℕ → Bool) → Text → Text × List Text
words_of space [] = ([], [])
words_of space (r ∷ s) =
    let (w, words) = words_of space s in if space r then ([], flush w words) else (r ∷ w, words)

unfoldable pub fields : (ℕ → Bool) → Text → List Text
unfolding words_of
fields space s = let (w, words) = words_of space s in flush w words

unfoldable pub join_words : List Text → Text
join_words [] = []
join_words (w ∷ []) = w
join_words (w ∷ v ∷ words) = w ++ 32 ∷ join_words (v ∷ words)

-- A word as Fields cuts it: a rune at least, each of which passes.
abbrev pub IsWord : (ℕ → Type 0) → Text → Type 0
IsWord P [] = ⊥
IsWord P (r ∷ w) = All P (r ∷ w)

flush-All :
    (P : ℕ → Type 0) (w : Text) (words : List Text)
    → All P w
    → All (IsWord P) words
    → All (IsWord P) (flush w words)
flush-All P [] words h hs = hs
flush-All P (r ∷ w) words h hs = (h, hs)

module _ (space : ℕ → Bool) where
  words_of-space :
      (r : ℕ) (s : Text) → space r ≡ true → words_of space (r ∷ s) ≡ ([], fields space s)
  unfolding words_of fields
  words_of-space r s e = rw e refl

  words_of-rune :
      (r : ℕ) (s : Text)
      → space r ≡ false
      → words_of space (r ∷ s) ≡ (r ∷ (words_of space s).0, (words_of space s).1)
  unfolding words_of
  words_of-rune r s e = rw e refl

  -- A word and a space in front of a text.
  words_of-append :
      (w s : Text)
      → All (λ r. space r ≡ false) w
      → space 32 ≡ true
      → words_of space (w ++ 32 ∷ s) ≡ (w, fields space s)
  words_of-append [] s h e = words_of-space 32 s e
  words_of-append (r ∷ w) s (f, h) e =
      words_of-rune r (w ++ 32 ∷ s) f ∙ rw (words_of-append w s h e) refl

  words_of-word : (w : Text) → All (λ r. space r ≡ false) w → words_of space w ≡ (w, [])
  unfolding words_of
  words_of-word [] h = refl
  words_of-word (r ∷ w) (f, h) = rw (words_of-word w h, f) refl

  pub fields-join_words :
      (words : List Text)
      → space 32 ≡ true
      → All (IsWord (λ r. space r ≡ false)) words
      → fields space (join_words words) ≡ words
  unfolding fields join_words words_of
  fields-join_words [] e h = refl
  fields-join_words ((r ∷ w) ∷ []) e (h, hs) = rw (words_of-word (r ∷ w) h) refl
  fields-join_words ((r ∷ w) ∷ v ∷ words) e (h, hs) =
      rw (words_of-append (r ∷ w) (join_words (v ∷ words)) h e, fields-join_words (v ∷ words) e hs)
        refl
  fields-join_words ([] ∷ words) e (h, hs) = absurd h

  abbrev pub Inner : (ℕ → Type 0) → ℕ → Type 0
  Inner P r = (space r ≡ false) × P r

  abbrev AllWords : (ℕ → Type 0) → Text × List Text → Type 0
  AllWords P (w, words) = All (Inner P) w × All (IsWord (Inner P)) words

  -- Every word that Fields cuts out has a rune at least, and none of its runes is a space.
  words_of-All :
      (P : ℕ → Type 0) (s : Text)
      → All (λ r. (space r ≡ true) ⊎ P r) s
      → AllWords P (words_of space s)
  unfolding words_of fields
  words_of-All P [] h = (tt, tt)
  words_of-All P (r ∷ s) (q, h) =
      let (hw, hws) = words_of-All P s h in
      elim (Bool-cases (space r)) [
        | inl e ↦
            subst (AllWords P) (sym (words_of-space r s e))
              (tt, flush-All (Inner P) (words_of space s).0 (words_of space s).1 hw hws)
        | inr e ↦
            let good : P r = elim q [ inl f ↦ absurd (cc (e, f)) | inr g ↦ g ] in
            subst (AllWords P) (sym (words_of-rune r s e)) (((e, good), hw), hws)
      ]

  pub fields-All :
      (P : ℕ → Type 0) (s : Text)
      → All (λ r. (space r ≡ true) ⊎ P r) s
      → All (IsWord (Inner P)) (fields space s)
  unfolding fields
  fields-All P s h =
      let (hw, hws) = words_of-All P s h in
      flush-All (Inner P) (words_of space s).0 (words_of space s).1 hw hws
