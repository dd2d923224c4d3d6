-- ===== src/Download/Watchdog/Tail.antt =====
-- The diagnostic tail is the last lines of what was kept (internal/download/ffmpeg.go).
use iplayer_arr.Prelude.{
  trim_space, ℕ, zero, suc, ◌+◌, ◌-◌, ◌≤◌, ◌≡◌, refl, sym, ap, ◌∙◌, List, [], ◌∷◌, ◌++◌, Text,
  arith, is_empty, ltb, length, drop, take, min, length-append, Bool-cases, inl, inr, ◌⊎◌,
  if◌then◌else◌,
}
use iplayer_arr.Download.Watchdog.{newest, append_diag_line, looks_like_progress_line}

drop-append : (k : ℕ) (xs ys : List Text) → k ≤ length xs → drop k (xs ++ ys) ≡ drop k xs ++ ys
drop-append zero xs ys h = refl
drop-append (suc k) [] ys h = absurd (omega (arith, h))
drop-append (suc k) (x ∷ xs) ys h = drop-append k xs ys (omega (arith, h))

drop-nil : (n : ℕ) → drop {A = Text} n [] ≡ []
drop-nil zero = refl
drop-nil (suc n) = refl

drop-drop : (j k : ℕ) (xs : List Text) → drop j (drop k xs) ≡ drop (k + j) xs
drop-drop j zero xs = let same : j ≡ 0 + j = omega arith in ap (λ n. drop n xs) same
drop-drop j (suc k) [] = drop-nil j ∙ sym (drop-nil (suc k + j))
drop-drop j (suc k) (x ∷ xs) =
    let more : suc (k + j) ≡ suc k + j = omega arith in
    drop-drop j k xs ∙ ap (λ n. drop n (x ∷ xs)) more

length-drop : (k : ℕ) (xs : List Text) → length (drop k xs) ≡ length xs - k
length-drop zero xs = omega arith
length-drop (suc k) [] = omega arith
length-drop (suc k) (x ∷ xs) = omega (arith, length-drop k xs)

newest-drop : (cap : ℕ) (xs : List Text) → newest cap xs ≡ drop (length xs - cap) xs
newest-drop cap xs = elim (Bool-cases (ltb cap (length xs))) [
  | inl e ↦ rw e
  | inr e ↦ let few : length xs - cap ≡ 0 = ground arith in rw (e, few) refl
]

-- Cutting before a line is added changes nothing.
newest-append :
    (cap : ℕ) (xs : List Text) (t : Text)
    → newest cap (newest cap xs ++ t ∷ []) ≡ newest cap (xs ++ t ∷ [])
newest-append cap xs t =
    let k = length xs - cap in
    let j = length (drop k xs ++ t ∷ []) - cap in
    let size : length (drop k xs ++ t ∷ []) ≡ length xs - k + 1 =
      length-append (drop k xs) (t ∷ []) ∙ ap (λ n. n + 1) (length-drop k xs) in
    let whole : length (xs ++ t ∷ []) ≡ length xs + 1 = length-append xs (t ∷ []) in
    let steps : k + j ≡ length (xs ++ t ∷ []) - cap = omega (arith, size, whole) in
    let cut : k ≤ length xs = omega arith in
    ap (λ l. newest cap (l ++ t ∷ [])) (newest-drop cap xs)
    ∙ newest-drop cap (drop k xs ++ t ∷ [])
    ∙ ap (drop j) (sym (drop-append k xs (t ∷ []) cut))
    ∙ drop-drop j k (xs ++ t ∷ [])
    ∙ ap (λ n. drop n (xs ++ t ∷ [])) steps
    ∙ sym (newest-drop cap (xs ++ t ∷ []))

-- Every line of a run, given to appendDiagLine in turn.
unfoldable pub collect : ℕ → List Text → List Text → List Text
unfolding append_diag_line
collect cap diag [] = diag
collect cap diag (line ∷ lines) = collect cap (append_diag_line diag line cap) lines

-- The lines that are kept: trimmed, neither empty nor progress.
unfoldable pub diagnostics : List Text → List Text
unfolding trim_space looks_like_progress_line
diagnostics [] = []
diagnostics (line ∷ lines) =
    let t = trim_space line in
    let rest = diagnostics lines in
    if is_empty t then rest else if looks_like_progress_line t then rest else t ∷ rest

append_assoc : (xs ys zs : List Text) → (xs ++ ys) ++ zs ≡ xs ++ (ys ++ zs)
append_assoc [] ys zs = refl
append_assoc (x ∷ xs) ys zs = ap (λ l. x ∷ l) (append_assoc xs ys zs)

append-nil : (xs : List Text) → xs ++ [] ≡ xs
append-nil [] = refl
append-nil (x ∷ xs) = ap (λ l. x ∷ l) (append-nil xs)

line-cases :
    (cap : ℕ) (line : Text)
    → (((diag : List Text) → append_diag_line diag line cap ≡ diag)
        × ((lines : List Text) → diagnostics (line ∷ lines) ≡ diagnostics lines))
      ⊎ (((diag : List Text)
            → append_diag_line diag line cap ≡ newest cap (diag ++ trim_space line ∷ []))
          × ((lines : List Text)
              → diagnostics (line ∷ lines) ≡ trim_space line ∷ diagnostics lines))
unfolding append_diag_line diagnostics
line-cases cap line = elim (Bool-cases (is_empty (trim_space line))) [
  | inl e ↦ inl ((λ diag. rw e), (λ lines. rw e))
  | inr e ↦ elim (Bool-cases (looks_like_progress_line (trim_space line))) [
    | inl p ↦ inl ((λ diag. rw (e, p)), (λ lines. rw (e, p)))
    | inr p ↦ inr ((λ diag. rw (e, p)), (λ lines. rw (e, p)))
  ]
]

collect-from :
    (cap : ℕ) (xs lines : List Text)
    → collect cap (newest cap xs) lines ≡ newest cap (xs ++ diagnostics lines)
unfolding collect diagnostics
collect-from cap xs [] = ap (newest cap) (sym (append-nil xs))
collect-from cap xs (line ∷ lines) = elim (line-cases cap line) [
  | inl (same, skipped) ↦
      ap (λ d. collect cap d lines) (same (newest cap xs))
      ∙ collect-from cap xs lines
      ∙ ap (λ l. newest cap (xs ++ l)) (sym (skipped lines))
  | inr (added, kept) ↦
      ap (λ d. collect cap d lines) (added (newest cap xs) ∙ newest-append cap xs (trim_space line))
      ∙ collect-from cap (xs ++ trim_space line ∷ []) lines
      ∙ ap (newest cap) (append_assoc xs (trim_space line ∷ []) (diagnostics lines))
      ∙ ap (λ l. newest cap (xs ++ l)) (sym (kept lines))
]

newest-nil : (cap : ℕ) → newest cap [] ≡ []
newest-nil cap = ground arith

collect-newest_of :
    (cap : ℕ) (lines : List Text) → collect cap [] lines ≡ newest cap (diagnostics lines)
collect-newest_of cap lines =
    ap (λ d. collect cap d lines) (sym (newest-nil cap)) ∙ collect-from cap [] lines

take-drop : (k : ℕ) (xs : List Text) → xs ≡ take k xs ++ drop k xs
take-drop zero xs = refl
take-drop (suc k) [] = refl
take-drop (suc k) (x ∷ xs) = ap (λ l. x ∷ l) (take-drop k xs)

-- When every line of a run is given to appendDiagLine, beginning with an empty buffer, the buffer is
-- in the end a tail of the list of the trimmed lines that are neither empty nor progress: these
-- lines are some older ones and then the buffer's, in order. The buffer has `cap` lines, or all of
-- them if they are no more.
pub collect-newest :
    (cap : ℕ) (lines : List Text)
    → (older : List Text) × (diagnostics lines ≡ older ++ collect cap [] lines)
      × (length (collect cap [] lines) ≡ min cap (length (diagnostics lines)))
collect-newest cap lines =
    let xs = diagnostics lines in
    let k = length xs - cap in
    let kept = collect-newest_of cap lines ∙ newest-drop cap xs in
    let size : length (drop k xs) ≡ min cap (length xs) = omega (arith, length-drop k xs) in
    (
      take k xs,
      take-drop k xs ∙ ap (λ l. take k xs ++ l) (sym kept),
      ap (λ (l : List Text). length l) kept ∙ size,
    )
