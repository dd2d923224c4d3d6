-- ===== src/Download/Quality/Ladder.antt =====
-- Where the quality ladder leads a retry (internal/download/worker.go: degradeHeight, attemptQuality).
use iplayer_arr.Prelude.{
  ℕ, zero, suc, ◌≤◌, ◌<◌, ◌≡◌, ◌⊎◌, inl, inr, refl, ap, sym, ◌∙◌, Bool, true, false, [], ◌∷◌, Text,
  arith, In, All, All-lookup, text_cmp, Bool-cases, is_empty,
}
use iplayer_arr.Prelude.Int.{ℤ, pos}
use iplayer_arr.Store.Types.{Download, Time, stalled}
use iplayer_arr.Download.Retry.{Failure, fail_row}
use iplayer_arr.Download.Quality.{
  quality_to_height, quality_ladder, rungs_from, down, degrade_height, height_to_quality_tag,
  should_degrade, attempt_quality, int_eq,
}

-- Each rung is higher than those behind it.

-- What the ladder is for a request of n lines: the rungs from the highest one not above n.
rungs_from-cases :
    (n : ℕ)
    → 396 ≤ n
    → ((2160 ≤ n) × (rungs_from (pos n) quality_ladder ≡ quality_ladder))
      ⊎ ((1080 ≤ n) × (rungs_from (pos n) quality_ladder ≡ 1080 ∷ 720 ∷ 540 ∷ 396 ∷ []))
      ⊎ ((720 ≤ n) × (rungs_from (pos n) quality_ladder ≡ 720 ∷ 540 ∷ 396 ∷ []))
      ⊎ ((540 ≤ n) × (rungs_from (pos n) quality_ladder ≡ 540 ∷ 396 ∷ []))
      ⊎ ((n < 540) × (rungs_from (pos n) quality_ladder ≡ 396 ∷ []))
unfolding rungs_from
rungs_from-cases n h = ground arith

-- A rung that a request of n lines may be degraded to.
abbrev IsRungBelow : ℕ → ℕ → Type 0
IsRungBelow n m = In m quality_ladder × (m ≤ n) × (540 ≤ n → m < n)

down-IsRungBelow :
    (n k : ℕ) → 396 ≤ n → IsRungBelow n (down (suc k) (rungs_from (pos n) quality_ladder))
unfolding down
down-IsRungBelow n zero h = ground (arith, rungs_from-cases n h)
down-IsRungBelow n (suc zero) h = ground (arith, rungs_from-cases n h)
down-IsRungBelow n (suc (suc zero)) h = ground (arith, rungs_from-cases n h)
down-IsRungBelow n (suc (suc (suc zero))) h = ground (arith, rungs_from-cases n h)
down-IsRungBelow n (suc (suc (suc (suc k)))) h = ground (arith, rungs_from-cases n h)

-- The tag of a height names this height.
abbrev IsTagged : ℕ → Type 0
IsTagged m =
    (quality_to_height (height_to_quality_tag (pos m)) ≡ pos m)
    × (is_empty (height_to_quality_tag (pos m)) ≡ false)

ladder-IsTagged : All IsTagged quality_ladder
unfolding quality_to_height height_to_quality_tag text_cmp
ladder-IsTagged = ((refl, refl), ((refl, refl), ((refl, refl), ((refl, refl), ((refl, refl), tt)))))

-- For a request of at least 396 lines and at least one failure, degradeHeight returns a rung of the
-- ladder that is not above the request, and below it from 540 lines on.
degrade_height-IsRungBelow :
    (n k : ℕ) → 396 ≤ n → (m : ℕ) × (degrade_height (pos n) (suc k) ≡ pos m) × IsRungBelow n m
unfolding degrade_height
degrade_height-IsRungBelow n k h =
    (down (suc k) (rungs_from (pos n) quality_ladder), refl, down-IsRungBelow n k h)

-- What an attempt at m lines, under the tag q, is for a request of n lines; `cdn` says whether the
-- last failure was the CDN's.
abbrev pub IsAttemptFor : ℕ → Bool → ℤ × Text → Type 0
IsAttemptFor n cdn a =
    (m : ℕ) × (a.0 ≡ pos m)
    × (396 ≤ m)
    × (m ≤ n)
    × (cdn ≡ true → 540 ≤ n → m < n)
    × (quality_to_height a.1 ≡ pos m)

ladder-above : (m : ℕ) → In m quality_ladder → 396 ≤ m
ladder-above m i = ground arith

int_eq-pos : (m n : ℕ) → int_eq (pos m) (pos n) ≡ true → m ≡ n
int_eq-pos m n h = ground arith

int_eq_refl : (n : ℕ) → int_eq (pos n) (pos n) ≡ true
int_eq_refl n = ground arith

attempt-requested :
    (dl : Download)
    → should_degrade dl ≡ false
    → attempt_quality dl ≡ (quality_to_height dl.quality, dl.quality)
unfolding attempt_quality
attempt-requested dl d = rw d

attempt-degraded :
    (dl : Download) (n m : ℕ)
    → should_degrade dl ≡ true
    → quality_to_height dl.quality ≡ pos n
    → degrade_height (pos n) dl.cdn_failures ≡ pos m
    → is_empty (height_to_quality_tag (pos m)) ≡ false
    → ((n ≡ m) × (attempt_quality dl ≡ (quality_to_height dl.quality, dl.quality)))
      ⊎ (attempt_quality dl ≡ (pos m, height_to_quality_tag (pos m)))
unfolding attempt_quality
attempt-degraded dl n m d e g t = elim (Bool-cases (int_eq (pos m) (pos n))) [
  | inl x ↦ inl (sym (int_eq-pos m n x), rw (d, e, g, x))
  | inr x ↦ inr (rw (d, e, g, x, t))
]

zero_or_suc : (n : ℕ) → (n ≡ 0) ⊎ ((k : ℕ) × (n ≡ suc k))
zero_or_suc zero = inl refl
zero_or_suc (suc n) = inr (n, refl)

positive : (dl : Download) → should_degrade dl ≡ true → (k : ℕ) × (dl.cdn_failures ≡ suc k)
unfolding should_degrade
positive dl d = elim (zero_or_suc dl.cdn_failures) [ inl z ↦ absurd (ground arith) | inr p ↦ p ]

-- For a request of 396 lines or more, whatever failures have been counted, the next attempt goes
-- out at 396 lines or more and not above the request; if a CDN failure was counted, the last
-- failure was the CDN's and the request is of 540 lines or more, strictly below the request; and
-- the attempt's quality tag names the height of the attempt.
pub attempt_quality-IsAttemptFor :
    (dl : Download) (n : ℕ)
    → quality_to_height dl.quality ≡ pos n
    → 396 ≤ n
    → IsAttemptFor n (should_degrade dl) (attempt_quality dl)
attempt_quality-IsAttemptFor dl n e h = elim (Bool-cases (should_degrade dl)) [
  | inl d ↦
      let (k, p) = positive dl d in
      let (m, g, below) = degrade_height-IsRungBelow n k h in
      let (i, le, strict) = below in
      let (tagged, filled) = All-lookup IsTagged quality_ladder ladder-IsTagged m i in
      elim (attempt-degraded dl n m d e (ap (degrade_height (pos n)) p ∙ g) filled) [
        | inl (same, eq) ↦
            let full = ap (λ a. a.0) eq ∙ e in
            let named = ap (λ a. quality_to_height a.1) eq ∙ e in
            (n, full, h, omega arith, (λ _ big. absurd (omega (arith, strict big, same))), named)
        | inr eq ↦
            let named = ap (λ a. quality_to_height a.1) eq ∙ tagged in
            (m, ap (λ a. a.0) eq, ladder-above m i, le, (λ _. strict), named)
      ]
  | inr d ↦
      let eq = attempt-requested dl d in
      let named = ap (λ a. quality_to_height a.1) eq ∙ e in
      (n, ap (λ a. a.0) eq ∙ e, h, omega arith, (λ t. absurd (cc)), named)
]

-- The attempt after a stall asks for the height and the tag of the requested quality, whatever
-- failures were counted before.
stall_keeps_quality :
    (now : Time) (cooling : Bool) (f : Failure) (dl : Download)
    → attempt_quality (fail_row now cooling stalled f dl)
      ≡ (quality_to_height dl.quality, dl.quality)
unfolding attempt_quality fail_row
stall_keeps_quality now cooling f dl = ground arith
