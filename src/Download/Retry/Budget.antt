-- ===== src/Download/Retry/Budget.antt =====
-- A row fails a bounded number of times before it is permanent, whatever the failures are.
use iplayer_arr.Prelude.{ℕ, suc, ◌+◌, ◌≤◌, ◌≡◌, Bool, true, List, [], ◌∷◌, arith, length}
use iplayer_arr.Store.Types.{Time, Download, FailCode, geo_blocked, stalled}
use iplayer_arr.Download.Retry.{Failure, fail_row}

-- The budgets of a row that may be tried again.
pub record IsWithinBudget (dl : Download) : Type 0 where
  pub retries : dl.retry_count ≤ 11
  pub stalls : dl.stall_count ≤ 2
  pub credits : dl.stall_credits ≤ 6
  pub metadata : dl.metadata_failures ≤ 11

-- Every failure that was ever charged to the row.
abbrev spent : Download → ℕ
spent dl = dl.retry_count + dl.stall_count + dl.stall_credits + dl.metadata_failures

pub record Attempt : Type 0 where
  pub now : Time
  pub cooling : Bool
  pub code : FailCode
  pub failure : Failure

abbrev fail : Attempt → Download → Download
fail a dl = fail_row a.now a.cooling a.code a.failure dl

abbrev Charged : Download → Download → Type 0
Charged dl d =
    (spent d ≡ suc (spent dl)) × (IsWithinBudget dl → d.retryable ≡ true → IsWithinBudget d)

-- Each branch of the switch charges one failure to one of the budgets, and calls the row retryable
-- only while that budget lasts.
charge_one :
    (now : Time) (cooling : Bool) (code : FailCode) (f : Failure) (dl : Download)
    → Charged dl (fail_row now cooling code f dl)
unfolding fail_row
charge_one now cooling stalled f dl = (ground arith, λ w h. ground arith)
charge_one now cooling geo_blocked f dl = (ground arith, λ w h. ground arith)
charge_one now cooling code f dl = (ground arith, λ w h. ground arith)

-- A history of attempts that all fail, each of which leaves the row retryable.
abbrev pub StaysRetryable : List Attempt → Download → Type 0
StaysRetryable [] dl = Unit
StaysRetryable (a ∷ rest) dl = ((fail a dl).retryable ≡ true) × StaysRetryable rest (fail a dl)

length-le-budget :
    (attempts : List Attempt) (dl : Download)
    → IsWithinBudget dl
    → StaysRetryable attempts dl
    → spent dl + length attempts ≤ 30
length-le-budget [] dl w h = omega arith
length-le-budget (a ∷ rest) dl w (retry, more) =
    let (one, keeps) = charge_one a.now a.cooling a.code a.failure dl in
    omega (arith, one, length-le-budget rest (fail a dl) (keeps w retry) more)

-- A row to which no failure was charged yet is left retryable by at most 30 failures in a row,
-- whatever their codes and times are and whenever the throttle cools.
pub retries_bounded :
    (attempts : List Attempt) (dl : Download)
    → spent dl ≡ 0
    → StaysRetryable attempts dl
    → length attempts ≤ 30
retries_bounded attempts dl fresh h = omega (arith, length-le-budget attempts dl (omega arith) h)
