-- ===== src/Download/Worker.antt =====
-- The claim of the next download by a worker: processNext up to processDownload, claim and release
-- (internal/download/worker.go), and the set of cancelled ids (manager.go). The sets are lists of ids.
pub mod Claim
use iplayer_arr.Prelude.{
  ℕ, ◌<◌, Bool, true, false, ◌&&◌, ◌||◌, not, Option, none, some, List, [], ◌∷◌, Text, text_eq,
  member, keep, length, ltb, ◌==◌, if◌then◌else◌,
}
use iplayer_arr.Store.Types.{Time, Download, is_pending, is_failed}
use iplayer_arr.Store.Bolt.{Bolt, Cell, Db, Error}
use iplayer_arr.Store.Downloads.{list_downloads}
use iplayer_arr.Download.Throttle.{Throttle, admit}

unfoldable claim : Text → List Text → Bool × List Text
claim id claimed = if member claimed id then (false, claimed) else (true, id ∷ claimed)

unfoldable release : Text → List Text → List Text
release id claimed = keep (λ other. not (text_eq other id)) claimed

unfoldable mark_cancelled : Text → List Text → List Text
mark_cancelled id cancelled = if member cancelled id then cancelled else id ∷ cancelled

unfoldable is_cancelled : Text → List Text → Bool
is_cancelled id cancelled = member cancelled id

unfoldable clear_cancelled : Text → List Text → List Text
clear_cancelled id cancelled = keep (λ other. not (text_eq other id)) cancelled

abbrev pub is_claimable : Time → Download → Bool
is_claimable now dl =
    is_pending dl.status
    || (is_failed dl.status && dl.retryable && ((dl.retry_after == 0) || ltb dl.retry_after now))

-- What the loop does with a row that it may claim: it claims it, or goes on.
abbrev claimed_or :
    Download → Bool × List Text → Option Download × List Text → Option Download × List Text
claimed_or dl (true, claimed) rest = (some dl, claimed)
claimed_or dl (false, claimed) rest = rest

unfoldable pub claim_first : Time → List Text → List Download → Option Download × List Text
unfolding claim
claim_first now claimed [] = (none, claimed)
claim_first now claimed (dl ∷ dls) =
    let rest = claim_first now claimed dls in
    if is_claimable now dl then claimed_or dl (claim dl.id claimed) rest else rest

abbrev claim_listed : Time → List Text → List Download × Option Error → Option Download × List Text
claim_listed now claimed (dls, some e) = (none, claimed)
claim_listed now claimed (dls, none) = claim_first now claimed dls

module _ {B : Type 0} (bolt : Bolt B Cell) where
  -- The download that the worker processes next, if any, and the claimed ids.
  unfoldable pub process_next : Time → Throttle → List Text → Db B → Option Download × List Text
  unfolding admit list_downloads claim_first
  process_next now t claimed db =
      if not (admit now (length claimed) t)
      then (none, claimed)
      else claim_listed now claimed (list_downloads bolt db)
