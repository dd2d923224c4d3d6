-- ===== src/Download/Worker/Claim.antt =====
-- What processNext claims (internal/download/worker.go).
use iplayer_arr.Prelude.{
  ◌≡◌, refl, sym, ap, subst, inl, inr, Bool, true, false, not, ◌&&◌, Bool-cases, Option, none, some,
  List, [], ◌∷◌, ◌++◌, All, Text, arith, length, member,
}
use iplayer_arr.Store.Types.{Time, Download}
use iplayer_arr.Store.Bolt.{Bolt, Cell, Db}
use iplayer_arr.Store.Downloads.{list_downloads}
use iplayer_arr.Download.Throttle.{Throttle, admit}
use iplayer_arr.Download.Worker.{is_claimable, claim_first, process_next}

-- A row that a worker may take: claimable, and no other worker's.
abbrev is_free : Time → List Text → Download → Bool
is_free now claimed dl = is_claimable now dl && not (member claimed dl.id)

-- What one look through the rows has to give: the first free row, now claimed, or nothing if no row
-- is free.
abbrev pub IsFirstFree : Time → List Text → List Download → Option Download × List Text → Type 0
IsFirstFree now claimed rows (none, claimed') =
    (claimed' ≡ claimed) × All (λ dl. is_free now claimed dl ≡ false) rows
IsFirstFree now claimed rows (some dl, claimed') =
    (before : List Download) × (after : List Download) × (rows ≡ before ++ dl ∷ after)
    × All (λ d. is_free now claimed d ≡ false) before
    × (is_free now claimed dl ≡ true)
    × (claimed' ≡ dl.id ∷ claimed)

claim_first-taken :
    (now : Time) (claimed : List Text) (dl : Download) (dls : List Download)
    → is_free now claimed dl ≡ true
    → claim_first now claimed (dl ∷ dls) ≡ (some dl, dl.id ∷ claimed)
unfolding claim_first
claim_first-taken now claimed dl dls h =
    let ready : is_claimable now dl ≡ true = ground arith in
    let fresh : member claimed dl.id ≡ false = ground arith in rw (ready, fresh)

claim_first-passed :
    (now : Time) (claimed : List Text) (dl : Download) (dls : List Download)
    → is_free now claimed dl ≡ false
    → claim_first now claimed (dl ∷ dls) ≡ claim_first now claimed dls
unfolding claim_first
claim_first-passed now claimed dl dls h = elim (Bool-cases (is_claimable now dl)) [
  | inl ready ↦ let held : member claimed dl.id ≡ true = ground arith in rw (ready, held)
  | inr not_ready ↦ rw not_ready
]

IsFirstFree-cons :
    (now : Time) (claimed : List Text) (dl : Download) (dls : List Download)
    (r : Option Download × List Text)
    → is_free now claimed dl ≡ false
    → IsFirstFree now claimed dls r
    → IsFirstFree now claimed (dl ∷ dls) r
IsFirstFree-cons now claimed dl dls (none, c) h (same, all) = (same, (h, all))
IsFirstFree-cons now claimed dl dls (some d, c) h (before, after, split, all, free, now_claimed) =
    (dl ∷ before, after, ap (λ l. dl ∷ l) split, (h, all), free, now_claimed)

claim_first-IsFirstFree :
    (now : Time) (claimed : List Text) (rows : List Download)
    → IsFirstFree now claimed rows (claim_first now claimed rows)
unfolding claim_first
claim_first-IsFirstFree now claimed [] = (refl, tt)
claim_first-IsFirstFree now claimed (dl ∷ dls) = elim (Bool-cases (is_free now claimed dl)) [
  | inl h ↦
      subst (IsFirstFree now claimed (dl ∷ dls)) (sym (claim_first-taken now claimed dl dls h))
        ([], dls, refl, tt, h, refl)
  | inr h ↦
      subst (IsFirstFree now claimed (dl ∷ dls)) (sym (claim_first-passed now claimed dl dls h)) (
        IsFirstFree-cons now claimed dl dls (claim_first now claimed dls) h
          (claim_first-IsFirstFree now claimed dls))
]

-- When the throttle admits one more download and every row can be read, a worker takes the first
-- row in the order of ListDownloads that is pending or due for a retry and that no worker has
-- claimed, and claims it; it takes nothing, and claims nothing, only if there is no such row.
pub process_next-IsFirstFree :
    {B : Type 0} (bolt : Bolt B Cell) (now : Time) (t : Throttle) (claimed : List Text) (db : Db B)
    (rows : List Download)
    → admit now (length claimed) t ≡ true
    → list_downloads bolt db ≡ (rows, none)
    → IsFirstFree now claimed rows (process_next bolt now t claimed db)
unfolding process_next
process_next-IsFirstFree bolt now t claimed db rows a l =
    let run : process_next bolt now t claimed db ≡ claim_first now claimed rows = rw (a, l) in
    subst (IsFirstFree now claimed rows) (sym run) (claim_first-IsFirstFree now claimed rows)
