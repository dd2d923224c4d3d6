-- ===== src/Download/Retry/Refusal.antt =====
-- What a supplier's refusal does to the next attempt: failDownload's row (internal/download/worker.go)
-- read by the next pickStream.
use iplayer_arr.Prelude.{
  ◌≡◌, refl, ap, ◌∙◌, Bool, true, false, some, List, [], ◌∷◌, ◌++◌, Text, arith, In, member,
  is_empty, text_eq, text_eq_refl, text_eq_iff, Bool-cases, inl, inr,
}
use iplayer_arr.Store.Types.{Time, Download, ffmpeg_error}
use iplayer_arr.Download.Retry.{Failure, fail_row, add_failed_supplier, fail_default, set_retry}
use iplayer_arr.Download.Quality.{quality_to_height}
use iplayer_arr.Download.Streams.{VideoStream, diff, is_excluded, pick_stream}
use iplayer_arr.Download.Streams.Pick.{pick_stream-IsPick}

member-append_last : (l : List Text) (s : Text) → member (l ++ s ∷ []) s ≡ true
unfolding member
member-append_last [] s = rw (text_eq_refl s) refl
member-append_last (x ∷ l) s = ground (arith, member-append_last l s)

add_failed_supplier-member :
    (l : List Text) (s : Text) → is_empty s ≡ false → member (add_failed_supplier l s) s ≡ true
unfolding add_failed_supplier
add_failed_supplier-member l s e = elim (Bool-cases (member l s)) [
  | inl m ↦ rw (e, m) m
  | inr m ↦ rw (e, m) (member-append_last l s)
]

set_retry-failed_suppliers :
    (b : Bool) (at : Time) (dl : Download)
    → (set_retry b at dl).failed_suppliers ≡ dl.failed_suppliers
set_retry-failed_suppliers true at dl = refl
set_retry-failed_suppliers false at dl = refl

-- A refusal notes the supplier and leaves the count that degrades the quality alone.
refusal-failed_suppliers :
    (now : Time) (cooling : Bool) (f : Failure) (dl : Download) (supplier : Text)
    → f.refused_by ≡ some supplier
    → (fail_row now cooling ffmpeg_error f dl).failed_suppliers
      ≡ add_failed_supplier dl.failed_suppliers supplier
unfolding fail_row fail_default
refusal-failed_suppliers now cooling f dl supplier e = rw e (ground arith)

-- The stream picked for the row that a refused attempt leaves.
abbrev pub next_pick : Time → Bool → Failure → Download → List VideoStream → Text → VideoStream
next_pick now cooling f dl l quality =
    pick_stream l quality (fail_row now cooling ffmpeg_error f dl).failed_suppliers

-- After an ffmpeg failure that is a named supplier's refusal, the stream picked next, at any
-- quality, is not that supplier's, as long as a stream at the same distance from the quality's
-- height is from a supplier that has not refused.
pub refused_supplier_is_avoided :
    (now : Time) (cooling : Bool) (f : Failure) (dl : Download) (supplier : Text)
    (l : List VideoStream) (quality : Text) (other : VideoStream)
    → f.refused_by ≡ some supplier
    → is_empty supplier ≡ false
    → In other l
    → is_excluded (add_failed_supplier dl.failed_suppliers supplier) other ≡ false
    → diff (quality_to_height quality) other
      ≡ diff (quality_to_height quality) (next_pick now cooling f dl l quality)
    → text_eq (next_pick now cooling f dl l quality).supplier supplier ≡ false
refused_supplier_is_avoided now cooling f dl supplier l quality other e named i free d =
    let next = next_pick now cooling f dl l quality in
    let row = refusal-failed_suppliers now cooling f dl supplier e in
    let pick =
      pick_stream-IsPick l quality (fail_row now cooling ffmpeg_error f dl).failed_suppliers other
        i in
    elim (Bool-cases (text_eq next.supplier supplier)) [
      | inl same ↦
          let noted = add_failed_supplier-member dl.failed_suppliers supplier named in
          let kept =
            ap (λ ds. member ds next.supplier) row
            ∙ (ap (member (add_failed_supplier dl.failed_suppliers supplier))
                  ((text_eq_iff next.supplier supplier).0 same)
                ∙ noted) in
          absurd (cc (pick.avoids other i d kept, free))
      | inr differs ↦ differs
    ]
