-- ===== src/Examples/Queue.antt =====
-- Examples of the download queue: three pending rows and a failed one.
use iplayer_arr.Prelude.{
  ℕ, ◌≡◌, ◌≢◌, refl, inl, inr, true, false, List, [], ◌∷◌, Text, codes, All, All-lookup, In, some,
  text_cmp, text_eq, text_eq_iff, ◌<◌, length,
}
use iplayer_arr.Prelude.Sort.{IsSorted, SameMembers, sort, insert}
use iplayer_arr.Store.Types.{Download, blank, failed}
use iplayer_arr.Store.Bolt.{Cell, row, malformed, Db, Result, ok, err, panic}
use iplayer_arr.Store.Queue.{queue_less, sort_queue}
use iplayer_arr.Store.Queue.Order.{HasDistinctIds, sort_queue_unique}
use iplayer_arr.Store.Downloads.{pending_downloads}
use iplayer_arr.Store.Downloads.Rows.{IsKeyed}
use iplayer_arr.Store.Move.{move_op, index_of, new_index, reinsert, shift, renumber, move_download}
use iplayer_arr.Store.Move.Laws.{
  pending_downloads-move_download, move_download-IsKeyed, move_download_frame, IsTarget,
  move_download_positions, move_download-ne-panic,
}
use iplayer_arr.Store.Move.Shift.{insert_at}
use iplayer_arr.Store.Move.Renumber.{renumbered}
use iplayer_arr.Examples.Bucket.{Bucket, bucket, empty, key_lt, lookup-In}

abbrev episode : Text → ℕ → Download
episode id n = record blank { id = id; show_name = codes "Show"; season = 1; episode = n }

abbrev one : Download
one = episode (codes "b") 1

abbrev two : Download
two = episode (codes "c") 2

abbrev three : Download
three = episode (codes "a") 3

abbrev lost : Download
lost = record (episode (codes "d") 4) { status = failed }

abbrev row_list : List (Text × Cell)
row_list =
    (codes "a", row three)
    ∷ (codes "b", row one)
    ∷ (codes "c", row two)
    ∷ (codes "d", row lost)
    ∷ []

-- The order of the keys, as a product that a literal list spells out.
abbrev AreSorted : List (Text × Cell) → Type 0
AreSorted [] = Unit
AreSorted (x ∷ l) = All (λ (p : Text × Cell). key_lt x p ≡ true) l × AreSorted l

AreSorted-IsSorted : (l : List (Text × Cell)) → AreSorted l → IsSorted key_lt l
AreSorted-IsSorted [] h = tt
AreSorted-IsSorted (x ∷ l) (first, rest) =
    (All-lookup (λ (p : Text × Cell). key_lt x p ≡ true) l first, AreSorted-IsSorted l rest)

row_list-AreSorted : AreSorted row_list
unfolding text_cmp
row_list-AreSorted = ((refl, (refl, (refl, tt))), ((refl, (refl, tt)), ((refl, tt), (tt, tt))))

abbrev db : Db (Bucket Cell)
db = record {
  downloads = record { pairs = row_list; sorted = AreSorted-IsSorted row_list row_list-AreSorted };
  history = empty Cell;
}

abbrev IsKeyedPair : Text × Cell → Type 0
IsKeyedPair (k, row d) = d.id ≡ k
IsKeyedPair (k, malformed) = Unit

pairs-IsKeyed : (b : Bucket Cell) → All IsKeyedPair b.pairs → IsKeyed (bucket Cell) b
pairs-IsKeyed b h k d held =
    All-lookup IsKeyedPair b.pairs h (k, row d) (lookup-In b.pairs k (row d) held)

db-IsKeyed : IsKeyed (bucket Cell) db.downloads
db-IsKeyed = pairs-IsKeyed db.downloads (refl, (refl, (refl, (refl, tt))))

-- The outcome of a move, taken apart; only run where the move succeeds.
abbrev stored_after : Result (Db (Bucket Cell) × List Download) → Db (Bucket Cell)
stored_after (ok (after, queue)) = after
stored_after (err e) = db

abbrev queue_after : Result (Db (Bucket Cell) × List Download) → List Download
queue_after (ok (after, queue)) = queue
queue_after (err e) = []

abbrev outcome : Result (Db (Bucket Cell) × List Download)
outcome = move_download (bucket Cell) (codes "a") (codes "top") db

outcome_ok : outcome ≡ ok (stored_after outcome, queue_after outcome)
unfolding move_download shift new_index reinsert renumber sort_queue insert sort queue_less move_op
    text_cmp index_of
outcome_ok = refl

abbrev ids : List Download → List Text
ids [] = []
ids (d ∷ ds) = d.id ∷ ids ds

-- Episode 3, moved to the top, stands before episodes 1 and 2.
outcome-ids : ids (queue_after outcome) ≡ codes "a" ∷ codes "b" ∷ codes "c" ∷ []
unfolding move_download shift new_index reinsert renumber sort_queue insert sort queue_less move_op
    text_cmp index_of
outcome-ids = refl

pending_downloads-move_download_example :
    pending_downloads (bucket Cell) (stored_after outcome) ≡ ok (queue_after outcome)
pending_downloads-move_download_example =
    pending_downloads-move_download (bucket Cell) (codes "a") db db-IsKeyed (codes "top")
      (stored_after outcome) (queue_after outcome) outcome_ok

move_download-IsKeyed_example : IsKeyed (bucket Cell) (stored_after outcome).downloads
move_download-IsKeyed_example =
    move_download-IsKeyed (bucket Cell) (codes "a") db db-IsKeyed (codes "top")
      (stored_after outcome) (queue_after outcome) outcome_ok

lost_held : (bucket Cell).get db.downloads (codes "d") ≡ some (row lost)
unfolding text_cmp
lost_held = refl

move_download_frame_example :
    ((stored_after outcome).history ≡ db.history)
    × ((bucket Cell).get (stored_after outcome).downloads (codes "d") ≡ some (row lost))
move_download_frame_example =
    move_download_frame (bucket Cell) (codes "a") db db-IsKeyed (codes "top") (stored_after outcome)
      (queue_after outcome) outcome_ok (codes "d") lost lost_held refl

move_download_positions_example :
    (before : List Download) × (i : ℕ) × (j : ℕ) × (moved : Download) × (rest : List Download)
    × (pending_downloads (bucket Cell) db ≡ ok before)
    × IsTarget (codes "top") i (length before) j
    × (moved.id ≡ codes "a")
    × (i < length before)
    × (before ≡ insert_at i moved rest)
    × (queue_after outcome ≡ renumbered (insert_at j moved rest))
move_download_positions_example =
    move_download_positions (bucket Cell) (codes "a") db db-IsKeyed (codes "top")
      (stored_after outcome) (queue_after outcome) outcome_ok

move_download-ne-panic_example :
    move_download (bucket Cell) (codes "zz") (codes "up") db ≢ err panic
move_download-ne-panic_example = move_download-ne-panic (bucket Cell) (codes "zz") db (codes "up")

abbrev waiting_rows : List Download
waiting_rows = three ∷ one ∷ two ∷ []

abbrev claim_order : List Download
claim_order = one ∷ two ∷ three ∷ []

differ : (s t : Text) → text_eq s t ≡ false → s ≢ t
differ s t h e = absurd (cc (h, (text_eq_iff s t).1 e))

abbrev IsNamedApart : Download → Download → Type 0
IsNamedApart d e = d.id ≢ e.id

waiting-HasDistinctIds : HasDistinctIds waiting_rows
unfolding text_cmp
waiting-HasDistinctIds =
    let ab = differ (codes "a") (codes "b") refl in
    let ac = differ (codes "a") (codes "c") refl in
    let bc = differ (codes "b") (codes "c") refl in
    (
      All-lookup (IsNamedApart three) (one ∷ two ∷ []) (ab, (ac, tt)),
      (All-lookup (IsNamedApart one) (two ∷ []) (bc, tt), ((λ e i. absurd i), tt)),
    )

claim_order-IsSorted : IsSorted queue_less claim_order
unfolding queue_less text_cmp
claim_order-IsSorted = (
  All-lookup (λ d. queue_less one d ≡ true) (two ∷ three ∷ []) (refl, (refl, tt)),
  (All-lookup (λ d. queue_less two d ≡ true) (three ∷ []) (refl, tt), ((λ e i. absurd i), tt)),
)

claim_order-SameMembers : SameMembers claim_order waiting_rows
claim_order-SameMembers = (
  All-lookup (λ d. In d waiting_rows) claim_order
      (inr (inl refl), (inr (inr (inl refl)), (inl refl, tt))),
  All-lookup (λ d. In d claim_order) waiting_rows
      (inr (inr (inl refl)), (inl refl, (inr (inl refl), tt))),
)

sort_queue_unique_example : sort_queue waiting_rows ≡ claim_order
sort_queue_unique_example =
    sort_queue_unique waiting_rows claim_order waiting-HasDistinctIds claim_order-IsSorted
      claim_order-SameMembers
