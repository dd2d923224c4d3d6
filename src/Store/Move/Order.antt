-- ===== src/Store/Move/Order.antt =====
-- A move that succeeds stores exactly the queue that it returns.
use iplayer_arr.Prelude.{
  ◌≡◌, ◌≢◌, refl, sym, ap, ◌∙◌, subst, ◌⊎◌, inl, inr, true, Option, none, some, List, In, In-keep,
  In-keep_inv, Text, keep,
}
use iplayer_arr.Prelude.Sort.{SameMembers, sorted_unique}
use iplayer_arr.Store.Types.{Download, is_pending}
use iplayer_arr.Store.Bolt.{Bolt, Cell, row, malformed, Db, Error, ok}
use iplayer_arr.Store.Queue.{queue_less, sort_queue}
use iplayer_arr.Store.Queue.Order.{
  HasDistinctIds, queue_less_irrefl, queue_less_trans, sort_queue-IsSorted, sort_queue-SameMembers,
  keep-HasDistinctIds, keep-IsSorted, id-cases, sort_queue_unique,
}
use iplayer_arr.Store.Downloads.{decode, complete, pending_downloads, list_downloads}
use iplayer_arr.Store.Downloads.Rows.{
  IsKeyed, entries-HasDistinctIds, entries_stored, entries_met, decode_ends, decode_completes,
}
use iplayer_arr.Store.Move.{renumber}
use iplayer_arr.Store.Move.Renumber.{
  renumbered, In-renumbered, In-renumbered_inv, renumbered-IsSorted, renumber-renumbered,
  get-renumber, get-renumber_other,
}

abbrev pub waiting : List Download → List Download
waiting = keep (λ d. is_pending d.status)

pub complete-eq-ok :
    (r : List Download × Option Error) (ds : List Download)
    → complete r ≡ ok ds
    → (r.0 ≡ ds) × (r.1 ≡ none)
complete-eq-ok (es, none) ds h = (cc, refl)
complete-eq-ok (es, some e) ds h = cc

pub row_of : {c d : Download} → some (row c) ≡ some (row d) → c ≡ d
row_of e = cc

-- Numbering rows of a bucket again, in any order, while the rest of the bucket stays.
module _ {B : Type 0} (bolt : Bolt B Cell) (b b' : B) (es q : List Download)
    (keyed : IsKeyed bolt b) (whole : (decode (bolt.entries b)).1 ≡ none)
    (distinct : HasDistinctIds es) (same : SameMembers es (waiting (decode (bolt.entries b)).0))
    (run : renumber bolt b es ≡ ok (b', q)) where
  shape : q ≡ renumbered es
  shape = renumber-renumbered bolt b es b' q run

  pub stored :
      (d : Download) → In d es → (bolt.get b d.id ≡ some (row d)) × (is_pending d.status ≡ true)
  stored d m =
      let (n, p) = In-keep (λ c. is_pending c.status) d (decode (bolt.entries b)).0 (same.0 d m) in
      (entries_stored bolt b keyed d n, p)

  stored_after : (e : Download) → In e q → bolt.get b' e.id ≡ some (row e)
  stored_after = get-renumber bolt b es b' q run distinct (λ d m. (stored d m).0)

  -- What a key holds afterwards: a row of the queue, or what it held before.
  get_after :
      (k : Text)
      → ((e : Download) × In e q × (e.id ≡ k) × (bolt.get b' k ≡ some (row e)))
        ⊎ (((d : Download) → In d es → d.id ≢ k) × (bolt.get b' k ≡ bolt.get b k))
  get_after k = elim (id-cases k es) [
    | inl (d, m, e) ↦
        let (n, r) = In-renumbered_inv es d m in
        let c : Download = record d { priority = n } in
        let in_q : In c q = subst (λ l. In c l) (sym shape) r in
        inl (c, in_q, e, subst (λ t. bolt.get b' t ≡ some (row c)) e (stored_after c in_q))
    | inr ne ↦ inr (ne, get-renumber_other bolt b es b' q k run ne)
  ]

  pub IsKeyed-after_renumber : IsKeyed bolt b'
  IsKeyed-after_renumber k d h = elim (get_after k) [
    | inl (e, m, p, held) ↦ ap (λ (x : Download). x.id) (row_of (sym h ∙ held)) ∙ p
    | inr (ne, held) ↦ keyed k d (sym held ∙ h)
  ]

  pub whole_after : (decode (bolt.entries b')).1 ≡ none
  whole_after = decode_completes (bolt.entries b') λ k m.
      let h : bolt.get b' k ≡ some malformed = (bolt.entries-get b' k malformed).0 m in
      elim (get_after k) [
        | inl (e, n, p, held) ↦ cc (sym h ∙ held)
        | inr (ne, held) ↦
            decode_ends (bolt.entries b) k ((bolt.entries-get b k malformed).1 (sym held ∙ h)) whole
      ]

  queue_waits : (e : Download) → In e q → In e (waiting (decode (bolt.entries b')).0)
  queue_waits e m =
      let r = In-renumbered es e (subst (λ l. In e l) shape m) in
      In-keep_inv (λ c. is_pending c.status) e (decode (bolt.entries b')).0
        (entries_met bolt b' IsKeyed-after_renumber e.id e whole_after (stored_after e m))
        (ap (λ (x : Download). is_pending x.status) r.changed ∙ (stored r.source r.source_in).1)

  waits_queue : (e : Download) → In e (waiting (decode (bolt.entries b')).0) → In e q
  waits_queue e m =
      let (n, p) = In-keep (λ c. is_pending c.status) e (decode (bolt.entries b')).0 m in
      let h : bolt.get b' e.id ≡ some (row e) = entries_stored bolt b' IsKeyed-after_renumber e n in
      elim (get_after e.id) [
        | inl (c, k, _, held) ↦ subst (λ x. In x q) (row_of (sym held ∙ h)) k
        | inr (ne, held) ↦ absurd (
            ne e
              (same.1 e (
                In-keep_inv (λ c. is_pending c.status) e _
                  (entries_met bolt b keyed e.id e whole (sym held ∙ h)) p))
              refl)
      ]

  pub sorted_after : waiting (sort_queue (decode (bolt.entries b')).0) ≡ q
  sorted_after =
      let ds = (decode (bolt.entries b')).0 in
      let (to, from) = sort_queue-SameMembers ds in
      let pass = λ (c : Download). is_pending c.status in
      sorted_unique queue_less queue_less_trans queue_less_irrefl (waiting (sort_queue ds)) q
        (keep-IsSorted pass (sort_queue ds)
          (sort_queue-IsSorted ds (entries-HasDistinctIds bolt b' IsKeyed-after_renumber)))
        (rw shape (renumbered-IsSorted es))
        (
          (λ a m.
              let (n, p) = In-keep pass a (sort_queue ds) m in
              waits_queue a (In-keep_inv pass a ds (to a n) p)),
          (λ a m.
              let (n, p) = In-keep pass a ds (queue_waits a m) in
              In-keep_inv pass a (sort_queue ds) (from a n) p),
        )

pub pending_whole :
    {B : Type 0} (bolt : Bolt B Cell) (db : Db B)
    → (decode (bolt.entries db.downloads)).1 ≡ none
    → pending_downloads bolt db ≡ ok (waiting (sort_queue (decode (bolt.entries db.downloads)).0))
unfolding pending_downloads list_downloads
pending_whole bolt db e = rw (e, complete)

-- Keeping the pending rows and sorting may be done in either order.
pub waiting-sort_queue :
    (ds : List Download) → HasDistinctIds ds → waiting (sort_queue ds) ≡ sort_queue (waiting ds)
waiting-sort_queue ds h =
    let pass = λ (c : Download). is_pending c.status in
    let (to, from) = sort_queue-SameMembers ds in
    sym (
      sort_queue_unique (waiting ds) (waiting (sort_queue ds)) (keep-HasDistinctIds pass ds h)
        (keep-IsSorted pass (sort_queue ds) (sort_queue-IsSorted ds h))
        (
          (λ a m.
              let (n, p) = In-keep pass a (sort_queue ds) m in In-keep_inv pass a ds (to a n) p),
          (λ a m.
              let (n, p) = In-keep pass a ds m in In-keep_inv pass a (sort_queue ds) (from a n) p),
        ))
