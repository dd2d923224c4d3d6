-- ===== src/Download/Enqueue/Laws.antt =====
-- Asking twice for one pid and quality queues it once.
use iplayer_arr.Prelude.{
  ◌≡◌, ◌≢◌, inl, inr, refl, sym, ap, ◌∙◌, subst, true, Option, none, some, Option-cases, Bool-cases,
  Text, text_eq_refl, arith,
}
use iplayer_arr.Store.Types.{Download}
use iplayer_arr.Store.Bolt.{Bolt, Cell, row, Db}
use iplayer_arr.Store.Downloads.{
  decode, last_such, same_grab, find_download_by_pid_quality, put_download,
}
use iplayer_arr.Store.History.{find_history_by_pid_quality, delete_history}
use iplayer_arr.Download.Enqueue.{
  Host, Grab, new_row, is_superseded, logged, insert_row, past_history, enqueue,
}
use iplayer_arr.Download.Enqueue.Found.{IsReadable, found_after_put}

none-ne-some_id : (t : Text) → none ≢ some t
none-ne-some_id t h = cc

some-injective : {s t : Text} → some s ≡ some t → s ≡ t
some-injective h = cc

module _ {B : Type 0} (bolt : Bolt B Cell) (host : Host) where
  -- The row found for a pid and a quality among the decoded rows of the downloads.
  abbrev queued : Text → Text → B → Option Download
  queued pid quality b = last_such (same_grab pid quality) none (decode (bolt.entries b)).0

  insert_row-stored :
      (g : Grab) (db : Db B) (b' : B)
      → bolt.put db.downloads g.id (row (new_row host g)) ≡ some b'
      → insert_row bolt host g db ≡ (record db { downloads = b' }, some g.id)
  unfolding put_download
  insert_row-stored g db b' p = rw p

  insert_row-failed :
      (g : Grab) (db : Db B)
      → bolt.put db.downloads g.id (row (new_row host g)) ≡ none
      → insert_row bolt host g db ≡ (db, none)
  unfolding put_download
  insert_row-failed g db p = rw p

  new_row-same : (g : Grab) → same_grab g.pid g.quality (new_row host g) ≡ true
  new_row-same g = ground (arith, text_eq_refl g.pid, text_eq_refl g.quality)

  insert_row-found :
      (g : Grab) (db db' : Db B) (nzo : Text)
      → IsReadable bolt db.downloads
      → queued g.pid g.quality db.downloads ≡ none
      → insert_row bolt host g db ≡ (db', some nzo)
      → (queued g.pid g.quality db'.downloads ≡ some (new_row host g)) × (g.id ≡ nzo)
  insert_row-found g db db' nzo h fresh ran =
      elim (Option-cases (bolt.put db.downloads g.id (row (new_row host g)))) [
        | inl e ↦
            let eq = sym (insert_row-failed g db e) ∙ ran in
            absurd (none-ne-some_id nzo (ap (λ (r : Db B × Option Text). r.1) eq))
        | inr (b', p) ↦
            let eq = sym (insert_row-stored g db b' p) ∙ ran in
            let found =
              found_after_put bolt db.downloads (new_row host g) b' (same_grab g.pid g.quality) h p
                fresh (new_row-same g) in
            (
              subst
                  (λ (r : Db B × Option Text).
                    queued g.pid g.quality r.0.downloads ≡ some (new_row host g))
                  eq found,
              some-injective (ap (λ (r : Db B × Option Text). r.1) eq),
            )
      ]

  -- What a second grab does where the first one's row is in the queue.
  enqueue-queued :
      (g : Grab) (db : Db B) (d : Download)
      → queued g.pid g.quality db.downloads ≡ some d
      → enqueue bolt host g db ≡ (db, some d.id)
  unfolding enqueue find_download_by_pid_quality
  enqueue-queued g db d h = rw h

  enqueue-fresh :
      (g : Grab) (db : Db B)
      → queued g.pid g.quality db.downloads ≡ none
      → enqueue bolt host g db
        ≡ past_history bolt host g (find_history_by_pid_quality bolt g.pid g.quality db).0 db
  unfolding enqueue find_download_by_pid_quality
  enqueue-fresh g db h = rw h

  logged-downloads :
      (id : Text) (db : Db B)
      → (logged bolt host db (delete_history bolt id db)).downloads ≡ db.downloads
  unfolding delete_history
  logged-downloads id db = elim (Option-cases (bolt.delete db.history id)) [
    | inl e ↦ rw e refl
    | inr (b', e) ↦ rw e refl
  ]

  -- A grab that stored a row finds it again.
  again-inserted :
      (g g' : Grab) (db db' : Db B) (nzo : Text)
      → g'.pid ≡ g.pid
      → g'.quality ≡ g.quality
      → IsReadable bolt db.downloads
      → queued g.pid g.quality db.downloads ≡ none
      → insert_row bolt host g db ≡ (db', some nzo)
      → enqueue bolt host g' db' ≡ (db', some nzo)
  again-inserted g g' db db' nzo ep eq h fresh ran =
      let (found, id) = insert_row-found g db db' nzo h fresh ran in
      let found' : queued g'.pid g'.quality db'.downloads ≡ some (new_row host g) =
        rw (ep, eq) found in
      enqueue-queued g' db' (new_row host g) found' ∙ ap (λ t. (db', some t)) id

  -- A grab that leaves the database alone, answered with the id of a row, is answered so again.
  again-same :
      (g' : Grab) (db db' : Db B) (id nzo : Text)
      → enqueue bolt host g' db ≡ (db, some id)
      → ◌≡◌ {A = Db B × Option Text} (db, some id) (db', some nzo)
      → enqueue bolt host g' db' ≡ (db', some nzo)
  again-same g' db db' id nzo ran same =
      subst (λ (r : Db B × Option Text). enqueue bolt host g' r.0 ≡ r) same ran

  module _ (g g' : Grab) (ep : g'.pid ≡ g.pid) (eq : g'.quality ≡ g.quality) (db db' : Db B)
      (nzo : Text) (h : IsReadable bolt db.downloads) where
    again-history :
        (o : Option Download)
        → (find_history_by_pid_quality bolt g.pid g.quality db).0 ≡ o
        → queued g.pid g.quality db.downloads ≡ none
        → past_history bolt host g o db ≡ (db', some nzo)
        → enqueue bolt host g' db' ≡ (db', some nzo)
    again-history none found fresh ran = again-inserted g g' db db' nzo ep eq h fresh ran
    again-history (some hist) found fresh ran = elim (Bool-cases (is_superseded hist)) [
      | inl y ↦
          let db1 = logged bolt host db (delete_history bolt hist.id db) in
          let same = logged-downloads hist.id db in
          again-inserted g g' db1 db' nzo ep eq (subst (IsReadable bolt) (sym same) h)
            (ap (queued g.pid g.quality) same ∙ fresh) (rw y at ran)
      | inr n ↦
          let fresh' : queued g'.pid g'.quality db.downloads ≡ none = rw (ep, eq) fresh in
          let found' : (find_history_by_pid_quality bolt g'.pid g'.quality db).0 ≡ some hist =
            rw (ep, eq) found in
          let answer : past_history bolt host g' (some hist) db ≡ (db, some hist.id) = rw n in
          again-same g' db db' hist.id nzo
            (enqueue-fresh g' db fresh' ∙ ap (λ o. past_history bolt host g' o db) found' ∙ answer)
            (rw n at ran)
    ]

    -- Where every row of the queue is decodable, a grab that was answered with an id is answered
    -- with the same id when its pid and quality are asked for again, whatever title and category
    -- are then named, and the second time changes nothing.
    pub enqueue_twice :
        enqueue bolt host g db ≡ (db', some nzo) → enqueue bolt host g' db' ≡ (db', some nzo)
    enqueue_twice ran = elim (Option-cases (queued g.pid g.quality db.downloads)) [
      | inl fresh ↦
          again-history (find_history_by_pid_quality bolt g.pid g.quality db).0 refl fresh
            (sym (enqueue-fresh g db fresh) ∙ ran)
      | inr (d, found) ↦
          let found' : queued g'.pid g'.quality db.downloads ≡ some d = rw (ep, eq) found in
          again-same g' db db' d.id nzo (enqueue-queued g' db d found')
            (sym (enqueue-queued g db d found) ∙ ran)
    ]
