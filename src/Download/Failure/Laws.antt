-- ===== src/Download/Failure/Laws.antt =====
-- Where the row of a failed attempt is afterwards.
use iplayer_arr.Prelude.{
  suc, ◌≡◌, refl, sym, ap, ◌∙◌, Bool, true, false, ◌&&◌, ltb, none, some, Text, text_eq,
  text_eq_refl, arith, if◌then◌else◌,
}
use iplayer_arr.Store.Types.{
  Time, Download, FailCode, geo_blocked, expired, not_yet_available, stalled, metadata_unavailable,
}
use iplayer_arr.Store.Bolt.{
  Bolt, Cell, row, Db, ok, attempt, attempt-eq-ok, >>=-eq-ok, ok-injective,
}
use iplayer_arr.Store.Downloads.{put_download, get_download, move_to_history, decoded}
use iplayer_arr.Store.History.{get_history}
use iplayer_arr.Download.Retry.{Failure, fail_row}
use iplayer_arr.Download.Failure.{unless_failed, put_row, retire, settle, fail_download}

-- Whether a failure may be tried again, by the budget of its code: three stalls, where one during a
-- cooldown is free while fewer than six have been; twelve failures before the programme is there;
-- twelve metadata failures; three failures of any other kind; and none where the programme is
-- blocked or has expired.
abbrev may_retry : Bool → FailCode → Download → Bool
may_retry cooling stalled dl =
    ltb (if cooling && ltb dl.stall_credits 6 then dl.stall_count else suc dl.stall_count) 3
may_retry cooling geo_blocked dl = false
may_retry cooling expired dl = false
may_retry cooling not_yet_available dl = ltb (suc dl.retry_count) 12
may_retry cooling metadata_unavailable dl = ltb (suc dl.metadata_failures) 12
may_retry cooling _ dl = ltb (suc dl.retry_count) 3

fail_row-may_retry :
    (now : Time) (cooling : Bool) (code : FailCode) (f : Failure) (dl : Download)
    → (fail_row now cooling code f dl).retryable ≡ may_retry cooling code dl
unfolding fail_row
fail_row-may_retry now cooling stalled f dl = ground arith
fail_row-may_retry now cooling code f dl = ground arith

fail_row-id :
    (now : Time) (cooling : Bool) (code : FailCode) (f : Failure) (dl : Download)
    → (fail_row now cooling code f dl).id ≡ dl.id
unfolding fail_row
fail_row-id now cooling code f dl = ground arith

if_true : {A : Type 0} (b : Bool) (x y : A) → b ≡ true → (if b then x else y) ≡ x
if_true true x y h = refl
if_true false x y h = absurd (cc h)

if_false : {A : Type 0} (b : Bool) (x y : A) → b ≡ false → (if b then x else y) ≡ y
if_false true x y h = absurd (cc h)
if_false false x y h = refl

module _ {B : Type 0} (bolt : Bolt B Cell) where
  get-put_download :
      (dl : Download) (db db' : Db B) (j : Text)
      → put_download bolt dl db ≡ ok db'
      → (bolt.get db'.downloads j
          ≡ (if text_eq dl.id j then some (row dl) else bolt.get db.downloads j))
        × (db'.history ≡ db.history)
  unfolding put_download
  get-put_download dl db db' j h =
      let (b, e, f) =
        >>=-eq-ok (attempt (bolt.put db.downloads dl.id (row dl)))
          (λ b. ok (record db { downloads = b })) h in
      let same : b ≡ db'.downloads = ap (λ (x : Db B). x.downloads) (ok-injective f) in
      let law =
        bolt.get-put db.downloads dl.id (row dl) b j
          (attempt-eq-ok (bolt.put db.downloads dl.id (row dl)) e) in
      (
        ap (λ (x : B). bolt.get x j) (sym same) ∙ law,
        sym (ap (λ (x : Db B). x.history) (ok-injective f)),
      )

  put_own :
      (dl : Download) (db db' : Db B) (k : Text)
      → dl.id ≡ k
      → put_download bolt dl db ≡ ok db'
      → bolt.get db'.downloads k ≡ some (row dl)
  put_own dl db db' k same h =
      (get-put_download dl db db' k h).0
      ∙ if_true (text_eq dl.id k) (some (row dl)) (bolt.get db.downloads k)
          (ap (λ (i : Text). text_eq i k) same ∙ text_eq_refl k)

  put_other :
      (dl : Download) (db db' : Db B) (k j : Text)
      → dl.id ≡ k
      → text_eq k j ≡ false
      → put_download bolt dl db ≡ ok db'
      → bolt.get db'.downloads j ≡ bolt.get db.downloads j
  put_other dl db db' k j same apart h =
      (get-put_download dl db db' j h).0
      ∙ if_false (text_eq dl.id j) (some (row dl)) (bolt.get db.downloads j)
          (ap (λ (i : Text). text_eq i j) same ∙ apart)

  get-move_to_history :
      (id : Text) (c : Cell) (db db' : Db B) (j : Text)
      → bolt.get db.downloads id ≡ some c
      → move_to_history bolt id db ≡ ok db'
      → (bolt.get db'.downloads j ≡ (if text_eq id j then none else bolt.get db.downloads j))
        × (bolt.get db'.history j ≡ (if text_eq id j then some c else bolt.get db.history j))
  unfolding move_to_history
  get-move_to_history id c db db' j held h =
      let (b, e, more) = >>=-eq-ok (attempt (bolt.put db.history id c)) _ (rw held at h) in
      let (b', e', f) = >>=-eq-ok (attempt (bolt.delete db.downloads id)) _ more in
      let kept : b ≡ db'.history = ap (λ (x : Db B). x.history) (ok-injective f) in
      let left : b' ≡ db'.downloads = ap (λ (x : Db B). x.downloads) (ok-injective f) in
      (
        ap (λ (x : B). bolt.get x j) (sym left)
            ∙ bolt.get-delete db.downloads id b' j (attempt-eq-ok (bolt.delete db.downloads id) e'),
        ap (λ (x : B). bolt.get x j) (sym kept)
            ∙ bolt.get-put db.history id c b j (attempt-eq-ok (bolt.put db.history id c) e),
      )

  settle_retryable :
      (finished : Time) (d : Download) (db db1 : Db B)
      → d.retryable ≡ true
      → put_download bolt d db ≡ ok db1
      → settle bolt finished d db ≡ db1
  settle_retryable finished d db db1 r h =
      let stored = put_row bolt d db in
      if_true d.retryable stored (retire bolt finished d stored) r ∙ ap (unless_failed db) h

  settle_permanent :
      (finished : Time) (d : Download) (db db1 db2 db3 : Db B)
      → d.retryable ≡ false
      → put_download bolt d db ≡ ok db1
      → put_download bolt (record d { completed_at = finished }) db1 ≡ ok db2
      → move_to_history bolt d.id db2 ≡ ok db3
      → settle bolt finished d db ≡ db3
  settle_permanent finished d db db1 db2 db3 r h h' h'' =
      let stored = put_row bolt d db in
      if_false d.retryable stored (retire bolt finished d stored) r
      ∙ ap (retire bolt finished d) (ap (unless_failed db) h)
      ∙ ap (λ (x : Db B). unless_failed x (move_to_history bolt d.id x)) (ap (unless_failed db1) h')
      ∙ ap (unless_failed db2) h''

  -- A failure that the budget of its code lets the row survive, where the one write succeeds: the
  -- database is then the one written, the row is in the queue as failDownload changed it, and every
  -- other id of the queue, and the history, are as they were.
  pub fail_download-get_retryable :
      (now finished : Time) (cooling : Bool) (code : FailCode) (f : Failure) (dl : Download)
      (db db1 : Db B) (other : Text)
      → may_retry cooling code dl ≡ true
      → put_download bolt (fail_row now cooling code f dl) db ≡ ok db1
      → text_eq dl.id other ≡ false
      → (fail_download bolt now finished cooling code f dl db ≡ db1)
        × (get_download bolt dl.id db1 ≡ ok (some (fail_row now cooling code f dl)))
        × (get_download bolt other db1 ≡ get_download bolt other db)
        × (db1.history ≡ db.history)
  unfolding fail_download get_download
  fail_download-get_retryable now finished cooling code f dl db db1 other may stored apart =
      let d = fail_row now cooling code f dl in
      let same : d.id ≡ dl.id = fail_row-id now cooling code f dl in
      (
        settle_retryable finished d db db1 (fail_row-may_retry now cooling code f dl ∙ may) stored,
        ap (decoded bolt) (put_own d db db1 dl.id same stored),
        ap (decoded bolt) (put_other d db db1 dl.id other same apart stored),
        (get-put_download d db db1 other stored).1,
      )

  -- A failure that the budget of its code does not let the row survive, where the three writes
  -- succeed: the row is gone from the queue, the history has it as failDownload changed it, with
  -- the completion time set, and every other id reads as before in the queue and in the history.
  pub fail_download-get_permanent :
      (now finished : Time) (cooling : Bool) (code : FailCode) (f : Failure) (dl : Download)
      (db db1 db2 db3 : Db B) (other : Text)
      → may_retry cooling code dl ≡ false
      → put_download bolt (fail_row now cooling code f dl) db ≡ ok db1
      → put_download bolt (record (fail_row now cooling code f dl) { completed_at = finished }) db1
        ≡ ok db2
      → move_to_history bolt dl.id db2 ≡ ok db3
      → text_eq dl.id other ≡ false
      → (fail_download bolt now finished cooling code f dl db ≡ db3)
        × (get_download bolt dl.id db3 ≡ ok none)
        × (get_history bolt dl.id db3
            ≡ ok (some (record (fail_row now cooling code f dl) { completed_at = finished })))
        × (get_download bolt other db3 ≡ get_download bolt other db)
        × (get_history bolt other db3 ≡ get_history bolt other db)
  unfolding fail_download get_download get_history
  fail_download-get_permanent now finished cooling code f dl db db1 db2 db3 other may stored last
        moved apart =
      let d = fail_row now cooling code f dl in
      let d' : Download = record d { completed_at = finished } in
      let same : d.id ≡ dl.id = fail_row-id now cooling code f dl in
      let moved_too : move_to_history bolt d.id db2 ≡ ok db3 =
        ap (λ (i : Text). move_to_history bolt i db2) same ∙ moved in
      let held = put_own d' db1 db2 dl.id same last in
      let kept = (get-put_download d db db1 other stored).1 in
      let kept_too = (get-put_download d' db1 db2 other last).1 in
      let (gone, put) = get-move_to_history dl.id (row d') db2 db3 dl.id held moved in
      let (left, left_too) = get-move_to_history dl.id (row d') db2 db3 other held moved in
      (
        settle_permanent finished d db db1 db2 db3 (fail_row-may_retry now cooling code f dl ∙ may)
            stored last moved_too,
        ap (decoded bolt) (rw (text_eq_refl dl.id) at gone),
        ap (decoded bolt) (rw (text_eq_refl dl.id) at put),
        ap (decoded bolt) (
            (rw apart at left)
            ∙ put_other d' db1 db2 dl.id other same apart last
            ∙ put_other d db db1 dl.id other same apart stored),
        ap (decoded bolt)
            ((rw apart at left_too) ∙ ap (λ (b : B). bolt.get b other) (kept_too ∙ kept)),
      )
