-- ===== src/Store/FirstSeen/Stamps.antt =====
-- Between purges a first-seen stamp is given once, and both ways to read it agree.
use iplayer_arr.Prelude.{
  ◌≡◌, ◌<◌, refl, sym, ap, ◌∙◌, subst, Bool-cases, ◌⊎◌, inl, inr, ◌*◌, ◌/◌, Bool, true, false,
  Option, none, some, List, [], ◌∷◌, Text, text_eq, text_eq_iff, text_eq_refl, member,
  if◌then◌else◌, arith,
}
use iplayer_arr.Store.Types.{Time, second}
use iplayer_arr.Store.Bolt.{Bolt, ok, attempt, attempt-eq-ok, >>=-eq-ok, ok-injective}
use iplayer_arr.Store.FirstSeen.{
  Seen, seen_at, parsed, stamp, stamp_one, stamp_all, get_or_set_first_seen_batch, note_stamp,
  read_all, get_first_seen_batch,
}

-- The whole seconds of a time, which are what RFC 3339 writes.
abbrev pub seconds : Time → Time
seconds t = t / second * second

-- The time of the year 10000, which RFC 3339 does not write: 3652059 days behind the year 1.
abbrev pub year_10000 : Time
year_10000 = 3_652_059 * 86_400 * second

abbrev or_now : Time → Option Time → Option Time
or_now now none = some (seconds now)
or_now now (some t) = some t

-- What the caller is told of a PID is its stamp, up to the fraction of a second.
abbrev pub Agree : Option Time → Option Time → Type 0
Agree told held =
    (t : Time) × (u : Time) × (told ≡ some t) × (held ≡ some u) × (seconds t ≡ seconds u)

abbrev or_else : Option Time → Option Time → Option Time
or_else none other = other
or_else (some t) other = some t

or_else-twice :
    (again : Bool) (o other : Option Time)
    → (if again then or_else o (or_else o other) else or_else o other) ≡ or_else o other
or_else-twice true none other = refl
or_else-twice true (some t) other = refl
or_else-twice false o other = refl

or_now-twice :
    (now : Time) (again : Bool) (o : Option Time)
    → (if again then or_now now (or_now now o) else or_now now o) ≡ or_now now o
or_now-twice now true none = refl
or_now-twice now true (some t) = refl
or_now-twice now false o = refl

kept-or_now :
    (now : Time) (again : Bool) (u : Time)
    → (if again then or_now now (some u) else some u) ≡ some u
kept-or_now now true u = refl
kept-or_now now false u = refl

seconds_idem : (t : Time) → seconds (seconds t) ≡ seconds t
seconds_idem t = omega arith

module _ {B : Type 0} (bolt : Bolt B Text) (parse : Text → Option Time) (format : Time → Text) where
  -- A turn of the loop gives the PID a stamp if it has none, and changes no other.
  stamp-stamp_one :
      (now : Time) (pid j : Text) (seen seen' : Seen) (b b' : B) (o : Option Time)
      → parse (format now) ≡ some (seconds now)
      → stamp bolt parse format b pid ≡ o
      → stamp_one bolt parse format o pid now seen b ≡ ok (seen', b')
      → stamp bolt parse format b' j ≡ (
          if text_eq pid j
          then or_now now (stamp bolt parse format b j)
          else stamp bolt parse format b j)
  unfolding stamp
  stamp-stamp_one now pid j seen seen' b b' none rfc was h =
      let (c, e, f) =
        >>=-eq-ok (attempt (bolt.put b pid (format now))) (λ c. ok ((pid, now) ∷ seen, c)) h in
      let same : c ≡ b' = cc in
      let put =
        bolt.get-put b pid (format now) c j (attempt-eq-ok (bolt.put b pid (format now)) e) in
      let moved : parsed bolt parse format (bolt.get b' j)
          ≡ parsed bolt parse format (bolt.get c j) =
        ap (λ (x : B). parsed bolt parse format (bolt.get x j)) (sym same) in
      elim (Bool-cases (text_eq pid j)) [
        | inl yes_same ↦
            let raw : bolt.get c j ≡ some (format now) = put ∙ rw yes_same refl in
            let read : stamp bolt parse format c j ≡ some (seconds now) =
              ap (parsed bolt parse format) raw ∙ rfc in
            let none_yet : stamp bolt parse format b j ≡ none =
              ap (stamp bolt parse format b) (sym ((text_eq_iff pid j).0 yes_same)) ∙ was in
            rw (yes_same, none_yet) (moved ∙ read)
        | inr not_same ↦
            let raw : bolt.get c j ≡ bolt.get b j = put ∙ rw not_same refl in
            rw not_same (moved ∙ ap (parsed bolt parse format) raw)
      ]
  stamp-stamp_one now pid j seen seen' b b' (some t) rfc was h =
      let same : stamp bolt parse format b' j ≡ stamp bolt parse format b j =
        let b_same : b' ≡ b = cc in ap (λ (x : B). stamp bolt parse format x j) b_same in
      elim (Bool-cases (text_eq pid j)) [
        | inl yes_same ↦
            let held : stamp bolt parse format b j ≡ some t =
              ap (stamp bolt parse format b) (sym ((text_eq_iff pid j).0 yes_same)) ∙ was in
            rw (yes_same, held) (same ∙ held)
        | inr not_same ↦ rw not_same same
      ]

  told-stamp_one :
      (now : Time) (pid : Text) (seen seen' : Seen) (b b' : B) (o : Option Time)
      → parse (format now) ≡ some (seconds now)
      → stamp bolt parse format b pid ≡ o
      → stamp_one bolt parse format o pid now seen b ≡ ok (seen', b')
      → (t : Time) × (seen' ≡ (pid, t) ∷ seen) × Agree (some t) (stamp bolt parse format b' pid)
  told-stamp_one now pid seen seen' b b' none rfc was h =
      let (c, e, f) =
        >>=-eq-ok (attempt (bolt.put b pid (format now))) (λ c. ok ((pid, now) ∷ seen, c)) h in
      let after : stamp bolt parse format b' pid ≡ some (seconds now) =
        stamp-stamp_one now pid pid seen seen' b b' none rfc was h
        ∙ rw (text_eq_refl pid, was) refl in
      (now, cc, (now, seconds now, refl, after, sym (seconds_idem now)))
  told-stamp_one now pid seen seen' b b' (some t) rfc was h =
      let after : stamp bolt parse format b' pid ≡ some t =
        stamp-stamp_one now pid pid seen seen' b b' (some t) rfc was h
        ∙ rw (text_eq_refl pid, was) refl in
      (t, cc, (t, t, refl, after, refl))

  stamp-stamp_all :
      (pids : List Text) (now : Time) (j : Text) (seen seen' : Seen) (b b' : B)
      → parse (format now) ≡ some (seconds now)
      → stamp_all bolt parse format pids now seen b ≡ ok (seen', b')
      → stamp bolt parse format b' j ≡ (
          if member pids j
          then or_now now (stamp bolt parse format b j)
          else stamp bolt parse format b j)
  unfolding stamp_all member
  stamp-stamp_all [] now j seen seen' b b' rfc h =
      ap (λ (x : Seen × B). stamp bolt parse format x.1 j) (sym (ok-injective h))
  stamp-stamp_all (pid ∷ pids) now j seen seen' b b' rfc h =
      let ((seen1, b1), e, f) =
        >>=-eq-ok (stamp_one bolt parse format (stamp bolt parse format b pid) pid now seen b)
          (λ r. stamp_all bolt parse format pids now r.0 r.1) h in
      let one =
        stamp-stamp_one now pid j seen seen1 b b1 (stamp bolt parse format b pid) rfc refl e in
      let rest = stamp-stamp_all pids now j seen1 seen' b1 b' rfc f in
      elim (Bool-cases (text_eq pid j)) [
        | inl yes_same ↦
            let first : stamp bolt parse format b1 j ≡ or_now now (stamp bolt parse format b j) =
              one ∙ rw yes_same refl in
            rw yes_same
              (rest ∙ rw first (or_now-twice now (member pids j) (stamp bolt parse format b j)))
        | inr not_same ↦
            let first : stamp bolt parse format b1 j ≡ stamp bolt parse format b j =
              one ∙ rw not_same refl in
            rw not_same (rest ∙ rw first refl)
      ]

  -- Once a PID's stamp agrees with what was noted, later turns leave both in agreement.
  told-stamp_all :
      (pids : List Text) (now : Time) (j : Text) (seen seen' : Seen) (b b' : B)
      → parse (format now) ≡ some (seconds now)
      → stamp_all bolt parse format pids now seen b ≡ ok (seen', b')
      → (member pids j ≡ true) ⊎ Agree (seen_at j seen) (stamp bolt parse format b j)
      → Agree (seen_at j seen') (stamp bolt parse format b' j)
  unfolding stamp_all member seen_at
  told-stamp_all [] now j seen seen' b b' rfc h (inl m) = absurd (cc m)
  told-stamp_all [] now j seen seen' b b' rfc h (inr a) =
      subst (λ (x : Seen × B). Agree (seen_at j x.0) (stamp bolt parse format x.1 j))
        (ok-injective h) a
  told-stamp_all (pid ∷ pids) now j seen seen' b b' rfc h before =
      let ((seen1, b1), e, f) =
        >>=-eq-ok (stamp_one bolt parse format (stamp bolt parse format b pid) pid now seen b)
          (λ r. stamp_all bolt parse format pids now r.0 r.1) h in
      let one =
        stamp-stamp_one now pid j seen seen1 b b1 (stamp bolt parse format b pid) rfc refl e in
      let (t, noted, agreed) =
        told-stamp_one now pid seen seen1 b b1 (stamp bolt parse format b pid) rfc refl e in
      let told : seen_at j seen1 ≡ (if text_eq pid j then some t else seen_at j seen) =
        ap (seen_at j) noted in
      told-stamp_all pids now j seen1 seen' b1 b' rfc f (elim (Bool-cases (text_eq pid j)) [
        | inl yes_same ↦
            let key = (text_eq_iff pid j).0 yes_same in
            let here : seen_at j seen1 ≡ some t = told ∙ rw yes_same refl in
            let moved : Agree (some t) (stamp bolt parse format b1 j) =
              subst (λ (k : Text). Agree (some t) (stamp bolt parse format b1 k)) key agreed in
            inr
              (subst (λ (o : Option Time). Agree o (stamp bolt parse format b1 j)) (sym here) moved)
        | inr not_same ↦
            let here : seen_at j seen1 ≡ seen_at j seen = told ∙ rw not_same refl in
            let held : stamp bolt parse format b1 j ≡ stamp bolt parse format b j =
              one ∙ rw not_same refl in
            elim before [
              | inl m ↦ inl (rw not_same at m)
              | inr a ↦
                  let moved : Agree (seen_at j seen) (stamp bolt parse format b1 j) =
                    subst (Agree (seen_at j seen)) (sym held) a in
                  inr (
                    subst (λ (o : Option Time). Agree o (stamp bolt parse format b1 j)) (sym here)
                      moved)
            ]
      ])

  seen_at-note_stamp :
      (o : Option Time) (pid j : Text) (seen : Seen)
      → seen_at j (note_stamp bolt parse format o pid seen)
        ≡ (if text_eq pid j then or_else o (seen_at j seen) else seen_at j seen)
  unfolding seen_at
  seen_at-note_stamp none pid j seen = ground arith
  seen_at-note_stamp (some t) pid j seen = ground arith

  seen_at-read_all :
      (pids : List Text) (j : Text) (seen : Seen) (b : B)
      → seen_at j (read_all bolt parse format pids seen b) ≡ (
          if member pids j
          then or_else (stamp bolt parse format b j) (seen_at j seen)
          else seen_at j seen)
  unfolding read_all member
  seen_at-read_all [] j seen b = refl
  seen_at-read_all (pid ∷ pids) j seen b =
      let held = stamp bolt parse format b pid in
      let rest = seen_at-read_all pids j (note_stamp bolt parse format held pid seen) b in
      let noted = seen_at-note_stamp held pid j seen in
      elim (Bool-cases (text_eq pid j)) [
        | inl yes_same ↦
            let key : stamp bolt parse format b j ≡ held =
              ap (stamp bolt parse format b) (sym ((text_eq_iff pid j).0 yes_same)) in
            let here : seen_at j (note_stamp bolt parse format held pid seen)
                ≡ or_else held (seen_at j seen) =
              noted ∙ rw yes_same refl in
            rw (yes_same, key)
              (rest ∙ rw (key, here) (or_else-twice (member pids j) held (seen_at j seen)))
        | inr not_same ↦
            let here : seen_at j (note_stamp bolt parse format held pid seen) ≡ seen_at j seen =
              noted ∙ rw not_same refl in
            rw not_same (rest ∙ rw here refl)
      ]

  -- A batch stamps each PID once, and a later batch, with no purge between them, leaves the stamps. After
  -- a batch that succeeds at `now`, a PID whose cell held a stamp still has it, any other PID of the
  -- batch has the whole seconds of `now`, and a PID outside the batch has what it had; of each PID of
  -- the batch the caller is told its stamp, up to the fraction of a second that RFC 3339 does not
  -- write; and a read of the bucket that the next batch leaves gives a PID of the first batch that
  -- same stamp. The hypothesis on the parameters is that what Format writes for a time before the
  -- year 10000 parses as the time without its fraction of a second; the batches run before then.
  pub stamp-get_or_set_first_seen_batch :
      (pids later asked : List Text) (now now' : Time) (seen seen' : Seen) (b b1 b2 : B)
      (j k : Text)
      → ((t : Time) → t < year_10000 → parse (format t) ≡ some (seconds t))
      → now < year_10000
      → now' < year_10000
      → get_or_set_first_seen_batch bolt parse format pids now b ≡ ok (seen, b1)
      → get_or_set_first_seen_batch bolt parse format later now' b1 ≡ ok (seen', b2)
      → member pids j ≡ true
      → member asked j ≡ true
      → (stamp bolt parse format b1 k ≡ (
          if member pids k
          then or_now now (stamp bolt parse format b k)
          else stamp bolt parse format b k))
        × Agree (seen_at j seen) (stamp bolt parse format b1 j)
        × (seen_at j (get_first_seen_batch bolt parse format asked b2)
            ≡ stamp bolt parse format b1 j)
  unfolding get_or_set_first_seen_batch get_first_seen_batch seen_at
  stamp-get_or_set_first_seen_batch pids later asked now now' seen seen' b b1 b2 j k rfc soon soon'
        h h' m a =
      let told = told-stamp_all pids now j [] seen b b1 (rfc now soon) h (inl m) in
      let (t, u, noted, held, e) = told in
      let later_on : stamp bolt parse format b2 j ≡ some u =
        stamp-stamp_all later now' j [] seen' b1 b2 (rfc now' soon') h'
        ∙ rw held (kept-or_now now' (member later j) u) in
      let read : seen_at j (read_all bolt parse format asked [] b2) ≡ some u =
        seen_at-read_all asked j [] b2 ∙ rw (a, later_on) refl in
      (stamp-stamp_all pids now k [] seen b b1 (rfc now soon) h, told, read ∙ sym held)
