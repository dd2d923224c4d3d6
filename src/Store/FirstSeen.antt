-- ===== src/Store/FirstSeen.antt =====
-- internal/store/first_seen.go: when each PID first appeared in the feed. The bucket holds texts;
-- `parse` and `format` are time.Parse and Time.Format at RFC 3339, of which a client states what it
-- relies on. A map that a loop fills is the list of its assignments, the newest first.
pub mod Stamps
use iplayer_arr.Prelude.{
  ◌+◌, ◌-◌, ℕ, ltb, Bool, Option, none, some, List, [], ◌∷◌, Text, text_eq, if◌then◌else◌,
}
use iplayer_arr.Store.Types.{Time}
use iplayer_arr.Store.Bolt.{Bolt, Result, ok, err, ◌>>=◌, attempt}

abbrev pub Seen : Type 0
Seen = List (Text × Time)

-- m[pid], and whether it is set
unfoldable pub seen_at : Text → Seen → Option Time
seen_at pid [] = none
seen_at pid ((q, t) ∷ seen) = let rest = seen_at pid seen in if text_eq q pid then some t else rest

module _ {B : Type 0} (bolt : Bolt B Text) (parse : Text → Option Time) (format : Time → Text) where
  abbrev pub parsed : Option Text → Option Time
  parsed none = none
  parsed (some raw) = parse raw

  -- The stamp that the bucket has for a PID; a malformed value is no stamp.
  unfoldable pub stamp : B → Text → Option Time
  stamp b pid = parsed (bolt.get b pid)

  -- One turn of the loop of GetOrSetFirstSeenBatch.
  abbrev pub stamp_one : Option Time → Text → Time → Seen → B → Result (Seen × B)
  stamp_one (some ts) pid now seen b = ok ((pid, ts) ∷ seen, b)
  stamp_one none pid now seen b = do
    b' ← attempt (bolt.put b pid (format now))
    ok ((pid, now) ∷ seen, b')

  unfoldable pub stamp_all : List Text → Time → Seen → B → Result (Seen × B)
  unfolding stamp
  stamp_all [] now seen b = ok (seen, b)
  stamp_all (pid ∷ pids) now seen b =
      stamp_one (stamp b pid) pid now seen b >>= λ r. stamp_all pids now r.0 r.1

  unfoldable pub get_or_set_first_seen_batch : List Text → Time → B → Result (Seen × B)
  unfolding stamp_all
  get_or_set_first_seen_batch pids now b = stamp_all pids now [] b

  abbrev pub note_stamp : Option Time → Text → Seen → Seen
  note_stamp none pid seen = seen
  note_stamp (some ts) pid seen = (pid, ts) ∷ seen

  unfoldable pub read_all : List Text → Seen → B → Seen
  unfolding stamp
  read_all [] seen b = seen
  read_all (pid ∷ pids) seen b = read_all pids (note_stamp (stamp b pid) pid seen) b

  unfoldable pub get_first_seen_batch : List Text → B → Seen
  unfolding read_all
  get_first_seen_batch pids b = read_all pids [] b
