-- ===== src/Store/Programmes.antt =====
-- internal/store/programmes.go. PurgeStaleProgrammes ignores what Delete returns, and keeps the keys
-- that ForEach hands out beyond its callback; bbolt's pages do not move before the first deletion.
use iplayer_arr.Prelude.{◌-◌, ltb, Option, none, some, List, [], ◌∷◌, Text}
use iplayer_arr.Store.Types.{Time}
use iplayer_arr.Store.Bolt.{Bolt, Result}
use iplayer_arr.Store.Catalogue.{Programme}
use iplayer_arr.Store.Tables.{put_row, get_row, delete_row, keys_such}

module _ {B : Type 0} (bolt : Bolt B (Option Programme)) where
  unfoldable put_programme : Programme → B → Result B
  unfolding put_row
  put_programme p b = put_row bolt p.pid p b

  unfoldable get_programme : Text → B → Result (Option Programme)
  unfolding get_row
  get_programme pid b = get_row bolt pid b

  unfoldable delete_programme : Text → B → Result B
  unfolding delete_row
  delete_programme pid b = delete_row bolt pid b

  abbrev or_same : B → Option B → B
  or_same b none = b
  or_same b (some b') = b'

  unfoldable delete_each : List Text → B → B
  delete_each [] b = b
  delete_each (k ∷ ks) b = delete_each ks (or_same b (bolt.delete b k))

  unfoldable purge_stale_programmes : Time → Time → B → B
  unfolding delete_each keys_such
  purge_stale_programmes now max_age b =
      delete_each (keys_such (λ (p : Programme). ltb p.cached_at (now - max_age)) (bolt.entries b))
        b
