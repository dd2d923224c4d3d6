-- ===== src/Store/Settings.antt =====
-- internal/store/config.go, and the defaults that Open in internal/store/store.go seeds.
pub mod Seeded
use iplayer_arr.Prelude.{Option, none, some, List, [], ◌∷◌, Text, codes}
use iplayer_arr.Store.Bolt.{Bolt, Result, ok, ◌>>=◌, attempt}

module _ {B : Type 0} (bolt : Bolt B Text) where
  -- A missing key reads as the empty string.
  abbrev pub or_empty : Option Text → Text
  or_empty none = []
  or_empty (some value) = value

  unfoldable pub get_config : Text → B → Text
  get_config key b = or_empty (bolt.get b key)

  unfoldable pub set_config : Text → Text → B → Result B
  set_config key value b = attempt (bolt.put b key value)

  abbrev defaults : List (Text × Text)
  defaults = (codes "auto_cleanup", codes "true") ∷ []

  abbrev seed_absent : Text → Text → Option Text → B → Result B
  seed_absent k v none b = attempt (bolt.put b k v)
  seed_absent k v (some set) b = ok b

  -- `for k, v := range defaults`, where only an absent key is written
  unfoldable pub seed : List (Text × Text) → B → Result B
  seed [] b = ok b
  seed ((k, v) ∷ rest) b = seed_absent k v (bolt.get b k) b >>= λ b'. seed rest b'

  -- Open's transaction on the configuration bucket
  unfoldable pub seed_defaults : B → Result B
  unfolding seed
  seed_defaults b = seed defaults b
