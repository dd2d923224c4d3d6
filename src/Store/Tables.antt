-- ===== src/Store/Tables.antt =====
-- The transactions that internal/store runs over a bucket of JSON rows: a cell is `some v` where
-- json.Unmarshal gives `v`, and `none` where it fails. As for every Update, an error rolls the
-- bucket back.
pub mod Purge
pub mod Scan
use iplayer_arr.Prelude.{Bool, Option, none, some, List, [], ◌∷◌, Text, if◌then◌else◌}
use iplayer_arr.Store.Bolt.{Bolt, malformed_row, Result, ok, err, ◌>>=◌, attempt}

abbrev pub opened : {V : Type 0} → Option (Option V) → Result (Option V)
opened none = ok none
opened (some none) = err malformed_row
opened (some (some v)) = ok (some v)

-- A ForEach that collects the keys of the rows that pass, and skips what does not decode.
unfoldable pub keys_such : {V : Type 0} → (V → Bool) → List (Text × Option V) → List Text
keys_such p [] = []
keys_such p ((k, none) ∷ es) = keys_such p es
keys_such p ((k, some v) ∷ es) = let rest = keys_such p es in if p v then k ∷ rest else rest

-- A ForEach that collects the rows that pass, and skips what does not decode.
unfoldable pub rows_such : {V : Type 0} → (V → Bool) → List (Text × Option V) → List V
rows_such p [] = []
rows_such p ((k, none) ∷ es) = rows_such p es
rows_such p ((k, some v) ∷ es) = let rest = rows_such p es in if p v then v ∷ rest else rest

module _ {B V : Type 0} (bolt : Bolt B (Option V)) where
  unfoldable pub put_row : Text → V → B → Result B
  put_row k v b = attempt (bolt.put b k (some v))

  -- A missing key is no error.
  unfoldable pub get_row : Text → B → Result (Option V)
  get_row k b = opened (bolt.get b k)

  unfoldable pub delete_row : Text → B → Result B
  delete_row k b = attempt (bolt.delete b k)

  -- A loop over collected keys that ends at the first error.
  unfoldable pub delete_keys : List Text → B → Result B
  delete_keys [] b = ok b
  delete_keys (k ∷ ks) b = do b' ← attempt (bolt.delete b k); delete_keys ks b'

  unfoldable pub purge : (V → Bool) → B → Result B
  unfolding keys_such delete_keys
  purge p b = delete_keys (keys_such p (bolt.entries b)) b

-- What a purge leaves of a cell.
unfoldable pub spared : {V : Type 0} → (V → Bool) → Option (Option V) → Option (Option V)
spared p none = none
spared p (some none) = some none
spared p (some (some v)) = if p v then none else some (some v)
