-- ===== src/Store/Overrides.antt =====
-- internal/store/overrides.go: the per-show overrides, keyed by a normal form of the show's name.
pub mod Spellings
use iplayer_arr.Prelude.{Bool, Option, none, some, List, [], ◌∷◌, Text, to_lower, trim_space}
use iplayer_arr.Store.Bolt.{Bolt, Error, malformed_row, Result}
use iplayer_arr.Store.Catalogue.{ShowOverride}
use iplayer_arr.Store.Tables.{put_row, get_row, delete_row}

unfoldable pub normalise_show_name : Text → Text
normalise_show_name name = to_lower (trim_space name)

-- A ForEach whose callback decodes each row: the rows before the first one that does not decode,
-- and the error that ends the walk there.
unfoldable decoded_rows : {V : Type 0} → List (Text × Option V) → List V × Option Error
decoded_rows [] = ([], none)
decoded_rows ((k, some v) ∷ es) = let (vs, e) = decoded_rows es in (v ∷ vs, e)
decoded_rows ((k, none) ∷ es) = ([], some malformed_row)

module _ {B : Type 0} (bolt : Bolt B (Option ShowOverride)) where
  unfoldable pub put_override : ShowOverride → B → Result B
  unfolding normalise_show_name put_row
  put_override o b = put_row bolt (normalise_show_name o.show_name) o b

  unfoldable pub get_override : Text → B → Result (Option ShowOverride)
  unfolding normalise_show_name get_row
  get_override show_name b = get_row bolt (normalise_show_name show_name) b

  unfoldable pub list_overrides : B → List ShowOverride × Option Error
  unfolding decoded_rows
  list_overrides b = decoded_rows (bolt.entries b)

  unfoldable pub delete_override : Text → B → Result B
  unfolding normalise_show_name delete_row
  delete_override show_name b = delete_row bolt (normalise_show_name show_name) b
