-- ===== src/Store/QualityCaches.antt =====
-- internal/store/quality_cache.go: the heights that the BBC offers for each PID. A slice of heights
-- that the caller shares with the row is a value here; PutQualityCache's change of its argument's
-- show name is part of its result.
pub mod Purges
use iplayer_arr.Prelude.{
  ℕ, ◌+◌, ◌==◌, Bool, true, false, ◌||◌, Option, none, some, List, [], ◌∷◌, Text, text_eq, length,
  if◌then◌else◌,
}
use iplayer_arr.Store.Bolt.{Bolt, Result, ok, ◌>>=◌}
use iplayer_arr.Store.Catalogue.{QualityCache}
use iplayer_arr.Store.Tables.{get_row, put_row, delete_row, keys_such, delete_keys, purge}
use iplayer_arr.Store.Overrides.{normalise_show_name}

-- The inner loop, which breaks at the first equal height.
unfoldable pub has_height : ℕ → List ℕ → Bool
has_height h [] = false
has_height h (got ∷ heights) = (got == h) || has_height h heights

abbrev pub of_show : Text → QualityCache → Bool
of_show target qc = text_eq qc.show_name target

module _ {B : Type 0} (bolt : Bolt B (Option QualityCache)) where
  unfoldable pub get_quality_cache : Text → B → Result (Option QualityCache)
  unfolding get_row
  get_quality_cache pid b = get_row bolt pid b

  unfoldable pub put_quality_cache : QualityCache → B → Result (QualityCache × B)
  unfolding put_row normalise_show_name
  put_quality_cache qc b =
      let normal = record qc { show_name = normalise_show_name qc.show_name } in
      (put_row bolt qc.pid normal b >>= λ b'. ok (normal, b'))

  unfoldable pub purge_quality_cache_with_height : ℕ → B → Result (ℕ × B)
  unfolding purge keys_such has_height
  purge_quality_cache_with_height h b =
      let doomed = keys_such (λ (qc : QualityCache). has_height h qc.heights) (bolt.entries b) in
      (delete_keys bolt doomed b >>= λ b'. ok (length doomed, b'))

  unfoldable delete_quality_cache : Text → B → Result B
  unfolding delete_row
  delete_quality_cache pid b = delete_row bolt pid b

  unfoldable pub delete_quality_cache_by_show : Text → B → Result B
  unfolding purge normalise_show_name
  delete_quality_cache_by_show show_name b = purge bolt (of_show (normalise_show_name show_name)) b
