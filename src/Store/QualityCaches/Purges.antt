-- ===== src/Store/QualityCaches/Purges.antt =====
-- The rows that the two purges of the quality cache remove.
use iplayer_arr.Prelude.{
  ◌≡◌, refl, ap, ◌∙◌, subst, inl, inr, ℕ, Option, none, some, Text, text_eq, text_eq_refl,
  Bool-cases, length, if◌then◌else◌,
}
use iplayer_arr.Store.Bolt.{Bolt, ok, >>=-eq-ok}
use iplayer_arr.Store.Catalogue.{QualityCache}
use iplayer_arr.Store.Tables.{spared, purge, delete_keys, keys_such, put_row, get_row, opened}
use iplayer_arr.Store.Tables.Purge.{get-purge, get-put_row}
use iplayer_arr.Store.Overrides.{normalise_show_name}
use iplayer_arr.Store.QualityCaches.{
  has_height, of_show, put_quality_cache, purge_quality_cache_with_height,
  delete_quality_cache_by_show, get_quality_cache,
}

opened-spared :
    (row normal : QualityCache) (target : Text)
    → row ≡ normal
    → opened (spared (of_show target) (some (some row)))
      ≡ ok (if text_eq row.show_name target then none else some normal)
unfolding spared
opened-spared row normal target e = elim (Bool-cases (text_eq row.show_name target)) [
  | inl yes_same ↦ rw yes_same refl
  | inr not_same ↦ rw (not_same, e) refl
]

module _ {B : Type 0} (bolt : Bolt B (Option QualityCache)) where
  -- A purge by height that succeeds removes exactly the rows that decode and list the height; every
  -- other cell, malformed ones included, stays as it was.
  get-purge_quality_cache_with_height :
      (h n : ℕ) (b b' : B) (pid : Text)
      → purge_quality_cache_with_height bolt h b ≡ ok (n, b')
      → bolt.get b' pid ≡ spared (λ (qc : QualityCache). has_height h qc.heights) (bolt.get b pid)
  unfolding purge_quality_cache_with_height purge
  get-purge_quality_cache_with_height h n b b' pid e =
      let doomed = keys_such (λ (qc : QualityCache). has_height h qc.heights) (bolt.entries b) in
      let (c, deleted, f) = >>=-eq-ok (delete_keys bolt doomed b) (λ c. ok (length doomed, c)) e in
      let same : c ≡ b' = cc in
      get-purge bolt (λ (qc : QualityCache). has_height h qc.heights) b b' pid
        (subst (λ (x : B). delete_keys bolt doomed b ≡ ok x) same deleted)

  -- A row that PutQualityCache stored under any spelling of a show's name is gone after a deletion
  -- by show under any spelling with the same normal form, and is still there, with its heights and
  -- with the normal form as its name, after one whose normal form differs.
  pub delete_by_show-put :
      (qc normal : QualityCache) (b b1 b2 : B) (show_name : Text)
      → put_quality_cache bolt qc b ≡ ok (normal, b1)
      → delete_quality_cache_by_show bolt show_name b1 ≡ ok b2
      → get_quality_cache bolt qc.pid b2
        ≡ ok (
            if text_eq (normalise_show_name qc.show_name) (normalise_show_name show_name)
            then none
            else some normal)
  unfolding put_quality_cache delete_quality_cache_by_show get_quality_cache get_row spared
  delete_by_show-put qc normal b b1 b2 show_name stored deleted =
      let row : QualityCache = record qc { show_name = normalise_show_name qc.show_name } in
      let target = normalise_show_name show_name in
      let (c, put, f) = >>=-eq-ok (put_row bolt qc.pid row b) (λ c. ok (row, c)) stored in
      let same : c ≡ b1 = cc in
      let is_row : row ≡ normal = cc in
      let at_pid : bolt.get b1 qc.pid ≡ some (some row) =
        get-put_row bolt qc.pid qc.pid row b b1
          (subst (λ (x : B). put_row bolt qc.pid row b ≡ ok x) same put)
        ∙ rw (text_eq_refl qc.pid) refl in
      let left : bolt.get b2 qc.pid ≡ spared (of_show target) (some (some row)) =
        get-purge bolt (of_show target) b1 b2 qc.pid deleted
        ∙ ap (spared (of_show target)) at_pid in
      ap opened left ∙ opened-spared row normal target is_row
