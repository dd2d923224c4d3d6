-- ===== src/Store/Series/ByName.antt =====
-- When a query by name has one answer, and when it has none because the name is ambiguous.
use iplayer_arr.Prelude.{
  ◌≡◌, ◌≢◌, refl, sym, ◌∙◌, subst, ◌↔◌, Bool, true, false, Option, some, List, [], ◌∷◌, Text,
  is_empty,
}
use iplayer_arr.Store.Bolt.{Bolt}
use iplayer_arr.Store.Catalogue.{SeriesMapping}
use iplayer_arr.Store.Names.{Unicode, show_name_key}
use iplayer_arr.Store.Tables.{rows_such}
use iplayer_arr.Store.Tables.Scan.{Hit, no_rows, found_row, found_one, found_several}
use iplayer_arr.Store.Series.{
  series_name_is, one_series, ambiguous_series, of_found, get_series_mapping_by_name,
}

of_found-one :
    (found : List SeriesMapping) (m : SeriesMapping)
    → of_found found ≡ one_series m
    → found ≡ m ∷ []
of_found-one [] m h = cc
of_found-one (v ∷ []) m h = cc
of_found-one (v ∷ w ∷ found) m h = cc

some_injective : {A : Type 0} {x y : A} → some x ≡ some y → x ≡ y
some_injective e = cc

module _ {B : Type 0} (bolt : Bolt B (Option SeriesMapping)) (u : Unicode) (name : Text) where
  abbrev named : SeriesMapping → Bool
  named m = series_name_is u m.show_name name (show_name_key u name)

  -- A stored mapping that a query by the name means, under its key.
  abbrev pub Meant : B → Text → SeriesMapping → Type 0
  Meant b k m = (bolt.get b k ≡ some (some m)) × (named m ≡ true)

  Meant-Hit : (b : B) (k : Text) (m : SeriesMapping) → Meant b k m → Hit named (bolt.entries b) k m
  Meant-Hit b k m (h, t) = ((bolt.entries-get b k (some m)).1 h, t)

  Hit-Meant : (b : B) (k : Text) (m : SeriesMapping) → Hit named (bolt.entries b) k m → Meant b k m
  Hit-Meant b k m (i, t) = ((bolt.entries-get b k (some m)).0 i, t)

  answer :
      (b : B)
      → is_empty (show_name_key u name) ≡ false
      → get_series_mapping_by_name bolt u name b ≡ of_found (rows_such named (bolt.entries b))
  unfolding get_series_mapping_by_name
  answer b e = rw e refl

  several :
      (found : List SeriesMapping) (b : B)
      → rows_such named (bolt.entries b) ≡ found
      → of_found found ≡ ambiguous_series
      → (j : Text) × (k : Text) × (m : SeriesMapping) × (n : SeriesMapping) × Meant b j m
        × Meant b k n
        × (j ≢ k)
  several (m ∷ n ∷ found) b rows h =
      let (j, k, hit, other, apart) =
        found_several named (bolt.entries b) m n found (bolt.entries-IsSorted b) rows in
      (j, k, m, n, Hit-Meant b j m hit, Hit-Meant b k n other, apart)
  several (m ∷ []) b rows h = absurd (cc h)
  several [] b rows h = absurd (cc h)

  of_found-two :
      (found : List SeriesMapping) (b : B) (j k : Text) (m n : SeriesMapping)
      → rows_such named (bolt.entries b) ≡ found
      → Meant b j m
      → Meant b k n
      → j ≢ k
      → of_found found ≡ ambiguous_series
  of_found-two [] b j k m n rows at_j at_k apart =
      absurd (no_rows named (bolt.entries b) j m rows (Meant-Hit b j m at_j))
  of_found-two (v ∷ []) b j k m n rows at_j at_k apart = absurd (
      apart (
        sym (
          found_one named (bolt.entries b) v m n j k rows (Meant-Hit b j m at_j)
            (Meant-Hit b k n at_k))))
  of_found-two (v ∷ w ∷ found) b j k m n rows at_j at_k apart = refl

  -- A query whose key is not empty is answered with ErrAmbiguousSeriesName exactly where mappings
  -- under two different ids are meant by the name, however the bucket orders them.
  pub by_name_ambiguous_iff :
      (b : B)
      → is_empty (show_name_key u name) ≡ false
      → (get_series_mapping_by_name bolt u name b ≡ ambiguous_series) ↔ (
          (j : Text) × (k : Text) × (m : SeriesMapping) × (n : SeriesMapping) × Meant b j m
          × Meant b k n
          × (j ≢ k))
  by_name_ambiguous_iff b e = (
    λ h. several (rows_such named (bolt.entries b)) b refl (sym (answer b e) ∙ h),
    λ t.
        let (j, k, m, n, at_j, at_k, apart) = t in
        answer b e ∙ of_found-two (rows_such named (bolt.entries b)) b j k m n refl at_j at_k apart,
  )

  -- A query whose key is not empty and that is answered with a mapping: the mapping is stored under
  -- some id and is meant by the name, and every mapping that is meant lies under that id.
  by_name_one :
      (b : B) (m n : SeriesMapping) (k : Text)
      → is_empty (show_name_key u name) ≡ false
      → get_series_mapping_by_name bolt u name b ≡ one_series m
      → Meant b k n
      → Meant b k m × (n ≡ m)
  by_name_one b m n k e h meant =
      let alone = of_found-one (rows_such named (bolt.entries b)) m (sym (answer b e) ∙ h) in
      let (j, hit) = found_row named (bolt.entries b) m [] alone in
      let key = found_one named (bolt.entries b) m m n j k alone hit (Meant-Hit b k n meant) in
      let held : Meant b k m =
        Hit-Meant b k m (subst (λ (i : Text). Hit named (bolt.entries b) i m) (sym key) hit) in
      (held, some_injective (some_injective (sym (meant.0) ∙ held.0)))
