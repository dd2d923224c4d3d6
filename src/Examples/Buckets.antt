-- ===== src/Examples/Buckets.antt =====
-- Examples of the buckets of first-seen times, series, overrides and probed qualities.
use iplayer_arr.Prelude.{
  ◌<◌, arith, ◌*◌, ◌/◌, ◌≡◌, ◌≢◌, ◌↔◌, refl, false, true, Option, none, some, List, [], ◌∷◌, Text,
  codes, text_cmp, member, to_lower, trim_space, is_empty, ap, inl, inr, In, fields, join_words,
}
use iplayer_arr.Prelude.Int.{pos}
use iplayer_arr.Store.Types.{Time, second}
use iplayer_arr.Store.Bolt.{ok}
use iplayer_arr.Store.Catalogue.{SeriesMapping, ShowOverride, QualityCache}
use iplayer_arr.Store.Names.{show_name_key, show_name_key_keep_article, spell_and, is_dropped}
use iplayer_arr.Store.FirstSeen.{
  Seen, stamp, seen_at, get_or_set_first_seen_batch, get_first_seen_batch,
}
use iplayer_arr.Store.FirstSeen.Stamps.{
  seconds, year_10000, Agree, stamp-get_or_set_first_seen_batch,
}
use iplayer_arr.Store.Series.{ambiguous_series, get_series_mapping_by_name}
use iplayer_arr.Store.Series.ByName.{Meant, by_name_ambiguous_iff}
use iplayer_arr.Store.Overrides.{normalise_show_name, put_override, get_override, delete_override}
use iplayer_arr.Store.Overrides.Spellings.{override_round_trip}
use iplayer_arr.Store.QualityCaches.{
  put_quality_cache, delete_quality_cache_by_show, get_quality_cache,
}
use iplayer_arr.Store.QualityCaches.Purges.{delete_by_show-put}
use iplayer_arr.Examples.Bucket.{Bucket, bucket, empty, key_lt}
use iplayer_arr.Examples.Indexer.{ascii}

-- Times written as their whole seconds.
abbrev parse : Text → Option Time
parse [] = none
parse (n ∷ s) = some (n * second)

abbrev format : Time → Text
format t = (t / second) ∷ []

abbrev pids : List Text
pids = codes "b1" ∷ []

abbrev first_batch :
    (seen : Seen) × (b : Bucket Text) × (get_or_set_first_seen_batch
        (bucket Text)
        parse
        format
        pids
        7
        (empty Text)
      ≡ ok (seen, b))
unfolding get_or_set_first_seen_batch
first_batch = (_, _, refl)

abbrev second_batch :
    (seen : Seen) × (b : Bucket Text) × (get_or_set_first_seen_batch
        (bucket Text)
        parse
        format
        pids
        9
        first_batch.1
      ≡ ok (seen, b))
unfolding get_or_set_first_seen_batch text_cmp
second_batch = (_, _, refl)

listed : member pids (codes "b1") ≡ true
unfolding member text_cmp
listed = refl

rfc : (t : Time) → t < year_10000 → parse (format t) ≡ some (seconds t)
rfc t h = refl

abbrev seen1 : Seen
seen1 = first_batch.0

abbrev b1 : Bucket Text
b1 = first_batch.1

abbrev b2 : Bucket Text
b2 = second_batch.1

stamp-get_or_set_first_seen_batch_example :
    (stamp (bucket Text) parse format b1 (codes "b1") ≡ some (seconds 7))
    × Agree (seen_at (codes "b1") seen1) (stamp (bucket Text) parse format b1 (codes "b1"))
    × (seen_at (codes "b1") (get_first_seen_batch (bucket Text) parse format pids b2)
        ≡ stamp (bucket Text) parse format b1 (codes "b1"))
unfolding member text_cmp stamp
stamp-get_or_set_first_seen_batch_example =
    stamp-get_or_set_first_seen_batch (bucket Text) parse format pids pids pids 7 9 seen1
      second_batch.0 (empty Text) b1 b2 (codes "b1") (codes "b1") rfc (omega arith) (omega arith)
      first_batch.2 second_batch.2 listed listed

abbrev classic : SeriesMapping
classic = record {
  tvdb_id = codes "76107";
  show_name = codes "Doctor Who";
  year = pos 1963;
  updated_at = 1;
}

abbrev revived : SeriesMapping
revived = record classic { tvdb_id = codes "78804"; year = pos 2005 }

keyed_name : is_empty (show_name_key ascii (codes "doctor who")) ≡ false
unfolding show_name_key show_name_key_keep_article spell_and is_dropped fields join_words
keyed_name = refl

abbrev later_id : Text × Option SeriesMapping
later_id = (codes "78804", some revived)

behind_first :
    (a : Text × Option SeriesMapping)
    → In a (later_id ∷ [])
    → key_lt (codes "76107", some classic) a ≡ true
unfolding text_cmp
behind_first a (inl e) =
    ap (λ (p : Text × Option SeriesMapping). key_lt (codes "76107", some classic) p) e
behind_first a (inr i) = absurd i

abbrev mappings : Bucket (Option SeriesMapping)
mappings = record {
  pairs = (codes "76107", some classic) ∷ (codes "78804", some revived) ∷ [];
  sorted = ((λ a i. behind_first a i), ((λ a i. absurd i), tt));
}

by_name_ambiguous_iff_example :
    (get_series_mapping_by_name (bucket (Option SeriesMapping)) ascii (codes "doctor who") mappings
      ≡ ambiguous_series)
    ↔ ((j : Text) × (k : Text) × (m : SeriesMapping) × (n : SeriesMapping) × Meant
          (bucket (Option SeriesMapping))
          ascii
          (codes "doctor who")
          mappings
          j
          m
        × Meant (bucket (Option SeriesMapping)) ascii (codes "doctor who") mappings k n
        × (j ≢ k))
by_name_ambiguous_iff_example =
    by_name_ambiguous_iff (bucket (Option SeriesMapping)) ascii (codes "doctor who") mappings
      keyed_name

abbrev override : ShowOverride
override = record {
  show_name = codes "EastEnders";
  force_date_based = true;
  force_series_num = pos 0;
  force_position = false;
  series_offset = pos 0;
  episode_offset = pos 0;
  custom_name = [];
}

abbrev stored_override :
    (b : Bucket (Option ShowOverride)) × (put_override
        (bucket (Option ShowOverride))
        override
        (empty (Option ShowOverride))
      ≡ ok b)
unfolding put_override
stored_override = (_, refl)

abbrev deleted_override :
    (b : Bucket (Option ShowOverride)) × (delete_override
        (bucket (Option ShowOverride))
        (codes " eastenders")
        stored_override.0
      ≡ ok b)
unfolding delete_override
deleted_override = (_, refl)

one_spelling : normalise_show_name (codes " eastenders") ≡ normalise_show_name override.show_name
unfolding normalise_show_name trim_space to_lower
one_spelling = refl

another_show : normalise_show_name (codes "Casualty") ≢ normalise_show_name override.show_name
unfolding normalise_show_name trim_space to_lower
another_show e = cc e

override_round_trip_example :
    (get_override (bucket (Option ShowOverride)) (codes " eastenders") stored_override.0
      ≡ ok (some override))
    × (get_override (bucket (Option ShowOverride)) (codes "Casualty") stored_override.0
        ≡ get_override
            (bucket (Option ShowOverride))
            (codes "Casualty")
            (empty (Option ShowOverride)))
    × (get_override (bucket (Option ShowOverride)) (codes " eastenders") deleted_override.0
        ≡ ok none)
    × (get_override (bucket (Option ShowOverride)) (codes "Casualty") deleted_override.0
        ≡ get_override
            (bucket (Option ShowOverride))
            (codes "Casualty")
            (empty (Option ShowOverride)))
override_round_trip_example =
    override_round_trip (bucket (Option ShowOverride)) override (empty (Option ShowOverride))
      stored_override.0 deleted_override.0 (codes " eastenders") (codes "Casualty")
      stored_override.1 one_spelling another_show deleted_override.1

abbrev probed : QualityCache
probed = record {
  pid = codes "b1";
  show_name = codes "Blue Planet";
  heights = 1080 ∷ [];
  probed_at = 1;
  propagated = false;
}

abbrev stored_probe :
    (qc : QualityCache) × (b : Bucket (Option QualityCache)) × (put_quality_cache
        (bucket (Option QualityCache))
        probed
        (empty (Option QualityCache))
      ≡ ok (qc, b))
unfolding put_quality_cache
stored_probe = (_, _, refl)

abbrev purged_probe :
    (b : Bucket (Option QualityCache)) × (delete_quality_cache_by_show
        (bucket (Option QualityCache))
        (codes "blue planet")
        stored_probe.1
      ≡ ok b)
unfolding delete_quality_cache_by_show normalise_show_name text_cmp stored_probe to_lower trim_space
purged_probe = (_, refl)

delete_by_show-put_example :
    get_quality_cache (bucket (Option QualityCache)) (codes "b1") purged_probe.0 ≡ ok none
unfolding normalise_show_name text_cmp to_lower trim_space
delete_by_show-put_example =
    delete_by_show-put (bucket (Option QualityCache)) probed stored_probe.0
      (empty (Option QualityCache)) stored_probe.1 purged_probe.0 (codes "blue planet")
      stored_probe.2 purged_probe.1
