-- ===== src/Store/Catalogue.antt =====
-- internal/store/types.go: the rows of the buckets other than downloads and history. Go's int is ℤ
-- where the program adds signed offsets to it, and ℕ where it only ever holds a count or a height.
use iplayer_arr.Prelude.{ℕ, Bool, List, Text}
use iplayer_arr.Prelude.Int.{ℤ}
use iplayer_arr.Store.Types.{Time}

pub record QualityOption : Type 0 where
  pub tag : Text
  pub height : ℕ
  pub bitrate : ℕ
  pub fps : ℕ
  pub stream_url : Text
  pub supplier : Text
  pub has_subs : Bool
  pub synthetic : Bool

pub record Programme : Type 0 where
  pub pid : Text
  pub vpid : Text
  pub name : Text
  pub episode : Text
  pub series : ℤ
  pub episode_num : ℤ
  pub air_date : Text
  pub channel : Text
  pub duration : ℕ
  pub synopsis : Text
  pub thumbnail : Text
  pub available : Time
  pub expires : Time
  pub qualities : List QualityOption
  pub position : ℤ
  pub identity_tier : Text
  pub is_date_based : Bool
  pub tvdb_numbered : Bool
  pub series_assumed : Bool
  pub episode_assumed : Bool
  pub tvdb_unchecked : Bool
  pub tvdb_contradicted : Bool
  pub cached_at : Time

pub record SeriesMapping : Type 0 where
  pub tvdb_id : Text
  pub show_name : Text
  pub year : ℤ
  pub updated_at : Time

pub record ShowOverride : Type 0 where
  pub show_name : Text
  pub force_date_based : Bool
  pub force_series_num : ℤ
  pub force_position : Bool
  pub series_offset : ℤ
  pub episode_offset : ℤ
  pub custom_name : Text

pub record QualityCache : Type 0 where
  pub pid : Text
  pub show_name : Text
  pub heights : List ℕ
  pub probed_at : Time
  pub propagated : Bool
