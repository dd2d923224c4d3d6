-- ===== src/Api/Settings.antt =====
-- internal/api/config.go and overrides.go. A JSON body is what its decoding gives, `none` where that
-- fails; url.QueryUnescape is a parameter.
use iplayer_arr.Prelude.{
  Bool, false, ◌&&◌, not, Option, none, some, [], ◌∷◌, Text, codes, text_eq, is_empty, has_prefix,
  member, drop, length, if◌then◌else◌,
}
use iplayer_arr.Prelude.Int.{ℤ, atoi, at_least}
use iplayer_arr.Store.Bolt.{Bolt, Result, ok, err}
use iplayer_arr.Store.Catalogue.{ShowOverride}
use iplayer_arr.Store.Overrides.{put_override, delete_override}
use iplayer_arr.Store.Settings.{get_config, set_config}

-- The status codes that the handlers answer with.
pub data Code : Type 0 where
  status_ok bad_request missing conflict server_error : Code

abbrev default_for : Text → Text
default_for key =
    if text_eq key (codes "quality")
    then codes "any"
    else if text_eq key (codes "max_workers")
    then codes "4"
    else if text_eq key (codes "download_dir")
    then codes "/downloads"
    else if text_eq key (codes "auto_cleanup")
    then codes "false"
    else if text_eq key (codes "watchdog_timeout_seconds")
    then codes "60"
    else []

abbrev pub or_given : Text → Text → Text
or_given given other = if is_empty given then other else given

module _ {C : Type 0} (settings : Bolt C Text) (download_dir : Text) where
  -- Handler.ResolveDownloadDir
  unfoldable api_download_dir : C → Text
  unfolding get_config
  api_download_dir config = or_given download_dir (
      or_given (get_config settings (codes "download_dir") config)
        (default_for (codes "download_dir")))

  -- One entry of the answer of GET /api/config.
  unfoldable shown_config : C → Text → Text
  unfolding get_config api_download_dir
  shown_config config key =
      if text_eq key (codes "download_dir")
      then api_download_dir config
      else or_given (get_config settings key config) (default_for key)

  abbrev is_workers : Option ℤ → Bool
  is_workers none = false
  is_workers (some n) = at_least n 1

  abbrev saved : C → Result C → C × Code
  saved config (ok config') = (config', status_ok)
  saved config (err e) = (config, server_error)

  -- The body is a key and a value.
  unfoldable handle_put_config : Option (Text × Text) → C → C × Code
  unfolding set_config member atoi
  handle_put_config none config = (config, bad_request)
  handle_put_config (some (key, value)) config =
      if is_empty key
      then (config, bad_request)
      else if member (codes "api_key" ∷ codes "download_dir" ∷ []) key
      then (config, bad_request)
      else if text_eq key (codes "max_workers") && not (is_workers (atoi value))
      then (config, bad_request)
      else saved config (set_config settings key value config)

-- strings.TrimPrefix
abbrev pub trim_prefix : Text → Text → Text
trim_prefix s p = if has_prefix s p then drop (length p) s else s

module _ {O : Type 0} (overrides : Bolt O (Option ShowOverride))
    (unescape : Text → Option Text) where
  abbrev or_raw : Text → Option Text → Text
  or_raw raw none = raw
  or_raw raw (some decoded) = decoded

  unfoldable extract_override_name : Text → Text
  unfolding has_prefix
  extract_override_name path =
      let raw = trim_prefix path (codes "/api/overrides/") in or_raw raw (unescape raw)

  abbrev written : O → Result O → O × Code
  written o (ok o') = (o', status_ok)
  written o (err e) = (o, server_error)

  abbrev put_named : Text → Option ShowOverride → O → O × Code
  put_named name none o = (o, bad_request)
  put_named name (some body) o =
      written o (put_override overrides (record body { show_name = name }) o)

  unfoldable handle_put_override : Text → Option ShowOverride → O → O × Code
  unfolding extract_override_name put_override
  handle_put_override path body o =
      let name = extract_override_name path in
      if is_empty name then (o, bad_request) else put_named name body o

  unfoldable handle_delete_override : Text → O → O × Code
  unfolding extract_override_name delete_override
  handle_delete_override path o =
      let name = extract_override_name path in
      if is_empty name then (o, bad_request) else written o (delete_override overrides name o)
