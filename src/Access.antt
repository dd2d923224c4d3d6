-- ===== src/Access.antt =====
-- internal/auth/compare.go, and the three places that authenticate a request: ServeHTTP of
-- internal/sabnzbd/handler.go, and authenticate of internal/newznab/handler.go and of
-- internal/api/handler.go. `read` is what GetConfig("api_key") returns, `none` where it fails.
-- subtle.ConstantTimeCompare is the equality that it documents; its running time is not modelled.
pub mod Agreement
use iplayer_arr.Prelude.{
  Bool, true, false, ◌&&◌, ◌||◌, not, Option, none, some, List, [], ◌∷◌, Text, codes, text_eq,
  is_empty, has_prefix, take, drop, length, ltb, if◌then◌else◌,
}

unfoldable pub secrets_equal : Text → Text → Bool
secrets_equal given stored = if is_empty stored then false else text_eq given stored

-- The places of a request that may hold a key; a header or a parameter that is not sent is empty.
pub record Credentials : Type 0 where
  pub apikey : Text
  pub authorization : Text
  pub x_api_key : Text

abbrev pub bearer : Text
bearer = codes "Bearer "

abbrev newznab_key : Credentials → Option Text → Bool
newznab_key c none = false
newznab_key c (some stored) =
    if is_empty stored
    then false
    else if not (is_empty c.apikey) && secrets_equal c.apikey stored
    then true
    else if ltb 7 (length c.authorization)
        && text_eq (take 7 c.authorization) bearer
        && secrets_equal (drop 7 c.authorization) stored
    then true
    else secrets_equal c.x_api_key stored

-- `has_store` is false where the handler's store is nil.
unfoldable pub newznab_authenticate : Bool → Option Text → Credentials → Bool
unfolding secrets_equal
newznab_authenticate has_store read c = if has_store then newznab_key c read else false

-- The key that GetConfig returns beside an error that is not looked at.
abbrev key_or_empty : Option Text → Text
key_or_empty none = []
key_or_empty (some stored) = stored

-- strings.TrimPrefix
abbrev trim_prefix : Text → Text → Text
trim_prefix s p = if has_prefix s p then drop (length p) s else s

unfoldable pub api_authenticate : Option Text → Credentials → Bool
unfolding secrets_equal has_prefix
api_authenticate read c =
    let stored = key_or_empty read in
    if is_empty stored
    then false
    else if secrets_equal c.apikey stored
    then true
    else if has_prefix c.authorization bearer
        && secrets_equal (trim_prefix c.authorization bearer) stored
    then true
    else secrets_equal c.x_api_key stored

-- The guard in front of every mode but `version`.
unfoldable pub sabnzbd_authenticate : Bool → Option Text → Credentials → Bool
unfolding secrets_equal
sabnzbd_authenticate has_store none c = false
sabnzbd_authenticate has_store (some stored) c = has_store && secrets_equal c.apikey stored
