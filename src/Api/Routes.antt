-- ===== src/Api/Routes.antt =====
-- internal/api/routes.go, auth_middleware.go, and ServeHTTP with its cross-origin defence in
-- handler.go. http.ServeMux is a parameter: it picks one of the registered routes, or none.
pub mod Gate
use iplayer_arr.Prelude.{
  ◌==◌, Bool, true, false, ◌&&◌, ◌||◌, not, Option, none, some, List, [], ◌∷◌, ◌++◌, Text, codes,
  text_eq, is_empty, has_prefix, trim_suffix, length, ltb, drop, if◌then◌else◌,
}
use iplayer_arr.Access.{Credentials, bearer, api_authenticate}

pub data Endpoint : Type 0 where
  healthz events status system geo_check logs : Endpoint
  list_downloads list_directory delete_directory cancel_download move_download : Endpoint
  manual_download pause resume : Endpoint
  list_history history_stats clear_history delete_history : Endpoint
  get_config put_config list_overrides put_override delete_override search : Endpoint
  diag_sonarr_handshake diag_ffmpeg diag_bbc diag_sab diag_auth_paths : Endpoint
  diag_storage diag_clock diag_geo diag_network not_found : Endpoint

pub record RouteSpec : Type 0 where
  pub method : Text
  pub pattern : Text
  pub endpoint : Endpoint
  pub authenticated : Bool

abbrev route : Text → Text → Endpoint → Bool → RouteSpec
route method pattern endpoint authenticated = record {
  method = method;
  pattern = pattern;
  endpoint = endpoint;
  authenticated = authenticated;
}

-- registerRoutes
abbrev pub routes : List RouteSpec
routes =
    route (codes "GET") (codes "/api/healthz") healthz false
    ∷ route (codes "GET") (codes "/api/events") events true
    ∷ route (codes "GET") (codes "/api/status") status true
    ∷ route (codes "GET") (codes "/api/system") system true
    ∷ route (codes "POST") (codes "/api/system/geo-check") geo_check true
    ∷ route (codes "GET") (codes "/api/logs") logs true
    ∷ route (codes "GET") (codes "/api/downloads") list_downloads true
    ∷ route (codes "GET") (codes "/api/downloads/directory") list_directory true
    ∷ route (codes "DELETE") (codes "/api/downloads/directory/{folder...}") delete_directory true
    ∷ route (codes "DELETE") (codes "/api/downloads/{id...}") cancel_download true
    ∷ route (codes "POST") (codes "/api/downloads/{id}/move") move_download true
    ∷ route (codes "POST") (codes "/api/download") manual_download true
    ∷ route (codes "POST") (codes "/api/pause") pause true
    ∷ route (codes "POST") (codes "/api/resume") resume true
    ∷ route (codes "GET") (codes "/api/history") list_history true
    ∷ route (codes "GET") (codes "/api/history/stats") history_stats true
    ∷ route (codes "DELETE") (codes "/api/history") clear_history true
    ∷ route (codes "DELETE") (codes "/api/history/{id...}") delete_history true
    ∷ route (codes "GET") (codes "/api/config") get_config true
    ∷ route (codes "PUT") (codes "/api/config") put_config true
    ∷ route (codes "GET") (codes "/api/overrides") list_overrides true
    ∷ route (codes "PUT") (codes "/api/overrides/{name...}") put_override true
    ∷ route (codes "DELETE") (codes "/api/overrides/{name...}") delete_override true
    ∷ route (codes "GET") (codes "/api/search") search true
    ∷ route (codes "GET") (codes "/api/diag/sonarr-handshake") diag_sonarr_handshake true
    ∷ route (codes "GET") (codes "/api/diag/ffmpeg") diag_ffmpeg true
    ∷ route (codes "GET") (codes "/api/diag/bbc") diag_bbc true
    ∷ route (codes "GET") (codes "/api/diag/sab") diag_sab true
    ∷ route (codes "GET") (codes "/api/diag/auth-paths") diag_auth_paths true
    ∷ route (codes "GET") (codes "/api/diag/storage") diag_storage true
    ∷ route (codes "GET") (codes "/api/diag/clock") diag_clock true
    ∷ route (codes "GET") (codes "/api/diag/geo") diag_geo true
    ∷ route (codes "GET") (codes "/api/diag/network") diag_network true
    ∷ route [] (codes "/api/") not_found false
    ∷ route [] (codes "/api") not_found false
    ∷ []

pub record ApiRequest : Type 0 where
  pub method : Text
  pub path : Text
  pub host : Text
  pub origin : Text
  pub credentials : Credentials

unfoldable pub is_mutating_method : Text → Bool
is_mutating_method method =
    text_eq method (codes "POST")
    || text_eq method (codes "PUT")
    || text_eq method (codes "PATCH")
    || text_eq method (codes "DELETE")

unfoldable pub has_header_credential : Credentials → Bool
unfolding has_prefix
has_header_credential c = has_prefix c.authorization bearer || not (is_empty c.x_api_key)

-- The text behind the first "://"; `none` if there is none.
unfoldable pub behind_scheme : Text → Option Text
unfolding has_prefix
behind_scheme [] = none
behind_scheme (c ∷ s) =
    let rest = behind_scheme s in if has_prefix (c ∷ s) (codes "://") then some (drop 2 s) else rest

-- The text in front of the first slash.
unfoldable pub before_slash : Text → Text
before_slash [] = []
before_slash (c ∷ s) = let rest = c ∷ before_slash s in if c == b'/' then [] else rest

abbrev is_host : Text → Option Text → Bool
is_host host none = false
is_host host (some origin_host) = text_eq (before_slash origin_host) host

unfoldable pub same_origin_request : ApiRequest → Bool
unfolding behind_scheme before_slash
same_origin_request r = if is_empty r.origin then true else is_host r.host (behind_scheme r.origin)

unfoldable pub csrf_check_passes : ApiRequest → Bool
unfolding has_header_credential same_origin_request
csrf_check_passes r =
    if is_empty r.origin then has_header_credential r.credentials else same_origin_request r

-- One slash at the end of a path of more than one byte is dropped.
unfoldable pub normalise_trailing_slash : ApiRequest → ApiRequest
unfolding trim_suffix
normalise_trailing_slash r =
    if ltb 1 (length r.path) then record r { path = trim_suffix r.path (codes "/") } else r

-- What answers: a refusal with 403 or 401, the plain answer of the mux, or a handler.
pub data Outcome : Type 0 where
  cross_origin_refused : Outcome
  unauthorized : Outcome
  no_route : Outcome
  reached : Endpoint → Outcome

module _ (pick : List RouteSpec → ApiRequest → Option RouteSpec) (read : Option Text) where
  -- authMiddleware around a handler
  abbrev pub behind_middleware : ApiRequest → Option RouteSpec → Outcome
  behind_middleware r none = no_route
  behind_middleware r (some x) =
      if x.authenticated && not (api_authenticate read r.credentials)
      then unauthorized
      else reached x.endpoint

  unfoldable pub api_serve : ApiRequest → Outcome
  unfolding is_mutating_method csrf_check_passes normalise_trailing_slash api_authenticate
  api_serve r =
      let r' = normalise_trailing_slash r in
      if is_mutating_method r'.method && not (csrf_check_passes r')
      then cross_origin_refused
      else behind_middleware r' (pick routes r')
