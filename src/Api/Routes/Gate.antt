-- ===== src/Api/Routes/Gate.antt =====
-- Which requests reach a handler.
use iplayer_arr.Prelude.{
  ◌≡◌, refl, subst, inl, inr, Bool, true, false, ◌&&◌, ◌||◌, not, Option, none, some, List, [], ◌∷◌,
  Text, is_empty, In, All, All-lookup, Bool-cases, trim_suffix, codes, length, ltb, if◌then◌else◌,
}
use iplayer_arr.Access.{api_authenticate}
use iplayer_arr.Api.Routes.{
  Endpoint, healthz, not_found, RouteSpec, routes, ApiRequest, cross_origin_refused, reached,
  behind_middleware, api_serve, is_mutating_method, has_header_credential, csrf_check_passes,
  same_origin_request, normalise_trailing_slash,
}

both : (a b : Bool) → (a && b) ≡ true → (a ≡ true) × (b ≡ true)
both true b h = (refl, h)
both false b h = absurd (cc h)

let_in :
    (gate key free : Bool)
    → (gate || free) ≡ true
    → (gate && not key) ≡ false
    → (key || free) ≡ true
let_in gate true free h k = refl
let_in true false free h k = absurd (cc k)
let_in false false free h k = h

unless_both : (a b : Bool) → (a && not b) ≡ false → (not a || b) ≡ true
unless_both true true h = refl
unless_both true false h = absurd (cc h)
unless_both false b h = refl

-- The liveness probe and the answer for unknown paths.
abbrev pub is_open : Endpoint → Bool
is_open healthz = true
is_open not_found = true
is_open _ = false

abbrev gated : RouteSpec → Bool
gated x = x.authenticated || is_open x.endpoint

abbrev all_gated : List RouteSpec → Bool
all_gated [] = true
all_gated (x ∷ xs) = gated x && all_gated xs

all_gated-All : (xs : List RouteSpec) → all_gated xs ≡ true → All (λ x. gated x ≡ true) xs
all_gated-All [] h = tt
all_gated-All (x ∷ xs) h =
    let (e, rest) = both (gated x) (all_gated xs) h in (e, all_gated-All xs rest)

routes-gated : All (λ x. gated x ≡ true) routes
routes-gated = all_gated-All routes refl

module _ (pick : List RouteSpec → ApiRequest → Option RouteSpec) (read : Option Text) where
  -- What is known of a request that reached a handler.
  abbrev Passed : Endpoint → ApiRequest → Type 0
  Passed e r =
      ((api_authenticate read r.credentials || is_open e) ≡ true)
      × ((not (is_mutating_method r.method)
            || (if is_empty r.origin
                then has_header_credential r.credentials
                else same_origin_request r))
          ≡ true)

  middleware_lem :
      (r : ApiRequest) (e : Endpoint) (o : Option RouteSpec)
      → ((x : RouteSpec) → o ≡ some x → gated x ≡ true)
      → behind_middleware pick read r o ≡ reached e
      → (api_authenticate read r.credentials || is_open e) ≡ true
  middleware_lem r e none known h = absurd (cc h)
  middleware_lem r e (some x) known h =
      let gate = known x refl in
      elim (Bool-cases (x.authenticated && not (api_authenticate read r.credentials))) [
        | inl refused ↦ absurd (cc (rw refused at h))
        | inr through ↦
            let same : x.endpoint ≡ e = cc (rw through at h) in
            subst (λ (d : Endpoint). (api_authenticate read r.credentials || is_open d) ≡ true) same
              (let_in x.authenticated (api_authenticate read r.credentials) (is_open x.endpoint)
                gate through)
      ]

  reached_lem :
      (r : ApiRequest) (e : Endpoint)
      → ((x : RouteSpec) → pick routes r ≡ some x → gated x ≡ true)
      → (if is_mutating_method r.method && not (csrf_check_passes r)
          then cross_origin_refused
          else behind_middleware pick read r (pick routes r))
        ≡ reached e
      → Passed e r
  unfolding csrf_check_passes
  reached_lem r e known h =
      elim (Bool-cases (is_mutating_method r.method && not (csrf_check_passes r))) [
        | inl refused ↦ absurd (cc (rw refused at h))
        | inr passes ↦ (
          middleware_lem r e (pick routes r) known (rw passes at h),
          unless_both (is_mutating_method r.method) (csrf_check_passes r) passes,
        )
      ]

  with_path :
      (e : Endpoint) (r : ApiRequest) (path : Text) (b : Bool)
      → Passed e (if b then record r { path = path } else r)
      → Passed e r
  unfolding same_origin_request
  with_path e r path true h = h
  with_path e r path false h = h

  -- A request that reaches a handler, whichever of the registered routes the mux picks: its key is
  -- the one that is stored, or the handler is the liveness probe or the answer for unknown paths;
  -- and if its method changes state, it comes from the page's own origin, or it names no origin and
  -- sends a credential in a header. The hypothesis is that the mux picks a registered route.
  pub api_serve-reached :
      (r : ApiRequest) (e : Endpoint)
      → ((q : ApiRequest) (x : RouteSpec) → pick routes q ≡ some x → In x routes)
      → api_serve pick read r ≡ reached e
      → ((api_authenticate read r.credentials || is_open e) ≡ true)
        × ((not (is_mutating_method r.method)
              || (if is_empty r.origin
                  then has_header_credential r.credentials
                  else same_origin_request r))
            ≡ true)
  unfolding api_serve normalise_trailing_slash
  api_serve-reached r e picked h =
      let q = normalise_trailing_slash r in
      let known = λ (x : RouteSpec) (found : pick routes q ≡ some x).
        All-lookup (λ x. gated x ≡ true) routes routes-gated x (picked q x found) in
      with_path e r (trim_suffix r.path (codes "/")) (ltb 1 (length r.path))
        (reached_lem q e known h)
