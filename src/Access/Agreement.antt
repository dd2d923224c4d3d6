-- ===== src/Access/Agreement.antt =====
-- The three guards agree, and fail closed.
use iplayer_arr.Prelude.{
  ◌≡◌, refl, sym, ap, ◌∙◌, inl, inr, Bool, true, false, ◌&&◌, ◌||◌, not, Option, none, some, [],
  ◌∷◌, ◌++◌, Text, text_eq, is_empty, has_prefix, text_cmp, ℕ, zero, suc, take, drop, length, ltb,
  Bool-cases, arith, if◌then◌else◌,
}
use iplayer_arr.Access.{
  secrets_equal, Credentials, bearer, newznab_authenticate, api_authenticate, sabnzbd_authenticate,
}

-- The credentials that hold the key, in one of the three places.
abbrev pub holds : Text → Credentials → Bool
holds stored c =
    text_eq c.apikey stored
    || text_eq c.authorization (bearer ++ stored)
    || text_eq c.x_api_key stored

-- A header that starts with a prefix and goes on with the key is the prefix before the key.
prefix_token :
    (p header stored : Text)
    → (has_prefix header p && text_eq (drop (length p) header) stored)
      ≡ text_eq header (p ++ stored)
unfolding has_prefix text_cmp
prefix_token [] header stored = refl
prefix_token (c ∷ p) [] stored = refl
prefix_token (c ∷ p) (a ∷ header) stored = ground (arith, prefix_token p header stored)

take_prefix : (p header : Text) → text_eq (take (length p) header) p ≡ has_prefix header p
unfolding has_prefix text_cmp
take_prefix [] header = refl
take_prefix (c ∷ p) [] = refl
take_prefix (c ∷ p) (a ∷ header) = ground (arith, take_prefix p header)

-- A header has a token behind its first bytes if that token equals a key that is not empty.
longer :
    (n : ℕ) (header stored : Text)
    → is_empty stored ≡ false
    → text_eq (drop n header) stored ≡ true
    → ltb n (length header) ≡ true
unfolding text_cmp
longer zero [] [] e h = cc
longer zero [] (c ∷ stored) e h = absurd (cc h)
longer zero (a ∷ header) stored e h = ground arith
longer (suc n) [] [] e h = cc
longer (suc n) [] (c ∷ stored) e h = absurd (cc h)
longer (suc n) (a ∷ header) stored e h = ground (arith, longer n header stored e h)

given :
    (key stored : Text)
    → is_empty stored ≡ false
    → (not (is_empty key) && text_eq key stored) ≡ text_eq key stored
unfolding text_cmp
given [] [] e = cc
given [] (c ∷ stored) e = refl
given (a ∷ key) stored e = refl

guarded : (b : Bool) (f : Bool → Bool) → (b && f b) ≡ (b && f true)
guarded true f = refl
guarded false f = refl

implied : (a b c : Bool) → (c ≡ true → a ≡ true) → (a && b && c) ≡ (b && c)
implied a b true h = rw (h refl) refl
implied true b false h = refl
implied false true false h = refl
implied false false false h = refl

in_turn : (a b c : Bool) → (if a then true else if b then true else c) ≡ (a || b || c)
in_turn true b c = refl
in_turn false true c = refl
in_turn false false c = refl

secret : (b t : Bool) → (if b then false else t) ≡ (not b && t)
secret true t = refl
secret false t = refl

no_key : (c : Credentials) → api_authenticate none c ≡ false
unfolding api_authenticate
no_key c = refl

-- The second test, behind the prefix, whichever way the prefix is cut.
with_bearer :
    (header stored : Text)
    → is_empty stored ≡ false
    → (has_prefix header bearer
        && text_eq (if has_prefix header bearer then drop 7 header else header) stored)
      ≡ text_eq header (bearer ++ stored)
with_bearer header stored e =
    guarded (has_prefix header bearer) (λ b. text_eq (if b then drop 7 header else header) stored)
    ∙ prefix_token bearer header stored

sliced_bearer :
    (header stored : Text)
    → is_empty stored ≡ false
    → (ltb 7 (length header) && text_eq (take 7 header) bearer && text_eq (drop 7 header) stored)
      ≡ text_eq header (bearer ++ stored)
sliced_bearer header stored e =
    implied (ltb 7 (length header)) (text_eq (take 7 header) bearer)
      (text_eq (drop 7 header) stored) (longer 7 header stored e)
    ∙ ap (λ b. b && text_eq (drop 7 header) stored) (take_prefix bearer header)
    ∙ prefix_token bearer header stored

-- The three tests in turn, of a key that is not empty.
api_lem :
    (stored : Text) (c : Credentials)
    → api_authenticate (some stored) c ≡ (not (is_empty stored) && holds stored c)
unfolding api_authenticate secrets_equal
api_lem stored c = elim (Bool-cases (is_empty stored)) [
  | inl e ↦ rw e refl
  | inr e ↦
      rw (e, with_bearer c.authorization stored e)
        (in_turn (text_eq c.apikey stored) (text_eq c.authorization (bearer ++ stored))
          (text_eq c.x_api_key stored))
]

newznab_lem :
    (stored : Text) (c : Credentials)
    → newznab_authenticate true (some stored) c ≡ (not (is_empty stored) && holds stored c)
unfolding newznab_authenticate secrets_equal
newznab_lem stored c = elim (Bool-cases (is_empty stored)) [
  | inl e ↦ rw e refl
  | inr e ↦
      rw (e, sliced_bearer c.authorization stored e, given c.apikey stored e)
        (in_turn (text_eq c.apikey stored) (text_eq c.authorization (bearer ++ stored))
          (text_eq c.x_api_key stored))
]

-- The dashboard lets a request in exactly where a key is stored and readable, is not empty, and is
-- sent as the apikey parameter, behind "Bearer " or as X-Api-Key; the indexer, with a store, lets in
-- the same requests; and the download client lets in those of them that send it as apikey. A key
-- that is missing, empty or unreadable lets no request in anywhere.
pub authenticate_agreement :
    (read : Option Text) (c : Credentials)
    → (api_authenticate read c
        ≡ elim read [ some stored ↦ not (is_empty stored) && holds stored c | none ↦ false ])
      × (newznab_authenticate true read c ≡ api_authenticate read c)
      × (newznab_authenticate false read c ≡ false)
      × (sabnzbd_authenticate true read c ≡ elim read [
        | some stored ↦ not (is_empty stored) && text_eq c.apikey stored
        | none ↦ false
      ])
      × (sabnzbd_authenticate false read c ≡ false)
unfolding newznab_authenticate sabnzbd_authenticate secrets_equal
authenticate_agreement none c = (no_key c, sym (no_key c), refl, refl, refl)
authenticate_agreement (some stored) c = (
  api_lem stored c,
  newznab_lem stored c ∙ sym (api_lem stored c),
  refl,
  secret (is_empty stored) (text_eq c.apikey stored),
  refl,
)
