-- ===== src/Store/Bolt.antt =====
-- go.etcd.io/bbolt, which is not part of the repository: a bucket as an interface, with the
-- behaviour that its documentation states and internal/store relies on. `none` is an error that
-- Put or Delete returns.
use iplayer_arr.Prelude.{
  ◌≡◌, ◌≢◌, refl, ◌↔◌, ◌⊎◌, inl, inr, Option, none, some, List, Text, text_eq, text_lt, In,
  if◌then◌else◌,
}
use iplayer_arr.Prelude.Sort.{IsSorted}
use iplayer_arr.Store.Types.{Download}

pub record Bolt (B V : Type 0) : Type 0 where
  pub get : B → Text → Option V
  pub put : B → Text → V → Option B
  pub delete : B → Text → Option B
  -- the pairs in the order of ForEach
  pub entries : B → List (Text × V)
  pub get-put :
      (b : B) (k : Text) (v : V) (b' : B) (j : Text)
      → put b k v ≡ some b'
      → get b' j ≡ (if text_eq k j then some v else get b j)
  pub get-delete :
      (b : B) (k : Text) (b' : B) (j : Text)
      → delete b k ≡ some b'
      → get b' j ≡ (if text_eq k j then none else get b j)
  pub entries-get : (b : B) (k : Text) (v : V) → In (k, v) (entries b) ↔ (get b k ≡ some v)
  -- ForEach yields the keys in byte order, each once
  pub entries-IsSorted : (b : B) → IsSorted (λ p q. text_lt p.0 q.0) (entries b)

-- What json.Unmarshal makes of a stored value: a row, or an error.
pub data Cell : Type 0 where
  row : Download → Cell
  malformed : Cell

-- The two buckets that hold downloads.
pub record Db (B : Type 0) : Type 0 where
  pub downloads : B
  pub history : B

pub data Error : Type 0 where
  bolt_error malformed_row not_found not_pending invalid_move : Error
  -- a Go run-time panic, such as an index out of range
  panic : Error

pub data Result {ℓ} (A : Type ℓ) : Type ℓ where
  ok : A → Result A
  err : Error → Result A

infixl 5 ◌>>=◌
abbrev pub ◌>>=◌ {ℓ κ} : {A : Type ℓ} {B : Type κ} → Result A → (A → Result B) → Result B
ok a >>= f = f a
err e >>= f = err e

-- A bucket operation that may fail.
abbrev pub attempt {ℓ} : {A : Type ℓ} → Option A → Result A
attempt none = err bolt_error
attempt (some a) = ok a

-- Inversion of a chain of steps that succeeds.
pub >>=-eq-ok {ℓ κ} :
    {A : Type ℓ} {C : Type κ} (m : Result A) (f : A → Result C) {r : C}
    → (m >>= f) ≡ ok r
    → (a : A) × (m ≡ ok a) × (f a ≡ ok r)
>>=-eq-ok (ok a) f h = (a, refl, h)
>>=-eq-ok (err e) f h = cc

pub attempt-eq-ok {ℓ} : {A : Type ℓ} (o : Option A) {a : A} → attempt o ≡ ok a → o ≡ some a
attempt-eq-ok none h = cc
attempt-eq-ok (some b) h = cc

pub ok-injective {ℓ} : {A : Type ℓ} {a b : A} → ok a ≡ ok b → a ≡ b
ok-injective e = cc

-- A chain fails as its first step does, or as the rest does on what that step gave.
pub >>=-eq-err {ℓ κ} :
    {A : Type ℓ} {C : Type κ} (m : Result A) (f : A → Result C) {e : Error}
    → (m >>= f) ≡ err e
    → (m ≡ err e) ⊎ ((a : A) × (m ≡ ok a) × (f a ≡ err e))
>>=-eq-err (ok a) f h = inr (a, refl, h)
>>=-eq-err (err e') f h = inl (cc)

pub attempt-ne-panic {ℓ} : {A : Type ℓ} (o : Option A) → attempt o ≢ err panic
attempt-ne-panic none h = cc
attempt-ne-panic (some a) h = cc
