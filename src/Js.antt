-- ===== src/Js.antt =====
-- What the app takes from JavaScript: exceptions, rejected promises, and functions that fail while
-- they walk an array. An awaited promise that rejects and a throw are the same `throw`.
pub mod Exec
pub mod Search
pub mod Upsert
pub mod Sort
use superfluid_aragon_app.Prelude.{ℕ, ◌≡◌, refl, Bool, true, false, Option, none, some}

-- A `TypeError` of the language, or the failure of a call of a package or of the network.
pub data Error : Type 0 where
  type_error : Error
  failure : ℕ → Error

pub data Result {ℓ} (A : Type ℓ) : Type ℓ where
  ok : A → Result A
  throw : Error → Result A

infixl 5 ◌>>=◌
abbrev pub ◌>>=◌ {ℓ κ} : {A : Type ℓ} {B : Type κ} → Result A → (A → Result B) → Result B
ok a >>= f = f a
throw e >>= f = throw e

-- A property read or a spread of a value that may be `undefined`.
abbrev pub defined {ℓ} : {A : Type ℓ} → Option A → Result A
defined none = throw type_error
defined (some a) = ok a

-- `try { … } catch (err) { console.error(err); }`: the value is `undefined` after a throw.
abbrev pub caught {ℓ} : {A : Type ℓ} → Result A → Option A
caught (ok a) = some a
caught (throw e) = none

abbrev pub is_ok {ℓ} : {A : Type ℓ} → Result A → Bool
is_ok (ok a) = true
is_ok (throw e) = false

pub is_ok-eq {ℓ} : {A : Type ℓ} (r : Result A) → is_ok r ≡ true → (a : A) × (r ≡ ok a)
is_ok-eq (ok a) h = (a, refl)
is_ok-eq (throw e) h = elim (false_is_not_true h) [ ]
  where
    false_is_not_true : false ≡ true → ⊥
    false_is_not_true e = cc

pub ok-injective {ℓ} : {A : Type ℓ} {x y : A} → ok x ≡ ok y → x ≡ y
ok-injective e = cc
