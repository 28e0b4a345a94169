-- ===== src/Js/Exec.antt =====
-- Asynchronous functions that keep a module-level variable and may throw. What was written before
-- a throw stays written, so the variable comes back beside the error too.
use superfluid_aragon_app.Prelude.{◌≡◌, refl, subst, Option}
use superfluid_aragon_app.Js.{Result, ok, throw, caught, ok-injective}

abbrev pub Exec {ℓ} : Type ℓ → Type ℓ → Type ℓ
Exec S A = S → Result A × S

module _ {ℓ} {S A : Type ℓ} where
  unfoldable pub pure : A → Exec S A
  pure a s = (ok a, s)

  unfoldable pub lift : Result A → Exec S A
  lift r s = (r, s)

  -- `try { … } catch (err) { … }` whose value after a throw is `undefined`.
  unfoldable pub attempt : Exec S A → Exec S (Option A)
  attempt m s = let (r, s') = m s in (ok (caught r), s')

module _ {ℓ} {S A B : Type ℓ} where
  abbrev pub continue : Result A → (A → Exec S B) → Exec S B
  continue (ok a) f s = f a s
  continue (throw e) f s = (throw e, s)

  infixl 5 ◌>>=◌ ◌>>◌
  -- Opening this opens `pure`, `lift` and `attempt` too.
  unfoldable pub ◌>>=◌ : Exec S A → (A → Exec S B) → Exec S B
  unfolding pure lift attempt
  ◌>>=◌ m f s = let (r, s') = m s in continue r f s'

  abbrev pub ◌>>◌ : Exec S A → Exec S B → Exec S B
  m >> n = m >>= λ _. n

  pub lift_ok : (a : A) (f : A → Exec S B) → (lift (ok a) >>= f) ≡ f a
  unfolding ◌>>=◌
  lift_ok a f = refl

  -- A step that returns is followed by the rest of the block.
  pub bind_step :
      (m : Exec S A) (f : A → Exec S B) (s : S) {a : A} {s' : S}
      → m s ≡ (ok a, s')
      → (m >>= f) s ≡ f a s'
  unfolding ◌>>=◌
  bind_step m f s h = rw h

  pub bind_returns :
      (m : Exec S A) (f : A → Exec S B) (s : S) {a : A} {b : B}
      → (m s).0 ≡ ok a
      → (f a (m s).1).0 ≡ ok b
      → ((m >>= f) s).0 ≡ ok b
  unfolding ◌>>=◌
  bind_returns m f s h k = rw h k

-- Where `m` returns, its value satisfies `P`.
pub record Ends {ℓ} {S A : Type ℓ} (P : A → Type ℓ) (m : Exec S A) : Type ℓ where
  pub returned : (s : S) {a : A} → (m s).0 ≡ ok a → P a

module _ {ℓ} {S A : Type ℓ} where
  pub Ends-pure : {P : A → Type ℓ} (a : A) → P a → Ends {S = S} P (pure a)
  unfolding pure
  Ends-pure {P} a h = record { returned = λ s e. subst P (ok-injective e) h }

  pub pure_returns : (a : A) (s : S) → (pure a s).0 ≡ ok a
  unfolding pure
  pure_returns a s = refl

  -- What a call returns is what it gave.
  pub Ends-lift : (r : Result A) → Ends {S = S} (λ a. r ≡ ok a) (lift r)
  unfolding lift
  Ends-lift r = record { returned = λ s e. e }

  pub Ends-any : (m : Exec S A) → Ends (λ _. Unit {ℓ}) m
  Ends-any m = record { returned = λ s e. tt }

module _ {ℓ} {S A B : Type ℓ} {Q : A → Type ℓ} {P : B → Type ℓ} where
  pub Ends-bind :
      (m : Exec S A) (f : A → Exec S B)
      → Ends Q m
      → ((a : A) → Q a → Ends P (f a))
      → Ends P (m >>= f)
  unfolding ◌>>=◌
  Ends-bind m f hm hf = record {
    returned = λ s e. invert (m s).0 (m s).1 (λ a k. hm.returned s k) e;
  }
    where
      invert :
          (r : Result A) (s' : S)
          → ((a : A) → r ≡ ok a → Q a)
          → {b : B} → (continue r f s').0 ≡ ok b
          → P b
      invert (ok a) s' q k = (hf a (q a refl)).returned s' k
      invert (throw e) s' q k = cc
