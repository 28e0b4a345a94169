-- ===== src/Sync/Retry.antt =====
-- `retryEvery` of app/src/store/helpers.js: calls again after a failure, and waits longer each time.
pub mod Attempts
use superfluid_aragon_app.Prelude.{
  ℕ, zero, suc, ◌+◌, ◌*◌, Option, none, some, List, [], ◌∷◌, ◌==◌, if◌then◌else◌,
}
use superfluid_aragon_app.Js.{Result, ok, throw}

pub record RetryOptions : Type 0 where
  pub initial_retry_timer : ℕ
  pub increase_factor : ℕ
  pub max_retries : ℕ

abbrev pub default_options : RetryOptions
default_options = record { initial_retry_timer = 1000; increase_factor = 3; max_retries = 3 }

-- What the promise settles to, and the milliseconds of each sleep on the way.
pub record Settled {ℓ} (A : Type ℓ) : Type ℓ where
  pub result : Result A
  pub sleeps : List ℕ

module _ {ℓ} {A : Type ℓ} (callback : ℕ → Result A) (options : RetryOptions) where
  abbrev pub slept : ℕ → Option (Settled A) → Option (Settled A)
  slept time none = none
  slept time (some s) = some (record { result = s.result; sleeps = time ∷ s.sleeps })

  -- `callback n` is the outcome of the call after `n` retries. `none` means that the fuel ran out.
  unfoldable pub attempt : ℕ → ℕ → ℕ → Option (Settled A)
  attempt zero retry_num retry_timer = none
  attempt (suc fuel) retry_num retry_timer =
      let next_retry_time = retry_timer * options.increase_factor in
      let again = slept next_retry_time (attempt fuel (retry_num + 1) next_retry_time) in
      elim (callback retry_num) [
        | ok a ↦ some (record { result = ok a; sleeps = [] })
        | throw e ↦
            if retry_num == options.max_retries
            then some (record { result = throw e; sleeps = [] })
            else again
      ]

  unfoldable pub retry_every : Option (Settled A)
  unfolding attempt
  retry_every = attempt (options.max_retries + 1) 0 options.initial_retry_timer
