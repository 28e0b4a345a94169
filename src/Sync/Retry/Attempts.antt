-- ===== src/Sync/Retry/Attempts.antt =====
-- The retries end: with the first call that succeeds, or with the error of the last one.
use superfluid_aragon_app.Prelude.{
  ℕ, zero, suc, ◌+◌, ◌-◌, ◌*◌, ◌≤◌, ◌<◌, ◌≡◌, refl, ap, true, false, Option, some, List, [], ◌∷◌,
  ◌==◌, arith, ◌⊎◌, inl, inr, Bool-cases,
}
use superfluid_aragon_app.Js.{Result, ok, throw, Error, is_ok}
use superfluid_aragon_app.Sync.Retry.{RetryOptions, Settled, attempt, retry_every}

-- The sleeps: `initial * factor`, then each `factor` times the one before.
abbrev pub backoff : ℕ → ℕ → ℕ → List ℕ
backoff factor time zero = []
backoff factor time (suc n) = (time * factor) ∷ backoff factor (time * factor) n

Result-cases {ℓ} :
    {A : Type ℓ} (r : Result A) → ((a : A) × (r ≡ ok a)) ⊎ ((e : Error) × (r ≡ throw e))
Result-cases (ok a) = inl (a, refl)
Result-cases (throw e) = inr (e, refl)

module _ {A : Type 0} (callback : ℕ → Result A) (options : RetryOptions) where
  -- Calls `first` to `first + k - 1` fail.
  abbrev pub FailsUntil : ℕ → ℕ → Type 0
  FailsUntil first zero = Unit
  FailsUntil first (suc k) = (is_ok (callback first) ≡ false) × FailsUntil (first + 1) k

  -- `k` retries after call `first`: the call after them succeeds, or they are all that is allowed.
  pub record Ended (first time k : ℕ) (s : Settled A) : Type 0 where
    pub allowed : first + k ≤ options.max_retries
    pub failed : FailsUntil first k
    pub outcome : s.result ≡ callback (first + k)
    pub waited : s.sleeps ≡ backoff options.increase_factor time k
    pub last : (is_ok (callback (first + k)) ≡ true) ⊎ (first + k ≡ options.max_retries)

  Ends : ℕ → ℕ → Option (Settled A) → Type 0
  Ends first time o = (k : ℕ) × (s : Settled A) × (o ≡ some s) × Ended first time k s

  attempt-Ends :
      (fuel first time : ℕ)
      → first ≤ options.max_retries
      → options.max_retries - first < fuel
      → Ends first time (attempt callback options fuel first time)
  unfolding attempt Ends
  attempt-Ends zero first time h lt = absurd (omega arith)
  attempt-Ends (suc fuel) first time h lt = elim (Result-cases (callback first)) [
    | inl (a, e) ↦
        let here : first + 0 ≡ first = omega arith in
        (
          0,
          record { result = ok a; sleeps = [] },
          rw (e, attempt),
          record {
            allowed = omega arith;
            failed = tt;
            outcome = rw (here, e);
            waited = refl;
            last = inl (rw (here, e));
          },
        )
    | inr (err, e) ↦ elim (Bool-cases (first == options.max_retries)) [
      | inl stop ↦
          let here : first + 0 ≡ first = omega arith in
          (
            0,
            record { result = throw err; sleeps = [] },
            rw (e, attempt, stop),
            record {
              allowed = omega arith;
              failed = tt;
              outcome = rw (here, e);
              waited = refl;
              last = inr (ground arith);
            },
          )
      | inr more ↦
          let (k, s, run, ended) =
            attempt-Ends fuel (first + 1) (time * options.increase_factor) (ground arith)
              (ground arith) in
          let next : first + suc k ≡ first + 1 + k = omega arith in
          (
            suc k,
            record { result = s.result; sleeps = (time * options.increase_factor) ∷ s.sleeps },
            rw (e, attempt, more, run),
            record {
              allowed = omega (arith, ended.allowed);
              failed = (rw e, ended.failed);
              outcome = rw next ended.outcome;
              waited = ap (λ l. (time * options.increase_factor) ∷ l) ended.waited;
              last = rw next ended.last;
            },
          )
    ]
  ]

  -- `retryEvery` settles, with any callback: to the outcome of the first call that succeeds, or to
  -- the error of the last of `maxRetries + 1` calls. Before each retry it sleeps, first for the
  -- initial time times the factor, and then for the factor times the sleep before.
  pub retry_every-Ended :
      (k : ℕ) × (s : Settled A) × (retry_every callback options ≡ some s)
      × Ended 0 options.initial_retry_timer k s
  unfolding retry_every Ends
  retry_every-Ended =
      attempt-Ends (options.max_retries + 1) 0 options.initial_retry_timer (omega arith)
        (omega arith)
