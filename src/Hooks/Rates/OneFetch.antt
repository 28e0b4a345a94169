-- ===== src/Hooks/Rates/OneFetch.antt =====
-- At most one fetch or retry of the current query is under way, and an answer of another one changes
-- nothing.
use superfluid_aragon_app.Prelude.{
  ℕ, zero, suc, ◌+◌, ◌≤◌, ◌≡◌, refl, ◌==◌, Option, none, some, List, [], ◌∷◌, ◌++◌, All,
  if◌then◌else◌, arith, Bool-cases, inl, inr, get_elem?, remove_at, All-append, All-remove_at,
}
use superfluid_aragon_app.Js.{Result, ok, throw}
use superfluid_aragon_app.Packages.{Packages}
use superfluid_aragon_app.Forms.UpdateFlow.{Floats}
use superfluid_aragon_app.Hooks.Rates.{
  TokenRates, RatesQuery, RatesState, is_askable, convert_api_retry_delay, update, change_query,
  first_run, retry, respond, retried, responded, settle,
}

-- How many fetches a run has under way.
abbrev pub count_of : ℕ → List ℕ → ℕ
count_of run [] = 0
count_of run (x ∷ xs) = let rest = count_of run xs in if x == run then suc rest else rest

abbrev pub timers : {N : Type 0} → Option N → ℕ
timers none = 0
timers (some n) = 1

-- No fetch is of a run to come, and the current run waits for at most one thing.
pub record IsSingle {N : Type 0} (s : RatesState N) : Type 0 where
  pub past : All (λ r. r ≤ s.run) s.fetches
  pub one : count_of s.run s.fetches + timers s.retry_timer ≤ 1

count_of-append :
    (run x : ℕ) (xs : List ℕ)
    → count_of run (xs ++ x ∷ []) ≡ count_of run xs + count_of run (x ∷ [])
count_of-append run x [] = ground arith
count_of-append run x (y ∷ ys) = ground (arith, count_of-append run x ys)

fresh_run : (run : ℕ) (xs : List ℕ) → All (λ r. r ≤ run) xs → count_of (run + 1) xs ≡ 0
fresh_run run [] h = refl
fresh_run run (x ∷ xs) h = ground (arith, h.0, fresh_run run xs h.1)

later_run : (run : ℕ) (xs : List ℕ) → All (λ r. r ≤ run) xs → All (λ r. r ≤ run + 1) xs
later_run run [] h = tt
later_run run (x ∷ xs) h = (omega (arith, h.0), later_run run xs h.1)

-- What is left after a fetch is answered.
count_of-remove_at :
    (run i : ℕ) (xs : List ℕ) {y : ℕ}
    → get_elem? xs i ≡ some y
    → count_of run xs ≡ count_of run (remove_at xs i) + count_of run (y ∷ [])
count_of-remove_at run i [] h = absurd (ground (arith, h))
count_of-remove_at run zero (x ∷ xs) h = ground (arith, h)
count_of-remove_at run (suc i) (x ∷ xs) h = ground (arith, count_of-remove_at run i xs h)

count_of-removed : (run i : ℕ) (xs : List ℕ) → count_of run (remove_at xs i) ≤ count_of run xs
count_of-removed run i [] = omega arith
count_of-removed run zero (x ∷ xs) = ground arith
count_of-removed run (suc i) (x ∷ xs) = ground (arith, count_of-removed run i xs)

module _ {N : Type 0} (floats : Floats N) where
  update-IsSingle :
      (s : RatesState N)
      → All (λ r. r ≤ s.run) s.fetches
      → count_of s.run s.fetches + timers s.retry_timer ≡ 0
      → IsSingle (update floats s)
  unfolding update
  update-IsSingle s past idle = elim (Bool-cases (is_askable s.query)) [
    | inl askable ↦ simp askable (record {
      past = All-append (λ r. r ≤ s.run) s.fetches (s.run ∷ []) past (omega arith, tt);
      one = ground (arith, count_of-append s.run s.run s.fetches, idle);
    })
    | inr empty ↦ simp empty (record { past = past; one = ground (arith, idle) })
  ]

  change_query-IsSingle :
      (query : RatesQuery) (s : RatesState N) → IsSingle s → IsSingle (change_query floats query s)
  unfolding change_query
  change_query-IsSingle query s h =
      update-IsSingle
        (record s {
          query = query;
          run = s.run + 1;
          retry_timer = none;
          retry_delay = convert_api_retry_delay floats;
        })
        (later_run s.run s.fetches h.past) (ground (arith, fresh_run s.run s.fetches h.past))

  retry-IsSingle : (s : RatesState N) → IsSingle s → IsSingle (retry floats s)
  unfolding retry
  retry-IsSingle s h = by_timer s.retry_timer refl
    where
      by_timer : (t : Option N) → s.retry_timer ≡ t → IsSingle (retried floats t s)
      by_timer none e = h
      by_timer (some d) e =
          update-IsSingle (record s { retry_timer = none }) h.past (ground (arith, h.one, e))

  module _ (p : Packages) where
    settle-IsSingle :
        (answer : Result TokenRates) (s : RatesState N)
        → All (λ r. r ≤ s.run) s.fetches
        → count_of s.run s.fetches + timers s.retry_timer ≡ 0
        → IsSingle (settle floats p answer s)
    settle-IsSingle (ok found) s past idle = record { past = past; one = ground (arith, idle) }
    settle-IsSingle (throw e) s past idle = record { past = past; one = ground (arith, idle) }

    respond-IsSingle :
        (i : ℕ) (answer : Result TokenRates) (s : RatesState N)
        → IsSingle s
        → IsSingle (respond floats p i answer s)
    unfolding respond
    respond-IsSingle i answer s h = by_fetch (get_elem? s.fetches i) refl
      where
        waiting : RatesState N
        waiting = record s { fetches = remove_at s.fetches i }

        past : All (λ r. r ≤ s.run) (remove_at s.fetches i)
        past = All-remove_at (λ r. r ≤ s.run) s.fetches i h.past

        by_fetch :
            (o : Option ℕ)
            → get_elem? s.fetches i ≡ o
            → IsSingle (responded floats p o answer waiting)
        by_fetch none e = record {
          past = past;
          one = ground (arith, h.one, count_of-removed s.run i s.fetches);
        }
        by_fetch (some owner) e =
            let counted = count_of-remove_at s.run i s.fetches e in
            elim (Bool-cases (owner == s.run)) [
              | inl current ↦
                  simp current
                    (settle-IsSingle answer waiting past (ground (arith, h.one, counted, current)))
              | inr cancelled ↦
                  simp cancelled
                    (record { past = past; one = ground (arith, h.one, counted, cancelled) })
            ]

    -- What happens to the hook: another query, an answer or a failure of a fetch, and a retry that is due.
    pub data Moves (s : RatesState N) : RatesState N → Type 0 where
      asks : (query : RatesQuery) → Moves s (change_query floats query s)
      answers : (i : ℕ) (answer : Result TokenRates) → Moves s (respond floats p i answer s)
      retries : Moves s (retry floats s)

    pub data History : RatesState N → Type 0 where
      mounted : (query : RatesQuery) → History (first_run floats query)
      moved : {s t : RatesState N} → History s → Moves s t → History t

    first-IsSingle : (query : RatesQuery) → IsSingle (first_run floats query)
    unfolding first_run
    first-IsSingle query =
        update-IsSingle
          (record {
            query = query;
            rates = [];
            retry_delay = convert_api_retry_delay floats;
            run = 0;
            fetches = [];
            retry_timer = none;
          })
          tt refl

    -- In any history of queries, answers, failures and retries, the current query has at most one fetch
    -- under way or one retry that is due, so failures never multiply the requests.
    pub History-IsSingle : {s : RatesState N} → History s → IsSingle s
    History-IsSingle (mounted query) = first-IsSingle query
    History-IsSingle (moved {s} h (asks query)) = change_query-IsSingle query s (History-IsSingle h)
    History-IsSingle (moved {s} h (answers i answer)) =
        respond-IsSingle i answer s (History-IsSingle h)
    History-IsSingle (moved {s} h retries) = retry-IsSingle s (History-IsSingle h)
