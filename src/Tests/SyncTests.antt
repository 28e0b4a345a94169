-- ===== src/Tests/SyncTests.antt =====
-- The retries and the block ranges at concrete inputs.
use superfluid_aragon_app.Prelude.{ℕ, zero, suc, ◌≡◌, refl, some, [], ◌∷◌, ◌⊎◌, pos, ◌≤ℤ◌, arith}
use superfluid_aragon_app.Js.{Result, ok, throw, failure}
use superfluid_aragon_app.Sync.Retry.{Settled, default_options, retry_every}
use superfluid_aragon_app.Sync.Retry.Attempts.{Ended, retry_every-Ended}
use superfluid_aragon_app.Sync.Blocks.{block_ranges, Within, ranges_cover, ranges_disjoint}

-- The first two calls fail.
abbrev third_succeeds : ℕ → Result ℕ
third_succeeds zero = throw (failure 1)
third_succeeds (suc zero) = throw (failure 2)
third_succeeds (suc (suc n)) = ok 42

third_call :
    retry_every third_succeeds default_options
    ≡ some (record { result = ok 42; sleeps = 3000 ∷ 9000 ∷ [] })
unfolding retry_every
third_call = refl

retry_every-Ended_example :
    (k : ℕ) × (s : Settled ℕ) × (retry_every third_succeeds default_options ≡ some s)
    × Ended third_succeeds default_options 0 1000 k s
retry_every-Ended_example = retry_every-Ended third_succeeds default_options

ranges_cover_example :
    let r = block_ranges (some 700) 1000 20 in
    Within r.cached_past 701 ⊎ (Within r.recent_past 701 ⊎ (r.current_from ≤ℤ pos 701))
ranges_cover_example =
    ranges_cover (some 700) 1000 20 701 (omega arith) (omega arith) (λ b e. ground arith)

ranges_disjoint_example :
    let r = block_ranges (some 700) 1000 20 in
    ¬ (Within r.cached_past 950 × Within r.recent_past 950)
    × ¬ (Within r.cached_past 950 × (r.current_from ≤ℤ pos 950))
    × ¬ (Within r.recent_past 950 × (r.current_from ≤ℤ pos 950))
ranges_disjoint_example = ranges_disjoint (some 700) 1000 20 950 (omega arith)
