-- ===== src/Sync/Blocks.antt =====
-- The block ranges of `subscribeToExternals` of app/src/store/helpers.js.
use superfluid_aragon_app.Prelude.{
  ℕ, zero, suc, ◌+◌, ◌≤◌, ◌<◌, ℤ, pos, ◌≤ℤ◌, leb_ℤ, sub_ℕ, ◌+ℤ◌, ◌≡◌, refl, Option, none, some,
  if◌then◌else◌, arith, ◌⊎◌, ◌↔◌,
}

abbrev pub reorg_safety_block_age : ℕ
reorg_safety_block_age = 100

-- `Math.min` and `Math.max` on whole numbers.
abbrev pub min_ℤ : ℤ → ℤ → ℤ
min_ℤ a b = if leb_ℤ a b then a else b

abbrev pub max_ℤ : ℤ → ℤ → ℤ
max_ℤ a b = if leb_ℤ a b then b else a

pub record BlockRange : Type 0 where
  pub from : ℤ
  pub to : ℤ

-- A query from the cached block on, up to where a reorganisation may still reach, and one for the
-- blocks after it; the subscription to new events starts at the current block.
pub record Ranges : Type 0 where
  pub cached_past : BlockRange
  pub recent_past : BlockRange
  pub current_from : ℤ

-- `cachedBlockNumber ? … : …` takes 0 for a missing number.
abbrev pub from_cached : Option ℕ → ℤ → ℤ → ℤ
from_cached none initial to = initial
from_cached (some zero) initial to = initial
from_cached (some (suc b)) initial to = min_ℤ (pos (suc b + 1)) to

unfoldable pub block_ranges : Option ℕ → ℕ → ℕ → Ranges
block_ranges cached_block_number current_block initial_block =
    let cached_to = max_ℤ (sub_ℕ current_block reorg_safety_block_age) (pos initial_block) in
    let recent_to = sub_ℕ current_block 1 in
    record {
      cached_past = record {
        from = from_cached cached_block_number (pos initial_block) cached_to;
        to = cached_to;
      };
      recent_past = record { from = min_ℤ (cached_to +ℤ pos 1) recent_to; to = recent_to };
      current_from = pos current_block;
    }

abbrev pub Within : BlockRange → ℕ → Type 0
Within r n = (r.from ≤ℤ pos n) × (pos n ≤ℤ r.to)

-- Every block from the initial one on that comes after the cached one is asked for or listened to.
pub ranges_cover :
    (cached_block_number : Option ℕ) (current_block initial_block n : ℕ)
    → initial_block ≤ current_block
    → initial_block ≤ n
    → ((b : ℕ) → cached_block_number ≡ some b → b < n)
    → let r = block_ranges cached_block_number current_block initial_block in
      Within r.cached_past n ⊎ (Within r.recent_past n ⊎ (r.current_from ≤ℤ pos n))
unfolding block_ranges ◌+ℤ◌
ranges_cover none current initial n h k after = ground arith
ranges_cover (some zero) current initial n h k after = ground arith
ranges_cover (some (suc b)) current initial n h k after =
    let later : suc b < n = after (suc b) refl in ground arith

-- A block is asked for in one of the queries, or listened to.
abbrev pub Asked : Ranges → ℕ → Type 0
Asked r n = Within r.cached_past n ⊎ (Within r.recent_past n ⊎ (r.current_from ≤ℤ pos n))

-- After a cached block, the blocks from the initial one on that are asked for are those after the cached
-- one and those that a reorganisation may still reach.
pub ranges_resume :
    (b current_block initial_block n : ℕ)
    → initial_block ≤ current_block
    → initial_block ≤ n
    → Asked (block_ranges (some (suc b)) current_block initial_block) n
      ↔ ((suc b < n) ⊎ (current_block ≤ n + 100))
unfolding block_ranges ◌+ℤ◌
ranges_resume b current initial n h k = (λ w. ground arith, λ w. ground arith)

-- Where the app was installed at least two blocks ago, no block is asked for twice: the two queries
-- and the subscription have no block in common.
pub ranges_disjoint :
    (cached_block_number : Option ℕ) (current_block initial_block n : ℕ)
    → initial_block + 1 < current_block
    → let r = block_ranges cached_block_number current_block initial_block in
      ¬ (Within r.cached_past n × Within r.recent_past n)
      × ¬ (Within r.cached_past n × (r.current_from ≤ℤ pos n))
      × ¬ (Within r.recent_past n × (r.current_from ≤ℤ pos n))
unfolding block_ranges ◌+ℤ◌
ranges_disjoint cached current initial n h =
    (λ w. ground arith, λ w. ground arith, λ w. ground arith)

-- Right after the installation the last block before the subscription, or the current one, is
-- delivered twice: where the app was installed in the block before the current one, both queries ask
-- for it, and where in the current one, the query and the subscription do.
pub ranges_overlap :
    (current_block : ℕ)
    → (let r = block_ranges none (suc current_block) current_block in
        Within r.cached_past current_block × Within r.recent_past current_block)
      × (let r = block_ranges none current_block current_block in
          Within r.cached_past current_block × (r.current_from ≤ℤ pos current_block))
unfolding block_ranges ◌+ℤ◌
ranges_overlap current = ((ground arith, ground arith), (ground arith, ground arith))
