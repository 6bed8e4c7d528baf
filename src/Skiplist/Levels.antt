-- ===== src/Skiplist/Levels.antt =====
-- The levels of a new item of src/map/unsafe_skiplist.c.
use ssr.Base.{ℕ, ◌+◌, ◌≤◌, arith}
use ssr.Skiplist.{Sl, random_levels, max_levels}

-- A new item has at least one level, and no more than MAX_LEVELS or the high-water mark, which rises
-- by one at most.
pub random_levels-bound :
    (sl : Sl) (z : ℕ)
    → 1 ≤ sl.high_water
    → (1 ≤ (random_levels sl z).0)
      × ((random_levels sl z).0 ≤ max_levels)
      × ((random_levels sl z).0 ≤ (random_levels sl z).1.high_water)
      × (sl.high_water ≤ (random_levels sl z).1.high_water)
      × ((random_levels sl z).1.high_water ≤ sl.high_water + 1)
unfolding random_levels
random_levels-bound sl z pos =
    (ground arith, ground arith, ground arith, ground arith, ground arith)
