-- ===== src/Scramble/Rand.antt =====
-- src/scramble.rs, `Rand323`: its sums stay within words of 32 bits.
use rust_mysql_common.Base.{ℕ, ◌+◌, ◌*◌, ◌^◌, ◌<◌, arith}
use rust_mysql_common.Scramble.{Rand323, max_value, init, my_rnd}

-- A generator that `init` and `my_rnd` give.
pub data Reached : Rand323 → Type 0 where
  from_init : (seed1 seed2 : ℕ) → Reached (init seed1 seed2)
  by_rnd : (r : Rand323) → Reached r → Reached (my_rnd r)

-- Both seeds of every generator that is reached are below `max_value`, and the sums of the next
-- `my_rnd`, which are not computed with wrapping operations, are below 2 ^ 32.
pub Reached-fits :
    (r : Rand323)
    → Reached r
    → (r.seed1 < max_value)
      × (r.seed2 < max_value)
      × (r.seed1 * 3 + r.seed2 < 2 ^ 32)
      × ((my_rnd r).seed1 + r.seed2 + 33 < 2 ^ 32)
unfolding init my_rnd
Reached-fits r (from_init seed1 seed2) = (omega arith, omega arith, omega arith, omega arith)
Reached-fits r (by_rnd q h) = (omega arith, omega arith, omega arith, omega arith)
