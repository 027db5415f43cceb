-- ===== src/Fsm/Update/Index.antt =====
-- The fixed-width integers in which the indexes are stored.
use regatta.Prelude.{ℕ, zero, suc, ◌/◌, ◌^◌, ◌<◌, ◌≡◌, refl, ap, length, arith}
use regatta.Result.{ok}
use regatta.Fsm.Keys.Increment.{weight}
use regatta.Fsm.Update.{put_uint, uint, uint64}

pub length-put_uint : (k n : ℕ) → length (put_uint k n) ≡ k
unfolding put_uint
length-put_uint zero n = refl
length-put_uint (suc k) n = ap suc (length-put_uint k (n / 256))

pub uint-put_uint : (k n : ℕ) → n < weight k → uint (put_uint k n) ≡ n
unfolding put_uint uint
uint-put_uint zero n h = omega arith
uint-put_uint (suc k) n h = omega (arith, uint-put_uint k (n / 256) (omega arith))

-- Uint64 after PutUint64 gives every number below 2 ^ 64 back.
pub uint64-put_uint : (n : ℕ) → n < 2 ^ 64 → uint64 (put_uint 8 n) ≡ ok n
unfolding uint64
uint64-put_uint n h = rw (length-put_uint 8 n, uint-put_uint 8 n h)
