-- ===== src/Convert.antt =====
-- The conversions of cgroups/utils.go from cgroup v1 values to cgroup v2 values. A uint64 is a
-- number with its wrap-around written out.
pub mod Bounds
use libcontainer.Prelude.{
  ℕ, zero, suc, ◌+◌, ◌-◌, ◌*◌, ◌/◌, ◌%◌, ◌^◌, Bool, true, false, ◌&&◌, ◌||◌, ltb, ◌==◌,
  if◌then◌else◌, Result, ok, err,
}
use libcontainer.Prelude.Int.{ℤ, pos, negsuc, eq_ℤ, ltb_ℤ}

-- subtraction, product and sum of uint64
abbrev pub sub_u64 : ℕ → ℕ → ℕ
sub_u64 a b = (a + 2 ^ 64 - b) % 2 ^ 64

abbrev pub mul_u64 : ℕ → ℕ → ℕ
mul_u64 a b = a * b % 2 ^ 64

abbrev pub add_u64 : ℕ → ℕ → ℕ
add_u64 a b = (a + b) % 2 ^ 64

-- `ConvertCPUSharesToCgroupV2Value`
unfoldable pub convert_cpu_shares : ℕ → ℕ
convert_cpu_shares cpu_shares =
    if cpu_shares == 0 then 0 else add_u64 1 (mul_u64 (sub_u64 cpu_shares 2) 9999 / 262142)

-- `ConvertBlkIOToIOWeightValue`
unfoldable pub convert_blkio_weight : ℕ → ℕ
convert_blkio_weight weight =
    if weight == 0 then 0 else add_u64 1 (mul_u64 (sub_u64 weight 10) 9999 / 990)

pub data Error : Type 0 where
  no_memory_limit invalid_memory swap_below_memory : Error

-- `memorySwap - memory` of int64, where neither is negative and it cannot wrap
abbrev pub positive_difference : ℤ → ℤ → ℤ
positive_difference (pos a) (pos b) = pos (a - b)
positive_difference a b = a

-- `ConvertMemorySwapToCgroupV2Value`
unfoldable pub convert_memory_swap : ℤ → ℤ → Result Error ℤ
convert_memory_swap swap memory =
    if eq_ℤ memory (negsuc 0) && eq_ℤ swap (pos 0)
    then ok (negsuc 0)
    else if eq_ℤ swap (negsuc 0) || eq_ℤ swap (pos 0)
    then ok swap
    else if eq_ℤ memory (pos 0) || eq_ℤ memory (negsuc 0)
    then err no_memory_limit
    else if ltb_ℤ memory (pos 0)
    then err invalid_memory
    else if ltb_ℤ swap memory
    then err swap_below_memory
    else ok (positive_difference swap memory)
