-- ===== src/Tests/Convert.antt =====
-- The conversions of cgroup values at concrete inputs.
use libcontainer.Prelude.{◌≡◌, refl, ◌<◌, ◌≤◌, arith, ok}
use libcontainer.Prelude.Int.{pos}
use libcontainer.Convert.{convert_cpu_shares, convert_blkio_weight, convert_memory_swap}
use libcontainer.Convert.Bounds.{IsScaled, convert_bounds}

convert_bounds_example :
    IsScaled 2 262142 1024 (convert_cpu_shares 1024)
    × (convert_cpu_shares 1024 ≤ 10000)
    × IsScaled 10 990 500 (convert_blkio_weight 500)
    × (convert_blkio_weight 500 ≤ 10000)
    × (10000 < convert_cpu_shares 1)
    × (10000 < convert_blkio_weight 7)
convert_bounds_example =
    convert_bounds 1024 500 7 (omega arith) (omega arith) (omega arith) (omega arith) (omega arith)
      (omega arith)

swap_run : convert_memory_swap (pos 700) (pos 500) ≡ ok (pos 200)
unfolding convert_memory_swap
swap_run = refl
