-- ===== src/Tests/Fs.antt =====
-- The controllers at concrete kernels.
use libcontainer.Prelude.{
  ℕ, ◌+◌, ◌-◌, ◌*◌, ◌/◌, ◌&&◌, Bool, ◌^◌, ◌≤◌, ◌≡◌, refl, true, false, leb, ltb, arith,
  if◌then◌else◌, ok, err,
}
use libcontainer.Prelude.Int.{ℤ, pos, negsuc}
use libcontainer.Fs.{invalid, Status, Files}
use libcontainer.Fs.Memory.{MemoryFile, limit, memsw_limit, set_limits}
use libcontainer.Fs.Memory.Limits.{MemoryKernel, set_limits-Sets, Sets}
use libcontainer.Fs.Cpu.{CpuFile, cfs_period, cfs_quota}
use libcontainer.Fs.Cpu.Bandwidth.{BandwidthKernel, fits}

-- the two limits in pages of 4096 bytes, as the first and the room above it, under the largest
-- number; nothing is in use
abbrev Limits : Type 0
Limits = ℕ × ℕ

abbrev largest : ℕ
largest = 2 ^ 51 - 1

abbrev capped : ℕ → ℕ
capped n = if ltb largest n then largest else n

abbrev pages : ℤ → ℕ
pages (pos n) = capped (n / 4096)
pages (negsuc n) = largest

abbrev swap_of : Limits → ℕ
swap_of s = capped (s.0 + s.1)

abbrev write_memory : MemoryFile → ℤ → Limits → Status × Limits
write_memory limit v s =
    if leb (pages v) (swap_of s) then (ok tt, (pages v, swap_of s - pages v)) else (err invalid, s)
write_memory memsw_limit v s =
    if leb (capped s.0) (pages v)
    then (ok tt, (capped s.0, pages v - capped s.0))
    else (err invalid, s)
write_memory f v s = (ok tt, s)

abbrev memory_files : Files MemoryFile Limits
memory_files = record {
  write = write_memory;
  read = λ f s. ok (4096 * capped s.0);
  exists = λ f s. true;
}

takes_memory_lem :
    (v : ℤ) (s : Limits)
    → 4096 * pages v ≤ 4096 * swap_of s
    → ((write_memory limit v s).0 ≡ ok tt)
      × (4096 * capped (write_memory limit v s).1.0 ≡ 4096 * pages v)
      × (4096 * swap_of (write_memory limit v s).1 ≡ 4096 * swap_of s)
      × (◌≡◌ {A = ℕ} 0 0)
takes_memory_lem (pos n) s h = ground arith
takes_memory_lem (negsuc n) s h = ground arith

takes_swap_lem :
    (v : ℤ) (s : Limits)
    → 4096 * capped s.0 ≤ 4096 * pages v
    → ((write_memory memsw_limit v s).0 ≡ ok tt)
      × (4096 * swap_of (write_memory memsw_limit v s).1 ≡ 4096 * pages v)
      × (4096 * capped (write_memory memsw_limit v s).1.0 ≡ 4096 * capped s.0)
      × (◌≡◌ {A = ℕ} 0 0)
takes_swap_lem (pos n) s h = ground arith
takes_swap_lem (negsuc n) s h = ground arith

bound_unlimited_lem : (v : ℤ) → 4096 * pages v ≤ 4096 * largest
bound_unlimited_lem (pos n) = ground arith
bound_unlimited_lem (negsuc n) = ground arith

rounds_down_lem : (n : ℕ) → 4096 * pages (pos n) ≤ n
rounds_down_lem n = ground arith

whole_pages_lem :
    (n : ℕ) (s : Limits) → 4096 * capped s.0 ≤ n → 4096 * capped s.0 ≤ 4096 * pages (pos n)
whole_pages_lem n s h = ground arith

ordered_lem : (s : Limits) → 4096 * capped s.0 ≤ 4096 * swap_of s
ordered_lem s = ground arith

bounded_lem : (s : Limits) → 4096 * swap_of s ≤ 4096 * largest
bounded_lem s = ground arith

memory_kernel : MemoryKernel memory_files
memory_kernel = record {
  memory_limit = λ s. 4096 * capped s.0;
  swap_limit = λ s. 4096 * swap_of s;
  in_use = λ s. 0;
  swap_in_use = λ s. 0;
  bound = λ v. 4096 * pages v;
  rounds_down = rounds_down_lem;
  whole_pages = whole_pages_lem;
  bound_unlimited = bound_unlimited_lem;
  ordered = ordered_lem;
  bounded = bounded_lem;
  reads = λ s. refl;
  takes_memory = λ v s is le fits. takes_memory_lem v s le;
  takes_swap = λ v s is le fits. takes_swap_lem v s le;
}

set_limits-Sets_example :
    Sets memory_files memory_kernel
      (pos 30000)
      (pos 50000)
      (set_limits memory_files (pos 30000) (pos 50000) (3, 2))
unfolding memory_kernel
set_limits-Sets_example =
    set_limits-Sets memory_files memory_kernel (pos 30000) (pos 50000) (3, 2)
      (record {
        memory_set = refl;
        swap_set = refl;
        memory_limit = omega arith;
        swap_limit = omega arith;
        in_order = omega arith;
        memory_fits = omega arith;
        swap_fits = omega arith;
      })

-- a period and the quota asked for last, in a parent that gives one CPU in two
abbrev Pair : Type 0
Pair = ℕ × ℤ

abbrev quota_of : Pair → ℤ
quota_of s = if fits 1 2 s.0 s.1 then s.1 else negsuc 0

abbrev write_pair : CpuFile → ℤ → Pair → Status × Pair
write_pair cfs_period (pos p) s =
    if fits 1 2 p (quota_of s) then (ok tt, (p, quota_of s)) else (err invalid, s)
write_pair cfs_quota q s = if fits 1 2 s.0 q then (ok tt, (s.0, q)) else (err invalid, s)
write_pair f v s = (err invalid, s)

abbrev cpu_files : Files CpuFile Pair
cpu_files = record { write = write_pair; read = λ f s. ok 0; exists = λ f s. true }

within_lem : (s : Pair) → fits 1 2 s.0 (quota_of s) ≡ true
within_lem (p, pos q) = ground arith
within_lem (p, negsuc q) = ground arith

takes_period_lem :
    (p : ℕ) (s : Pair)
    → fits 1 2 p (quota_of s) ≡ true
    → ((write_pair cfs_period (pos p) s).0 ≡ ok tt)
      × ((write_pair cfs_period (pos p) s).1.0 ≡ p)
      × (quota_of (write_pair cfs_period (pos p) s).1 ≡ quota_of s)
takes_period_lem p s h = rw h (refl, refl, rw h)

refuses_period_lem :
    (p : ℕ) (s : Pair)
    → fits 1 2 p (quota_of s) ≡ false
    → write_pair cfs_period (pos p) s ≡ (err invalid, s)
refuses_period_lem p s h = rw h

takes_quota_lem :
    (q : ℤ) (s : Pair)
    → fits 1 2 s.0 q ≡ true
    → ((write_pair cfs_quota q s).0 ≡ ok tt)
      × (quota_of (write_pair cfs_quota q s).1 ≡ q)
      × ((write_pair cfs_quota q s).1.0 ≡ s.0)
takes_quota_lem q s h = rw h (refl, rw h, refl)

-- 1 ms at least, or none
abbrev quota_allowed : ℤ → Bool
quota_allowed (pos q) = leb 1000 q
quota_allowed (negsuc n) = true

cfs_kernel : BandwidthKernel cpu_files cfs_period cfs_quota
cfs_kernel = record {
  period = λ s. s.0;
  quota = quota_of;
  most = 1;
  unit = 2;
  period_allowed = λ p. leb 1000 p && leb p 1000000;
  quota_allowed = quota_allowed;
  within = within_lem;
  takes_period = λ p s a. takes_period_lem p s;
  refuses_period = λ p s a. refuses_period_lem p s;
  takes_quota = λ q s a. takes_quota_lem q s;
}
