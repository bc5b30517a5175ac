-- ===== src/Fs/Memory/Limits.antt =====
-- That the order of the writes of cgroups/fs/memory.go is one that the kernel takes.
use libcontainer.Prelude.{
  ℕ, zero, suc, ◌≤◌, ◌<◌, ◌^◌, ◌≡◌, false, ltb, arith, ok, Bool-cases, inl, inr,
}
use libcontainer.Prelude.Int.{ℤ, pos, negsuc, eq_ℤ}
use libcontainer.Fs.{Status, Files}
use libcontainer.Fs.Memory.{
  MemoryFile, limit, memsw_limit, set_memory, set_swap, set_limits, swap_first, memory_first,
}

-- -1, or a number that an int64 has
abbrev pub IsLimit : ℤ → Type 0
IsLimit (pos n) = n < 2 ^ 63
IsLimit (negsuc n) = n ≡ 0

-- What the kernel documents of the two limits, which it keeps in whole pages: `bound` is the limit,
-- in bytes, that a written number asks for, and a limit in force that is not above the number is not
-- above its `bound`. Each read gives the limit in force. A limit of memory is taken that is not above
-- the limit of memory and swap and not below the usage of memory, and a limit of memory and swap that
-- is not below the limit of memory and not below the usage of memory and swap.
pub record MemoryKernel {S : Type 0} (files : Files MemoryFile S) : Type 0 where
  pub memory_limit : S → ℕ
  pub swap_limit : S → ℕ
  pub in_use : S → ℕ
  pub swap_in_use : S → ℕ
  pub bound : ℤ → ℕ
  pub rounds_down : (n : ℕ) → bound (pos n) ≤ n
  pub whole_pages : (n : ℕ) (s : S) → memory_limit s ≤ n → memory_limit s ≤ bound (pos n)
  pub bound_unlimited : (v : ℤ) → bound v ≤ bound (negsuc 0)
  pub ordered : (s : S) → memory_limit s ≤ swap_limit s
  pub bounded : (s : S) → swap_limit s ≤ bound (negsuc 0)
  pub reads : (s : S) → files.read limit s ≡ ok (memory_limit s)
  pub takes_memory :
      (v : ℤ) (s : S)
      → IsLimit v
      → bound v ≤ swap_limit s
      → in_use s ≤ bound v
      → ((files.write limit v s).0 ≡ ok tt)
        × (memory_limit (files.write limit v s).1 ≡ bound v)
        × (swap_limit (files.write limit v s).1 ≡ swap_limit s)
        × (swap_in_use (files.write limit v s).1 ≡ swap_in_use s)
  pub takes_swap :
      (v : ℤ) (s : S)
      → IsLimit v
      → memory_limit s ≤ bound v
      → swap_in_use s ≤ bound v
      → ((files.write memsw_limit v s).0 ≡ ok tt)
        × (swap_limit (files.write memsw_limit v s).1 ≡ bound v)
        × (memory_limit (files.write memsw_limit v s).1 ≡ memory_limit s)
        × (in_use (files.write memsw_limit v s).1 ≡ in_use s)

module _ {S : Type 0} (files : Files MemoryFile S) (k : MemoryKernel files) where
  abbrev pub Sets : ℤ → ℤ → Status × S → Type 0
  Sets memory swap r =
      (r.0 ≡ ok tt) × (k.memory_limit r.1 ≡ k.bound memory) × (k.swap_limit r.1 ≡ k.bound swap)

  -- New limits of memory and of memory and swap, both set, in order and not below what is in use.
  pub record AreWanted (memory swap : ℤ) (s : S) : Type 0 where
    pub memory_set : eq_ℤ memory (pos 0) ≡ false
    pub swap_set : eq_ℤ swap (pos 0) ≡ false
    pub memory_limit : IsLimit memory
    pub swap_limit : IsLimit swap
    pub in_order : k.bound memory ≤ k.bound swap
    pub memory_fits : k.in_use s ≤ k.bound memory
    pub swap_fits : k.swap_in_use s ≤ k.bound swap

  memory_first-Sets :
      (memory swap : ℤ) (s : S)
      → AreWanted memory swap s
      → k.bound memory ≤ k.swap_limit s
      → Sets memory swap (memory_first files memory swap s)
  unfolding set_memory set_swap
  memory_first-Sets memory swap s w le =
      let taken = k.takes_memory memory s w.memory_limit le w.memory_fits in
      let then = k.takes_swap swap (files.write limit memory s).1 w.swap_limit in
      ground (arith, w.memory_set, w.swap_set, w.in_order, w.swap_fits, taken, then)

  swap_first-Sets :
      (memory swap : ℤ) (s : S)
      → AreWanted memory swap s
      → k.memory_limit s ≤ k.bound swap
      → Sets memory swap (swap_first files memory swap s)
  unfolding set_memory set_swap
  swap_first-Sets memory swap s w le =
      let taken = k.takes_swap swap s w.swap_limit le w.swap_fits in
      let then = k.takes_memory memory (files.write memsw_limit swap s).1 w.memory_limit in
      ground (arith, w.memory_set, w.swap_set, w.in_order, w.memory_fits, taken, then)

  -- Whatever the limits in force, new limits of memory and of memory and swap that are both set, in
  -- order, and not below the usage of memory and the usage of memory and swap are taken by the kernel
  -- in the order in which they are written; the limits in force are then those that the kernel makes
  -- of the two, in whole pages.
  pub set_limits-Sets :
      (memory swap : ℤ) (s : S)
      → AreWanted memory swap s
      → Sets memory swap (set_limits files memory swap s)
  unfolding set_limits
  set_limits-Sets memory (negsuc zero) s w =
      rw (w.memory_set, k.reads s)
        (swap_first-Sets memory (negsuc zero) s w (omega (arith, k.ordered s, k.bounded s)))
  set_limits-Sets memory (negsuc (suc n)) s w = absurd (omega (arith, w.swap_limit))
  set_limits-Sets memory (pos n) s w = elim (Bool-cases (ltb (k.memory_limit s) n)) [
    | inl grow ↦
        rw (w.memory_set, w.swap_set, k.reads s, grow)
          (swap_first-Sets memory (pos n) s w (k.whole_pages n s (ground arith)))
    | inr shrink ↦
        rw (w.memory_set, w.swap_set, k.reads s, shrink)
          (memory_first-Sets memory (pos n) s w
            (ground (arith, w.in_order, k.rounds_down n, k.ordered s)))
  ]
