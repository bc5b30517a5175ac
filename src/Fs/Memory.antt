-- ===== src/Fs/Memory.antt =====
-- cgroups/fs/memory.go: the limits of memory. An int64 or uint64 is a number in its range.
pub mod Limits
use libcontainer.Prelude.{
  ℕ, ◌+◌, ◌-◌, ◌^◌, Bool, true, false, ◌&&◌, ◌||◌, not, Option, none, some, ltb, leb, if◌then◌else◌,
  Result, ok, err,
}
use libcontainer.Prelude.Int.{ℤ, pos, negsuc, eq_ℤ}
use libcontainer.Fs.{FsError, busy, limit_below_usage, invalid_swappiness, Status, Files, ◌>>◌}

pub data MemoryFile : Type 0 where
  limit memsw_limit usage max_usage soft_limit oom_control swappiness : MemoryFile

-- the fields of `Resources` that this controller reads
pub record Resources : Type 0 where
  pub memory : ℤ
  pub memory_swap : ℤ
  pub memory_reservation : ℤ
  pub oom_kill_disable : Bool
  pub memory_swappiness : Option ℕ

module _ {S : Type 0} (files : Files MemoryFile S) where
  -- after a write that the kernel refused since the limit is below the usage
  abbrev pub explain_busy : S → Status × S
  explain_busy s = elim (files.read usage s) [
    | err e ↦ (err e, s)
    | ok _ ↦ elim (files.read max_usage s) [
      | err e ↦ (err e, s)
      | ok _ ↦ (err limit_below_usage, s)
    ]
  ]

  abbrev pub after_limit : Status × S → Status × S
  after_limit (err busy, s) = explain_busy s
  after_limit (r, s) = (r, s)

  unfoldable pub set_memory : ℤ → S → Status × S
  set_memory val s = if eq_ℤ val (pos 0) then (ok tt, s) else after_limit (files.write limit val s)

  unfoldable pub set_swap : ℤ → S → Status × S
  set_swap val s = if eq_ℤ val (pos 0) then (ok tt, s) else files.write memsw_limit val s

  -- `uint64(r.MemorySwap)`
  abbrev pub uint64 : ℤ → ℕ
  uint64 (pos n) = n
  uint64 (negsuc n) = 2 ^ 64 - 1 - n

  -- the swap limit that is set in place of an unset one
  unfoldable pub effective_swap : Resources → S → ℤ
  effective_swap r s =
      if (eq_ℤ r.memory (negsuc 0) && eq_ℤ r.memory_swap (pos 0)) && files.exists memsw_limit s
      then negsuc 0
      else r.memory_swap

  abbrev pub swap_first : ℤ → ℤ → S → Status × S
  swap_first memory swap s = set_swap swap s >> set_memory memory

  abbrev pub memory_first : ℤ → ℤ → S → Status × S
  memory_first memory swap s = set_memory memory s >> set_swap swap

  unfoldable pub set_limits : ℤ → ℤ → S → Status × S
  set_limits memory swap s =
      if not (eq_ℤ memory (pos 0)) && not (eq_ℤ swap (pos 0))
      then elim (files.read limit s) [
        | err e ↦ (err e, s)
        | ok cur_limit ↦
            (if eq_ℤ swap (negsuc 0) || ltb cur_limit (uint64 swap)
              then swap_first memory swap s
              else memory_first memory swap s)
      ]
      else memory_first memory swap s

  unfoldable pub set_memory_and_swap : Resources → S → Status × S
  unfolding effective_swap set_limits
  set_memory_and_swap r s = set_limits r.memory (effective_swap r s) s

  -- a swappiness of 2 ^ 64 - 1 is -1 as an int64
  unfoldable pub set_swappiness : Option ℕ → S → Status × S
  set_swappiness none s = (ok tt, s)
  set_swappiness (some n) s =
      if eq_ℤ (pos n) (pos (2 ^ 64 - 1))
      then (ok tt, s)
      else if leb n 100
      then files.write swappiness (pos n) s
      else (err invalid_swappiness, s)

  -- `Set` of MemoryGroup
  unfoldable pub set : Resources → S → Status × S
  unfolding set_memory_and_swap set_swappiness
  set r s =
      set_memory_and_swap r s
      >> (λ s.
          if eq_ℤ r.memory_reservation (pos 0)
          then (ok tt, s)
          else files.write soft_limit r.memory_reservation s)
      >> (λ s. if r.oom_kill_disable then files.write oom_control (pos 1) s else (ok tt, s))
      >> set_swappiness r.memory_swappiness
