-- ===== src/Fs/Cpu.antt =====
-- cgroups/fs/cpu.go: shares, and the pairs of a period and a quota of the CFS and of the real-time
-- scheduler, which the kernel takes only in some orders.
pub mod Bandwidth
use libcontainer.Prelude.{
  ℕ, Bool, true, false, ◌&&◌, ◌||◌, not, Option, none, some, ltb, if◌then◌else◌, Result, ok, err,
}
use libcontainer.Prelude.Int.{ℤ, pos, eq_ℤ}
use libcontainer.Fs.{
  FsError, invalid, shares_above_maximum, shares_below_minimum, Status, Files, ◌>>◌,
}

pub data CpuFile : Type 0 where
  shares cfs_period cfs_quota rt_period rt_runtime : CpuFile

-- the fields of `Resources` that this controller reads
pub record Resources : Type 0 where
  pub cpu_shares : ℕ
  pub cpu_period : ℕ
  pub cpu_quota : ℤ
  pub cpu_rt_period : ℕ
  pub cpu_rt_runtime : ℤ

abbrev pub is_invalid : FsError → Bool
is_invalid invalid = true
is_invalid e = false

module _ {S : Type 0} (files : Files CpuFile S) where
  -- after the first write of a period: whether it is to be written again, behind the quota
  abbrev pub period_result : ℤ → Status × S → Result {0, 0} FsError Bool × S
  period_result quota (ok _, s) = (ok false, s)
  period_result quota (err e, s) =
      if not (is_invalid e) || eq_ℤ quota (pos 0) then (err e, s) else (ok true, s)

  abbrev pub write_quota : CpuFile → CpuFile → ℕ → ℤ → Result {0, 0} FsError Bool × S → Status × S
  write_quota period_file quota_file period quota (err e, s) = (err e, s)
  write_quota period_file quota_file period quota (ok again, s) =
      if eq_ℤ quota (pos 0)
      then (ok tt, s)
      else files.write quota_file quota s >> λ s.
          if again then files.write period_file (pos period) s else (ok tt, s)

  -- `SetRtSched`, and the same steps on the files of the CFS in `Set`
  unfoldable pub set_pair : CpuFile → CpuFile → ℕ → ℤ → S → Status × S
  set_pair period_file quota_file period quota s = write_quota period_file quota_file period quota (
      if eq_ℤ (pos period) (pos 0)
      then (ok false, s)
      else period_result quota (files.write period_file (pos period) s))

  abbrev pub set_rt_sched : Resources → S → Status × S
  set_rt_sched r s = set_pair rt_period rt_runtime r.cpu_rt_period r.cpu_rt_runtime s

  abbrev pub set_cfs : Resources → S → Status × S
  set_cfs r s = set_pair cfs_period cfs_quota r.cpu_period r.cpu_quota s

  -- the shares, read back and compared
  abbrev pub check_shares : ℕ → S → Status × S
  check_shares wanted s = elim (files.read shares s) [
    | err e ↦ (err e, s)
    | ok got ↦
        (if ltb got wanted
          then (err shares_above_maximum, s)
          else if ltb wanted got
          then (err shares_below_minimum, s)
          else (ok tt, s))
  ]

  unfoldable pub set_shares : ℕ → S → Status × S
  set_shares wanted s =
      if eq_ℤ (pos wanted) (pos 0)
      then (ok tt, s)
      else (files.write shares (pos wanted) s >> check_shares wanted)

  -- `Set` of CpuGroup
  unfoldable pub set : Resources → S → Status × S
  unfolding set_shares set_pair
  set r s = set_shares r.cpu_shares s >> set_cfs r >> set_rt_sched r
