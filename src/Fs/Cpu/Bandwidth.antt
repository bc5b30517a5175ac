-- ===== src/Fs/Cpu/Bandwidth.antt =====
-- That the order of the writes of cgroups/fs/cpu.go is one that the kernel takes.
use libcontainer.Prelude.{ℕ, ◌*◌, ◌≡◌, Bool, true, false, leb, ok, err}
use libcontainer.Prelude.Int.{ℤ, pos, negsuc}
use libcontainer.Fs.{invalid, Status, Files}
use libcontainer.Fs.Cpu.{CpuFile}

-- A quota for a period within the parent's ratio, `most` to `unit`; a quota below 0 is none.
abbrev pub fits : ℕ → ℕ → ℕ → ℤ → Bool
fits most unit period (pos quota) = leb (quota * unit) (most * period)
fits most unit period (negsuc n) = true

-- What the kernel documents of a pair of files: it has a range of periods and of quotas, and a write
-- of a value in its range is taken if the pair that it makes is within the ratio of the parent, and
-- else it fails with EINVAL and changes nothing.
pub record BandwidthKernel {S : Type 0} (files : Files CpuFile S) (period_file quota_file : CpuFile)
    : Type 0 where
  pub period : S → ℕ
  pub quota : S → ℤ
  pub most : ℕ
  pub unit : ℕ
  pub period_allowed : ℕ → Bool
  pub quota_allowed : ℤ → Bool
  pub within : (s : S) → fits most unit (period s) (quota s) ≡ true
  pub takes_period :
      (p : ℕ) (s : S)
      → period_allowed p ≡ true
      → fits most unit p (quota s) ≡ true
      → ((files.write period_file (pos p) s).0 ≡ ok tt)
        × (period (files.write period_file (pos p) s).1 ≡ p)
        × (quota (files.write period_file (pos p) s).1 ≡ quota s)
  pub refuses_period :
      (p : ℕ) (s : S)
      → period_allowed p ≡ true
      → fits most unit p (quota s) ≡ false
      → files.write period_file (pos p) s ≡ (err invalid, s)
  pub takes_quota :
      (q : ℤ) (s : S)
      → quota_allowed q ≡ true
      → fits most unit (period s) q ≡ true
      → ((files.write quota_file q s).0 ≡ ok tt)
        × (quota (files.write quota_file q s).1 ≡ q)
        × (period (files.write quota_file q s).1 ≡ period s)

module _ {S : Type 0} (files : Files CpuFile S) (period_file quota_file : CpuFile)
    (k : BandwidthKernel files period_file quota_file) where
  abbrev pub SetsPair : ℕ → ℤ → Status × S → Type 0
  SetsPair p q r = (r.0 ≡ ok tt) × (k.period r.1 ≡ p) × (k.quota r.1 ≡ q)
