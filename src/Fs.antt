-- ===== src/Fs.antt =====
-- What the controllers of cgroups/fs share: the files of a cgroup as an interface. A write takes the
-- number whose decimal text is written, and a read gives the number that GetCgroupParamUint makes of
-- the file.
pub mod Memory
pub mod Cpu
use libcontainer.Prelude.{ℕ, Bool, Result, ok, err}
use libcontainer.Prelude.Int.{ℤ}

-- the errors of a read or write, by their errno, and those of the controllers
pub data FsError : Type 0 where
  invalid busy not_exist io_failed : FsError
  limit_below_usage invalid_swappiness shares_above_maximum shares_below_minimum : FsError

abbrev pub Status : Type 0
Status = Result {0, 0} FsError Unit

-- the files `F` of one cgroup, whose state is `S`
pub record Files (F S : Type 0) : Type 0 where
  pub write : F → ℤ → S → Status × S
  pub read : F → S → Result FsError ℕ
  pub exists : F → S → Bool

-- `if err := …; err != nil { return err }`
infixl 5 ◌>>◌
abbrev pub ◌>>◌ : {S : Type 0} → Status × S → (S → Status × S) → Status × S
(err e, s) >> rest = (err e, s)
(ok _, s) >> rest = rest s
