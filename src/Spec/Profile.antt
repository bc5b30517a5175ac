-- ===== src/Spec/Profile.antt =====
-- The seccomp profile of a specification: `SetupSeccomp` of specconv/spec_linux.go with the tables
-- of seccomp/config.go.
pub mod Expanded
use libcontainer.Prelude.{
  ℕ, Bool, true, false, ◌&&◌, not, List, [], ◌∷◌, ◌++◌, map, Option, none, some, bytes_eq,
  if◌then◌else◌, Result, ok, err, ◌>>=◌,
}
use libcontainer.Text.{Bytes, codes}
use libcontainer.Spec.Mounts.{find}

-- `Operator` and `Action` of configs/config.go
pub data Operator : Type 0 where
  equal_to not_equal_to greater_than greater_than_or_equal_to less_than : Operator
  less_than_or_equal_to mask_equal_to : Operator

pub data Action : Type 0 where
  kill errno trap allowed trace log notify kill_thread kill_process : Action

abbrev pub operators : List (Bytes × Operator)
operators =
    (codes "SCMP_CMP_NE", not_equal_to)
    ∷ (codes "SCMP_CMP_LT", less_than)
    ∷ (codes "SCMP_CMP_LE", less_than_or_equal_to)
    ∷ (codes "SCMP_CMP_EQ", equal_to)
    ∷ (codes "SCMP_CMP_GE", greater_than_or_equal_to)
    ∷ (codes "SCMP_CMP_GT", greater_than)
    ∷ (codes "SCMP_CMP_MASKED_EQ", mask_equal_to)
    ∷ []

abbrev pub actions : List (Bytes × Action)
actions =
    (codes "SCMP_ACT_KILL", kill)
    ∷ (codes "SCMP_ACT_ERRNO", errno)
    ∷ (codes "SCMP_ACT_TRAP", trap)
    ∷ (codes "SCMP_ACT_ALLOW", allowed)
    ∷ (codes "SCMP_ACT_TRACE", trace)
    ∷ (codes "SCMP_ACT_LOG", log)
    ∷ (codes "SCMP_ACT_NOTIFY", notify)
    ∷ (codes "SCMP_ACT_KILL_THREAD", kill_thread)
    ∷ (codes "SCMP_ACT_KILL_PROCESS", kill_process)
    ∷ []

abbrev pub archs : List (Bytes × Bytes)
archs =
    (codes "SCMP_ARCH_X86", codes "x86")
    ∷ (codes "SCMP_ARCH_X86_64", codes "amd64")
    ∷ (codes "SCMP_ARCH_X32", codes "x32")
    ∷ (codes "SCMP_ARCH_ARM", codes "arm")
    ∷ (codes "SCMP_ARCH_AARCH64", codes "arm64")
    ∷ (codes "SCMP_ARCH_MIPS", codes "mips")
    ∷ (codes "SCMP_ARCH_MIPS64", codes "mips64")
    ∷ (codes "SCMP_ARCH_MIPS64N32", codes "mips64n32")
    ∷ (codes "SCMP_ARCH_MIPSEL", codes "mipsel")
    ∷ (codes "SCMP_ARCH_MIPSEL64", codes "mipsel64")
    ∷ (codes "SCMP_ARCH_MIPSEL64N32", codes "mipsel64n32")
    ∷ (codes "SCMP_ARCH_PPC", codes "ppc")
    ∷ (codes "SCMP_ARCH_PPC64", codes "ppc64")
    ∷ (codes "SCMP_ARCH_PPC64LE", codes "ppc64le")
    ∷ (codes "SCMP_ARCH_RISCV64", codes "riscv64")
    ∷ (codes "SCMP_ARCH_S390", codes "s390")
    ∷ (codes "SCMP_ARCH_S390X", codes "s390x")
    ∷ []

pub data Error : Type 0 where
  bad_operator bad_action bad_arch flags_unsupported : Error

abbrev pub known {ℓ} : {A : Type ℓ} → Error → Option A → Result Error A
known e none = err e
known e (some x) = ok x

-- `ConvertStringToOperator`, `ConvertStringToAction` and `ConvertStringToArch`
abbrev pub convert_string_to_operator : Bytes → Result Error Operator
convert_string_to_operator s = known bad_operator (find operators s)

abbrev pub convert_string_to_action : Bytes → Result Error Action
convert_string_to_action s = known bad_action (find actions s)

abbrev pub convert_string_to_arch : Bytes → Result Error Bytes
convert_string_to_arch s = known bad_arch (find archs s)

-- `LinuxSeccompArg`, `LinuxSyscall` and `LinuxSeccomp` of a specification
pub record SpecArg : Type 0 where
  pub index : ℕ
  pub value : ℕ
  pub value_two : ℕ
  pub op : Bytes

pub record SpecSyscall : Type 0 where
  pub names : List Bytes
  pub action : Bytes
  pub errno_ret : Option ℕ
  pub args : List SpecArg

pub record SpecSeccomp : Type 0 where
  pub default_action : Bytes
  pub default_errno_ret : Option ℕ
  pub architectures : List Bytes
  pub flags : List Bytes
  pub listener_path : Bytes
  pub listener_metadata : Bytes
  pub syscalls : List SpecSyscall

-- `Arg`, `Syscall` and `Seccomp` of configs/config.go
pub record Arg : Type 0 where
  pub index : ℕ
  pub value : ℕ
  pub value_two : ℕ
  pub op : Operator

pub record Syscall : Type 0 where
  pub name : Bytes
  pub action : Action
  pub errno_ret : Option ℕ
  pub args : List Arg

pub record Seccomp : Type 0 where
  pub default_action : Action
  pub architectures : List Bytes
  pub syscalls : List Syscall
  pub default_errno_ret : Option ℕ
  pub listener_path : Bytes
  pub listener_metadata : Bytes

abbrev pub convert_arg : SpecArg → Operator → Arg
convert_arg a op = record { index = a.index; value = a.value; value_two = a.value_two; op = op }

unfoldable pub convert_args : List SpecArg → Result Error (List Arg)
convert_args [] = ok []
convert_args (a ∷ rest) = do
  op ← convert_string_to_operator a.op
  more ← convert_args rest
  ok (convert_arg a op ∷ more)

unfoldable pub convert_archs : List Bytes → Result Error (List Bytes)
convert_archs [] = ok []
convert_archs (arch ∷ rest) = do
  new ← convert_string_to_arch arch
  more ← convert_archs rest
  ok (new ∷ more)

abbrev pub rule_for : SpecSyscall → Action → List Arg → Bytes → Syscall
rule_for call action args name = record {
  name = name;
  action = action;
  errno_ret = call.errno_ret;
  args = args;
}

-- the loop over the names of a block, each with its own conversion of the arguments
unfoldable pub convert_names : SpecSyscall → Action → List Bytes → Result Error (List Syscall)
convert_names call action [] = ok []
convert_names call action (name ∷ rest) = do
  args ← convert_args call.args
  more ← convert_names call action rest
  ok (rule_for call action args name ∷ more)

-- the loop over the blocks
unfoldable pub convert_syscalls : List SpecSyscall → Result Error (List Syscall)
convert_syscalls [] = ok []
convert_syscalls (call ∷ rest) = do
  action ← convert_string_to_action call.action
  own ← convert_names call action call.names
  more ← convert_syscalls rest
  ok (own ++ more)

abbrev pub no_items {ℓ} : {A : Type ℓ} → List A → Bool
no_items [] = true
no_items (x ∷ xs) = false

-- `SetupSeccomp` behind its early returns
unfoldable pub convert_seccomp : SpecSeccomp → Result Error Seccomp
convert_seccomp c = do
  architectures ← convert_archs c.architectures
  action ← convert_string_to_action c.default_action
  syscalls ← convert_syscalls c.syscalls
  ok (record {
    default_action = action;
    architectures = architectures;
    syscalls = syscalls;
    default_errno_ret = c.default_errno_ret;
    listener_path = c.listener_path;
    listener_metadata = c.listener_metadata;
  })

-- `SetupSeccomp`; `none` is nil
unfoldable pub setup_seccomp : Option SpecSeccomp → Result Error (Option Seccomp)
setup_seccomp none = ok none
setup_seccomp (some c) =
    if bytes_eq c.default_action [] && no_items c.syscalls
    then ok none
    else if not (no_items c.flags)
    then err flags_unsupported
    else (convert_seccomp c >>= λ new. ok (some new))
