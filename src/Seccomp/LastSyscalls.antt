-- ===== src/Seccomp/LastSyscalls.antt =====
-- The largest system call of each architecture, and the patch of a configuration:
-- seccomp/patchbpf/enosys_linux.go. What libseccomp answers is a record.
pub mod Patch
pub mod Largest
use libcontainer.Prelude.{
  ℕ, Bool, true, false, ◌&&◌, ◌||◌, not, List, [], ◌∷◌, ◌++◌, Option, none, some, ltb, ◌==◌,
  if◌then◌else◌, any, Result, ok, err, ◌>>=◌, bit_or,
}
use libcontainer.Prelude.Int.{ℤ, pos, negsuc}
use libcontainer.Text.{Bytes}
use libcontainer.Seccomp.{
  ScmpArch, arch_native, arch_x86, arch_amd64, arch_x32, arch_arm, arch_arm64, arch_mips,
  arch_mips64, arch_mips64n32, arch_mipsel, arch_mipsel64, arch_mipsel64n32, arch_ppc, arch_ppc64,
  arch_ppc64le, arch_s390, arch_s390x, arch_riscv64, arch_other, scmp_eq, Header, Error,
  no_native_arch, unknown_architecture, bad_arch_name, ArchEntry, LastSyscallMap, Insn,
  generate_enosys_stub,
}

-- configs.Action
pub data Action : Type 0 where
  kill errno trap allow trace log notify kill_thread kill_process : Action

-- configs.Syscall: the fields that this file reads
pub record Syscall : Type 0 where
  pub name : Bytes
  pub action : Action

-- configs.Seccomp: the same
pub record Config : Type 0 where
  pub default_action : Action
  pub architectures : List Bytes
  pub syscalls : List Syscall
  pub default_errno_ret : Option ℕ

-- the calls of libseccomp
pub record Libseccomp : Type 0 where
  pub arch_from_string : Bytes → Option ScmpArch
  pub native_arch : Option ScmpArch
  pub syscall_number : Bytes → ScmpArch → Option ℤ

unfoldable pub is_allow_action : Action → Bool
is_allow_action allow = true
is_allow_action log = true
is_allow_action trace = true
is_allow_action _ = false

-- the switch but its first case
unfoldable pub audit_number : Header → ScmpArch → Result Error ℕ
audit_number h arch_x86 = ok h.i386
audit_number h arch_amd64 = ok h.x86_64
audit_number h arch_x32 = ok h.x86_64
audit_number h arch_arm = ok h.arm
audit_number h arch_arm64 = ok h.aarch64
audit_number h arch_mips = ok h.mips
audit_number h arch_mips64 = ok h.mips64
audit_number h arch_mips64n32 = ok h.mips64n32
audit_number h arch_mipsel = ok h.mipsel
audit_number h arch_mipsel64 = ok h.mipsel64
audit_number h arch_mipsel64n32 = ok h.mipsel64n32
audit_number h arch_ppc = ok h.ppc
audit_number h arch_ppc64 = ok h.ppc64
audit_number h arch_ppc64le = ok h.ppc64le
audit_number h arch_s390 = ok h.s390
audit_number h arch_s390x = ok h.s390x
audit_number h arch_riscv64 = ok h.riscv64
audit_number h _ = err unknown_architecture

-- `scmpArchToAuditArch`; libseccomp's native architecture is never ArchNative
unfoldable pub scmp_arch_to_audit_arch : Header → Libseccomp → ScmpArch → Result Error ℕ
unfolding audit_number
scmp_arch_to_audit_arch h l a =
    if scmp_eq a arch_native
    then elim l.native_arch [ none ↦ err no_native_arch | some native ↦ audit_number h native ]
    else audit_number h a

-- a set of architectures, in the order of insertion
abbrev pub insert_arch : List ScmpArch → ScmpArch → List ScmpArch
insert_arch archs a = if any (λ b. scmp_eq b a) archs then archs else archs ++ a ∷ []

unfoldable pub named_archs : Libseccomp → List Bytes → List ScmpArch → Result Error (List ScmpArch)
named_archs l [] archs = ok archs
named_archs l (name ∷ names) archs = elim (l.arch_from_string name) [
  | none ↦ err bad_arch_name
  | some a ↦ named_archs l names (insert_arch archs a)
]

-- the set with the native architecture
unfoldable pub configured_archs : Libseccomp → List Bytes → Result Error (List ScmpArch)
unfolding named_archs
configured_archs l names = do
  archs ← named_archs l names []
  elim l.native_arch [ none ↦ err no_native_arch | some a ↦ ok (insert_arch archs a) ]

abbrev pub larger : ℕ → Option ℤ → ℕ
larger n none = n
larger n (some (pos k)) = if ltb n k then k else n
larger n (some (negsuc k)) = n

-- the loop over the rules
unfoldable pub largest_syscall : Libseccomp → ScmpArch → List Syscall → ℕ → ℕ
largest_syscall l a [] n = n
largest_syscall l a (rule ∷ rules) n =
    largest_syscall l a rules (larger n (l.syscall_number rule.name a))

-- `lastSyscalls[auditArch]`: a new key, and a write
unfoldable pub add_key : ℕ → LastSyscallMap → LastSyscallMap
add_key k [] = record { audit_arch = k; max_syscalls = [] } ∷ []
add_key k (e ∷ es) = if e.audit_arch == k then e ∷ es else e ∷ add_key k es

unfoldable pub set_key : ℕ → List (ScmpArch × ℕ) → LastSyscallMap → LastSyscallMap
set_key k ms [] = []
set_key k ms (e ∷ es) =
    if e.audit_arch == k then record e { max_syscalls = ms } ∷ es else e ∷ set_key k ms es

unfoldable pub get_key : ℕ → LastSyscallMap → List (ScmpArch × ℕ)
get_key k [] = []
get_key k (e ∷ es) = if e.audit_arch == k then e.max_syscalls else get_key k es

-- one round of the loop over the architectures; a number is written only where there was none
unfoldable pub add_arch :
    Header → Libseccomp → List Syscall → LastSyscallMap → ScmpArch → Result Error LastSyscallMap
add_arch h l rules m a = do
  k ← scmp_arch_to_audit_arch h l a
  let m' = add_key k m
  let ms = get_key k m'
  let n = largest_syscall l a rules 0
  ok (
      if any (λ (p : ScmpArch × ℕ). scmp_eq p.0 a) ms || n == 0
      then m'
      else set_key k (ms ++ (a, n) ∷ []) m')

unfoldable pub add_archs :
    Header
    → Libseccomp
    → List Syscall
    → LastSyscallMap
    → List ScmpArch
    → Result Error LastSyscallMap
unfolding add_arch
add_archs h l rules m [] = ok m
add_archs h l rules m (a ∷ archs) = do m' ← add_arch h l rules m a; add_archs h l rules m' archs

-- `findLastSyscalls`; `visit` puts the architectures in the order in which Go visits their map
unfoldable pub find_last_syscalls :
    Header → Libseccomp → (List ScmpArch → List ScmpArch) → Config → Result Error LastSyscallMap
unfolding configured_archs add_archs
find_last_syscalls h l visit c = do
  archs ← configured_archs l c.architectures
  add_archs h l c.syscalls [] (visit archs)

-- `*config.DefaultErrnoRet == uint(retErrnoEnosys)`
abbrev pub is_enosys_ret : Header → Option ℕ → Bool
is_enosys_ret h none = false
is_enosys_ret h (some n) = n == h.ret_errno_enosys

-- The orders in which Go visits a map, each of the three times.
pub record Orders : Type 0 where
  pub archs : List ScmpArch → List ScmpArch
  pub sections : LastSyscallMap → LastSyscallMap
  pub jumps : LastSyscallMap → LastSyscallMap

unfoldable pub generate_patch : Header → Libseccomp → Orders → Config → Result Error (List Insn)
unfolding find_last_syscalls generate_enosys_stub
generate_patch h l o c =
    let patch = find_last_syscalls h l o.archs c >>= λ last.
    generate_enosys_stub h (o.sections last) (o.jumps last) in
    if is_enosys_ret h c.default_errno_ret || is_allow_action c.default_action then ok [] else patch

-- `enosysPatchFilter` between the disassembly of the filter and the assembly
unfoldable pub enosys_patch_filter :
    Header → Libseccomp → Orders → Config → List Insn → Result Error (List Insn)
enosys_patch_filter h l o c program = do patch ← generate_patch h l o c; ok (patch ++ program)
