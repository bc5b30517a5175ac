-- ===== src/Seccomp.antt =====
-- seccomp/patchbpf/enosys_linux.go: the stub in front of a seccomp filter. The instructions are
-- those of golang.org/x/net/bpf that the file uses. The constants of the C header are a record, and
-- what libseccomp answers is another. A Go map is an association list in the order of its iteration;
-- lengths stay below 2 ^ 32.
pub mod Machine
pub mod Sections
pub mod Stub
pub mod LastSyscalls
use libcontainer.Prelude.{
  ℕ, ◌+◌, ◌-◌, ◌%◌, ◌^◌, Bool, true, false, ◌&&◌, ◌||◌, not, List, [], ◌∷◌, ◌++◌, Option, none,
  some, leb, ◌==◌, if◌then◌else◌, length, Result, ok, err, ◌>>=◌,
}

pub data Cond : Type 0 where
  jump_equal jump_not_equal jump_greater_than jump_less_or_equal : Cond
  jump_bits_set jump_bits_not_set : Cond

pub data Insn : Type 0 where
  load_absolute : (off size : ℕ) → Insn
  jump : (skip : ℕ) → Insn
  jump_if : (cond : Cond) (val skip_true skip_false : ℕ) → Insn
  ret_constant : (val : ℕ) → Insn

-- libseccomp.ScmpArch
pub data ScmpArch : Type 0 where
  arch_native arch_x86 arch_amd64 arch_x32 arch_arm arch_arm64 arch_mips arch_mips64 : ScmpArch
  arch_mips64n32 arch_mipsel arch_mipsel64 arch_mipsel64n32 arch_ppc arch_ppc64 : ScmpArch
  arch_ppc64le arch_s390 arch_s390x arch_riscv64 arch_other : ScmpArch

-- `==` on ScmpArch, by the place in the list above
abbrev pub rank : ScmpArch → ℕ
rank arch_native = 0
rank arch_x86 = 1
rank arch_amd64 = 2
rank arch_x32 = 3
rank arch_arm = 4
rank arch_arm64 = 5
rank arch_mips = 6
rank arch_mips64 = 7
rank arch_mips64n32 = 8
rank arch_mipsel = 9
rank arch_mipsel64 = 10
rank arch_mipsel64n32 = 11
rank arch_ppc = 12
rank arch_ppc64 = 13
rank arch_ppc64le = 14
rank arch_s390 = 15
rank arch_s390x = 16
rank arch_riscv64 = 17
rank arch_other = 18

abbrev pub scmp_eq : ScmpArch → ScmpArch → Bool
scmp_eq a b = rank a == rank b

-- the constants of the C header: AUDIT_ARCH numbers, and the return value for -ENOSYS
pub record Header : Type 0 where
  pub i386 : ℕ
  pub x86_64 : ℕ
  pub arm : ℕ
  pub aarch64 : ℕ
  pub mips : ℕ
  pub mips64 : ℕ
  pub mips64n32 : ℕ
  pub mipsel : ℕ
  pub mipsel64 : ℕ
  pub mipsel64n32 : ℕ
  pub ppc : ℕ
  pub ppc64 : ℕ
  pub ppc64le : ℕ
  pub s390 : ℕ
  pub s390x : ℕ
  pub riscv64 : ℕ
  pub ret_errno_enosys : ℕ

pub data Error : Type 0 where
  no_native_arch unknown_architecture bad_arch_name unknown_amd64_native : Error
  unknown_overlap missing_x32 missing_amd64 invalid_overlaps : Error

-- one key of `lastSyscallMap`, with its map from ScmpArch to the largest number
pub record ArchEntry : Type 0 where
  pub audit_arch : ℕ
  pub max_syscalls : List (ScmpArch × ℕ)

abbrev pub LastSyscallMap : Type 0
LastSyscallMap = List ArchEntry

-- a read of `maxSyscalls`
unfoldable pub max_syscall : ScmpArch → List (ScmpArch × ℕ) → Option ℕ
max_syscall a [] = none
max_syscall a ((b, n) ∷ rest) = if scmp_eq b a then some n else max_syscall a rest

abbrev pub uint8 : ℕ → ℕ
uint8 n = n % 2 ^ 8

abbrev pub x32_bit : ℕ
x32_bit = 2 ^ 30

abbrev pub is_s390 : ScmpArch → Bool
is_s390 a = scmp_eq a arch_s390 || scmp_eq a arch_s390x

-- the section's start for one entry: the load, and on s390 the check for setup(2)
abbrev pub section_start : Header → ScmpArch → List Insn
section_start h a =
    load_absolute 0 4
    ∷ (if is_s390 a
        then jump_if jump_not_equal 0 1 0 ∷ ret_constant h.ret_errno_enosys ∷ []
        else [])

-- `base` is `baseJumpEnosys`
abbrev pub section_tail : ℕ → ℕ → List Insn
section_tail base sysno =
    if leb (base + 1) 255
    then jump_if jump_greater_than sysno (uint8 (base + 1)) 0 ∷ jump (base + 1) ∷ []
    else jump_if jump_less_or_equal sysno 1 0 ∷ jump (base + 1) ∷ jump (base + 1) ∷ []

-- the check of the mode, in front of the tail
abbrev pub with_mode : Header → ℕ → ScmpArch → List Insn → Result Error (List Insn)
with_mode h audit_arch a tail =
    if not (audit_arch == h.x86_64)
    then ok tail
    else if scmp_eq a arch_amd64
    then ok (jump_if jump_bits_set x32_bit (uint8 (length tail - 1)) 0 ∷ tail)
    else if scmp_eq a arch_x32
    then ok (jump_if jump_bits_not_set x32_bit (uint8 (length tail - 1)) 0 ∷ tail)
    else err unknown_amd64_native

unfoldable pub section_one : Header → ℕ → ℕ → ScmpArch → ℕ → Result Error (List Insn)
section_one h base audit_arch a sysno = do
  tail ← with_mode h audit_arch a (section_tail base sysno)
  ok (section_start h a ++ tail)

unfoldable pub section_two : ℕ → ℕ → ℕ → List Insn
section_two base x32 x86 =
    load_absolute 0 4
    ∷ (if leb (base + 2) 255
        then jump_if jump_bits_set x32_bit 1 0
          ∷ jump_if jump_greater_than x86 (uint8 (base + 2)) 1
          ∷ jump_if jump_greater_than x32 (uint8 (base + 1)) 0
          ∷ jump (base + 1)
          ∷ []
        else jump_if jump_bits_set x32_bit 1 0
          ∷ jump_if jump_greater_than x86 1 2
          ∷ jump_if jump_less_or_equal x32 1 0
          ∷ jump (base + 1)
          ∷ jump (base + 1)
          ∷ [])

-- the overlap of x86_64 and x32
unfoldable pub section_overlap : Header → ℕ → ℕ → Option ℕ → Option ℕ → Result Error (List Insn)
section_overlap h base audit_arch none x86 =
    if not (audit_arch == h.x86_64) then err unknown_overlap else err missing_x32
section_overlap h base audit_arch (some x32) none =
    if not (audit_arch == h.x86_64) then err unknown_overlap else err missing_amd64
section_overlap h base audit_arch (some x32) (some x86) =
    if not (audit_arch == h.x86_64) then err unknown_overlap else ok (section_two base x32 x86)

-- The section for one architecture; `none` where there is none.
unfoldable pub section : Header → ℕ → ℕ → List (ScmpArch × ℕ) → Result Error (Option (List Insn))
section h base audit_arch [] = ok none
section h base audit_arch ((a, n) ∷ []) = do s ← section_one h base audit_arch a n; ok (some s)
section h base audit_arch (p ∷ q ∷ []) = do
  s ←
      section_overlap h base audit_arch (max_syscall arch_x32 (p ∷ q ∷ []))
        (max_syscall arch_amd64 (p ∷ q ∷ []))
  ok (some s)
section h base audit_arch (p ∷ q ∷ r ∷ rest) = err invalid_overlaps

-- `archJumpTable`, with 0 for a missing key
abbrev pub JumpTable : Type 0
JumpTable = List (ℕ × ℕ)

unfoldable pub distance : ℕ → JumpTable → ℕ
distance a [] = 0
distance a ((b, n) ∷ rest) = if b == a then n else distance a rest

abbrev pub prepended :
    ArchEntry → List Insn → JumpTable → Option (List Insn) → List Insn × JumpTable
prepended e tail table none = (tail, table)
prepended e tail table (some s) = (s ++ tail, (e.audit_arch, length (s ++ tail)) ∷ table)

-- the loop that makes the sections
unfoldable pub add_sections :
    Header → LastSyscallMap → List Insn × JumpTable → Result Error (List Insn × JumpTable)
add_sections h [] (tail, table) = ok (tail, table)
add_sections h (e ∷ es) (tail, table) = do
  s ← section h (length tail - 1) e.audit_arch e.max_syscalls
  add_sections h es (prepended e tail table s)

-- one jump by the architecture
abbrev pub arch_rule : ℕ → ℕ → List Insn
arch_rule audit_arch dist =
    if leb dist 255
    then jump_if jump_equal audit_arch (uint8 dist) 0 ∷ []
    else jump_if jump_not_equal audit_arch 1 0 ∷ jump dist ∷ []

-- the loop that makes them
unfoldable pub add_arch_rules : LastSyscallMap → JumpTable → List Insn → List Insn
add_arch_rules [] table tail = tail
add_arch_rules (e ∷ es) table tail =
    add_arch_rules es table
      (arch_rule e.audit_arch (length tail - distance e.audit_arch table) ++ tail)

abbrev pub first_tail : Header → List Insn
first_tail h = jump 1 ∷ ret_constant h.ret_errno_enosys ∷ []

-- `generateEnosysStub`; Go visits the map twice, in an order of its own each time: `sections` is the
-- map in the order of the first loop, and `jumps` in that of the second
unfoldable pub generate_enosys_stub :
    Header → LastSyscallMap → LastSyscallMap → Result Error (List Insn)
unfolding add_sections add_arch_rules
generate_enosys_stub h sections jumps = do
  made ← add_sections h sections (first_tail h, [])
  ok (load_absolute 4 4 ∷ add_arch_rules jumps made.1 (jump (length made.0) ∷ made.0))
