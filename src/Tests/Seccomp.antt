-- ===== src/Tests/Seccomp.antt =====
-- The stub in front of a seccomp filter, at a concrete configuration.
use libcontainer.Prelude.{
  arith, ◌⊎◌, ◌||◌, ◌+◌, ◌^◌, ◌≡◌, refl, true, List, [], ◌∷◌, ◌++◌, Option, none, some, ok,
  bytes_eq, if◌then◌else◌, false,
}
use libcontainer.Prelude.Int.{ℤ, pos}
use libcontainer.Text.{codes}
use libcontainer.Seccomp.{
  ScmpArch, arch_amd64, arch_x32, arch_x86, Header, LastSyscallMap, Insn, jump_equal,
  jump_greater_than, jump_bits_set, load_absolute, jump, jump_if, ret_constant,
  generate_enosys_stub, max_syscall, section, section_one, section_two, section_overlap, distance,
}
use libcontainer.Seccomp.Machine.{SeccompData, interpreter}
use libcontainer.Seccomp.Stub.{stub_answer, generate_enosys_stub-run}
use libcontainer.Seccomp.LastSyscalls.Patch.{AreOrders, enosys_patch_filter-run}
use libcontainer.Seccomp.LastSyscalls.Largest.{EntriesCover, find_last_syscalls-EntriesCover}
use libcontainer.Seccomp.LastSyscalls.{
  scmp_arch_to_audit_arch, largest_syscall, add_key, set_key, get_key, is_enosys_ret,
  is_allow_action, errno, allow, Config, Libseccomp, Orders, enosys_patch_filter,
  find_last_syscalls, generate_patch,
}

abbrev header : Header
header = record {
  i386 = 0x40000003;
  x86_64 = 0xC000003E;
  arm = 0x40000028;
  aarch64 = 0xC00000B7;
  mips = 8;
  mips64 = 0x80000008;
  mips64n32 = 0xA0000008;
  mipsel = 0x40000008;
  mipsel64 = 0xC0000008;
  mipsel64n32 = 0xE0000008;
  ppc = 20;
  ppc64 = 0x80000015;
  ppc64le = 0xC0000015;
  s390 = 22;
  s390x = 0x80000016;
  riscv64 = 0xC00000F3;
  ret_errno_enosys = 0x00050026;
}

abbrev number_of : ScmpArch → Option ℤ
number_of arch_amd64 = some (pos 435)
number_of arch_x32 = some (pos (2 ^ 30 + 435))
number_of arch_x86 = some (pos 436)
number_of a = none

abbrev library : Libseccomp
library = record {
  arch_from_string = λ s.
      if bytes_eq s (codes "x86")
      then some arch_x86
      else if bytes_eq s (codes "x32")
      then some arch_x32
      else none;
  native_arch = some arch_amd64;
  syscall_number = λ name a. number_of a;
}

abbrev config : Config
config = record {
  default_action = errno;
  architectures = codes "x86" ∷ codes "x32" ∷ [];
  syscalls = record { name = codes "clone3"; action = allow } ∷ [];
  default_errno_ret = none;
}

abbrev allow_all : List Insn
allow_all = ret_constant 0x7FFF0000 ∷ []

abbrev last : LastSyscallMap
last =
    record { audit_arch = 0x40000003; max_syscalls = (arch_x86, 436) ∷ [] }
    ∷ record {
      audit_arch = 0xC000003E;
      max_syscalls = (arch_x32, 2 ^ 30 + 435) ∷ (arch_amd64, 435) ∷ [];
    }
    ∷ []

abbrev stub : List Insn
stub =
    load_absolute 4 4
    ∷ jump_if jump_equal 0xC000003E 2 0
    ∷ jump_if jump_equal 0x40000003 6 0
    ∷ jump 10
    ∷ load_absolute 0 4
    ∷ jump_if jump_bits_set (2 ^ 30) 1 0
    ∷ jump_if jump_greater_than 435 6 1
    ∷ jump_if jump_greater_than (2 ^ 30 + 435) 5 0
    ∷ jump 5
    ∷ load_absolute 0 4
    ∷ jump_if jump_greater_than 436 2 0
    ∷ jump 2
    ∷ jump 1
    ∷ ret_constant 0x00050026
    ∷ []

-- the order in which the entries were made
abbrev orders : Orders
orders = record { archs = λ visited. visited; sections = λ m. m; jumps = λ m. m }

orders-AreOrders : AreOrders orders
orders-AreOrders m d =
    (record { distinct = d; same = λ a. refl }, record { distinct = d; same = λ a. refl })

last_run : find_last_syscalls header library orders.archs config ≡ ok last
unfolding find_last_syscalls scmp_arch_to_audit_arch largest_syscall add_key set_key get_key
last_run = refl

stub_run : generate_enosys_stub header last last ≡ ok stub
unfolding generate_enosys_stub section section_one section_two section_overlap max_syscall distance
stub_run = refl

patch_run : enosys_patch_filter header library orders config allow_all ≡ ok (stub ++ allow_all)
unfolding enosys_patch_filter generate_patch find_last_syscalls scmp_arch_to_audit_arch
    largest_syscall add_key set_key get_key generate_enosys_stub section section_one section_two
    section_overlap max_syscall distance is_allow_action
patch_run = refl

abbrev new_call : SeccompData
new_call = record { nr = 2 ^ 30 + 436; arch = 0xC000003E }

generate_enosys_stub-run_example :
    interpreter.run (stub ++ allow_all) new_call 0
    ≡ stub_answer header interpreter new_call allow_all last
generate_enosys_stub-run_example =
    generate_enosys_stub-run header interpreter new_call allow_all last last last stub 0
      (record { distinct = (((λ e. omega arith), tt), (tt, tt)); same = λ a. refl })
      (record { distinct = (((λ e. omega arith), tt), (tt, tt)); same = λ a. refl }) stub_run

denied_run : stub_answer header interpreter new_call allow_all last ≡ some 0x00050026
unfolding stub_answer max_syscall
denied_run = refl

enosys_patch_filter-run_example :
    ((is_enosys_ret header config.default_errno_ret || is_allow_action config.default_action ≡ true)
      × (stub ++ allow_all ≡ allow_all))
    ⊎ ((is_enosys_ret header config.default_errno_ret || is_allow_action config.default_action
          ≡ false)
        × (m : LastSyscallMap) × (find_last_syscalls header library orders.archs config ≡ ok m)
        × (interpreter.run (stub ++ allow_all) new_call 0
            ≡ stub_answer header interpreter new_call allow_all m))
enosys_patch_filter-run_example =
    enosys_patch_filter-run header library orders config interpreter new_call allow_all
      (stub ++ allow_all) 0 orders-AreOrders patch_run

find_last_syscalls-EntriesCover_example : EntriesCover library config.syscalls last
find_last_syscalls-EntriesCover_example =
    find_last_syscalls-EntriesCover header library orders.archs config last last_run
