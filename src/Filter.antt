-- ===== src/Filter.antt =====
-- cgroups/ebpf/devicefilter/devicefilter.go: the eBPF program for a list of device rules.
-- The instructions are the calls of the asm package that the code makes; what they do when the
-- kernel runs them is the interface of Filter/Machine. An immediate is its 32-bit pattern. The
-- symbol "block-<n>" is its number.
pub mod Machine
pub mod Blocks
pub mod Entries
pub mod Output
pub mod Decision
use libcontainer.Prelude.{
  ℕ, suc, ◌+◌, ◌-◌, ◌%◌, ◌^◌, Bool, true, false, ◌&&◌, ◌||◌, not, List, [], ◌∷◌, ◌++◌, Option, none,
  some, ltb, ◌==◌, if◌then◌else◌, Result, ok, err, ◌>>=◌, bit_or,
}
use libcontainer.Prelude.Int.{ℤ, pos, negsuc}
use libcontainer.Devices.{Permissions, wildcard_device, block_device, char_device, Rule}
use libcontainer.Emulator.{
  Emulator, apply_all, minimal_rules, is_blacklist, deny_all, bool_eq, Error as EmulatorError,
}

pub data Reg : Type 0 where
  r0 r1 r2 r3 r4 r5 : Reg

pub data Op : Type 0 where
  load_word : Reg → Reg → ℕ → Op
  and_imm : Reg → ℕ → Op
  rsh_imm : Reg → ℕ → Op
  mov_imm : Reg → ℕ → Op
  mov_reg : Reg → Reg → Op
  jne_imm : Reg → ℕ → ℕ → Op
  jne_reg : Reg → Reg → ℕ → Op
  exit : Op

pub record Insn : Type 0 where
  pub op : Op
  pub symbol : Option ℕ

abbrev pub plain : Op → Insn
plain o = record { op = o; symbol = none }

pub data Error : Type 0 where
  emulator_failed : EmulatorError → Error
  bad_wildcard no_op_rule program_finalized invalid_type : Error
  invalid_major invalid_minor unknown_access : Error

-- the constants of the kernel's bpf.h, as devicefilter_test.go shows them
abbrev pub dev_block : ℕ
dev_block = 1

abbrev pub dev_char : ℕ
dev_char = 2

abbrev pub acc_mknod : ℕ
acc_mknod = 1

abbrev pub acc_read : ℕ
acc_read = 2

abbrev pub acc_write : ℕ
acc_write = 4

abbrev pub acc_all : ℕ
acc_all = 7

-- `block_id` is `none` where the code has -1, in a finished program.
pub record Program : Type 0 where
  pub insts : List Insn
  pub default_allow : Bool
  pub block_id : Option ℕ

abbrev pub prologue : List Insn
prologue =
    plain (load_word r2 r1 0)
    ∷ plain (and_imm r2 0xFFFF)
    ∷ plain (load_word r3 r1 0)
    ∷ plain (rsh_imm r3 16)
    ∷ plain (load_word r4 r1 4)
    ∷ plain (load_word r5 r1 8)
    ∷ []

unfoldable pub init : Program → Program
init p = record p { insts = p.insts ++ prologue }

unfoldable pub bpf_type : ℕ → Result Error ℕ
bpf_type t =
    if t == char_device
    then ok dev_char
    else if t == block_device
    then ok dev_block
    else err invalid_type

-- `rule.Major > math.MaxUint32`
abbrev pub too_large : ℤ → Bool
too_large (pos n) = ltb (2 ^ 32 - 1) n
too_large (negsuc n) = false

-- the loop over the permissions
unfoldable pub bpf_access : ℕ → Permissions → Result Error ℕ
bpf_access acc [] = ok acc
bpf_access acc (r ∷ p) =
    if r == b'r'
    then bpf_access (bit_or acc acc_read) p
    else if r == b'w'
    then bpf_access (bit_or acc acc_write) p
    else if r == b'm'
    then bpf_access (bit_or acc acc_mknod) p
    else err unknown_access

unfoldable pub accept_block : Bool → List Insn
accept_block accept = plain (mov_imm r0 (if accept then 1 else 0)) ∷ plain exit ∷ []

-- `int32(n)` of a number that is not negative, and no check of a negative one
unfoldable pub number_check : Reg → ℤ → ℕ → List Insn
number_check r (pos n) next = plain (jne_imm r (n % 2 ^ 32) next) ∷ []
number_check r (negsuc n) next = []

unfoldable pub access_check : ℕ → ℕ → List Insn
access_check access next =
    if not (access == acc_all)
    then plain (mov_reg r1 r3) ∷ plain (and_imm r1 access) ∷ plain (jne_reg r1 r3 next) ∷ []
    else []

-- what `appendRule` appends; the first instruction carries the symbol of the block
unfoldable pub block : ℕ → ℕ → ℕ → Rule → List Insn
block id type access rule =
    record { op = jne_imm r2 type (id + 1); symbol = some id }
    ∷ (access_check access (id + 1)
        ++ (number_check r4 rule.major (id + 1)
            ++ (number_check r5 rule.minor (id + 1) ++ accept_block rule.allow)))

unfoldable pub append_block : Program → ℕ → Rule → Result Error Program
append_block p id rule = do
  type ← bpf_type rule.type
  if too_large rule.major
      then err invalid_major
      else if too_large rule.minor
      then err invalid_minor
      else do
        access ← bpf_access 0 rule.permissions
        ok (record p { insts = p.insts ++ block id type access rule; block_id = some (id + 1) })

unfoldable pub append_rule : Program → Rule → Result Error Program
unfolding append_block
append_rule p rule = elim p.block_id [
  | none ↦ err program_finalized
  | some id ↦ append_block p id rule
]

-- the end of the program, under the symbol of the block that would come next
unfoldable pub epilogue : Bool → Option ℕ → List Insn
epilogue default id =
    record { op = mov_imm r0 (if default then 1 else 0); symbol = id } ∷ plain exit ∷ []

unfoldable pub finalize : Program → List Insn
unfolding epilogue
finalize p = p.insts ++ epilogue p.default_allow p.block_id

-- the loop of `DeviceFilter` over the clean rules
unfoldable pub append_rules : Bool → ℕ → Program → List Rule → Result Error Program
unfolding append_rule
append_rules blacklist idx p [] = ok p
append_rules blacklist idx p (rule ∷ rules) =
    let skipped = append_rules blacklist (idx + 1) p rules in
    let appended = append_rule p rule >>= λ p'. append_rules blacklist (idx + 1) p' rules in
    if rule.type == wildcard_device
    then if not (idx == 0) || not (bool_eq rule.allow blacklist) then err bad_wildcard else skipped
    else if bool_eq rule.allow p.default_allow
    then err no_op_rule
    else appended

-- `DeviceFilter` after the emulator has taken the rules
unfoldable pub filter_of : Emulator → Result Error (List Insn)
unfolding init append_rules finalize is_blacklist
filter_of emu = do
  p ←
      append_rules (is_blacklist emu) 0
        (init (record { insts = []; default_allow = is_blacklist emu; block_id = some 0 }))
        (minimal_rules emu)
  ok (finalize p)

-- `DeviceFilter`; the license string "Apache" is left out
unfoldable pub device_filter : List Rule → Result Error (List Insn)
unfolding filter_of
device_filter rules = elim (apply_all deny_all rules) [
  | ok emu ↦ filter_of emu
  | err e ↦ err (emulator_failed e)
]
