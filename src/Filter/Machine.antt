-- ===== src/Filter/Machine.antt =====
-- What the kernel does with the instructions of cgroups/ebpf/devicefilter/devicefilter.go, as far
-- as that file relies on it: an interface, after the kernel's description of the eBPF instruction
-- set, with a small interpreter that meets it.
use libcontainer.Prelude.{
  ℕ, ◌+◌, ◌-◌, ◌/◌, ◌^◌, Bool, true, false, List, [], ◌∷◌, Option, none, some, ◌≡◌, refl,
  Bool-cases, inl, inr, ltb, ◌==◌, if◌then◌else◌, bit_and,
}
use libcontainer.Filter.{
  Reg, r0, r1, r2, r3, r4, r5, Op, load_word, and_imm, rsh_imm, mov_imm, mov_reg, jne_imm, jne_reg,
  exit, Insn,
}

-- struct bpf_cgroup_dev_ctx
pub record DeviceContext : Type 0 where
  pub access_type : ℕ
  pub major : ℕ
  pub minor : ℕ

abbrev pub word_at : DeviceContext → ℕ → ℕ
word_at c off = if off == 0 then c.access_type else if off == 4 then c.major else c.minor

-- A register holds the context's address or a number.
pub data Value : Type 0 where
  address : Value
  num : ℕ → Value

abbrev pub Regs : Type 0
Regs = Reg → Value

abbrev pub reg_eq : Reg → Reg → Bool
reg_eq r0 r0 = true
reg_eq r1 r1 = true
reg_eq r2 r2 = true
reg_eq r3 r3 = true
reg_eq r4 r4 = true
reg_eq r5 r5 = true
reg_eq _ _ = false

abbrev pub set : Regs → Reg → Value → Regs
set ρ r v s = if reg_eq r s then v else ρ s

abbrev pub has_symbol : ℕ → Option ℕ → Bool
has_symbol l none = false
has_symbol l (some k) = k == l

-- The rest of a program from the instruction with a symbol on.
abbrev pub seek : ℕ → List Insn → List Insn
seek l [] = []
seek l (i ∷ is) = if has_symbol l i.symbol then i ∷ is else seek l is

-- A 32-bit pattern as a 64-bit operand.
abbrev pub sign_extend : ℕ → ℕ
sign_extend v = if ltb v (2 ^ 31) then v else v + (2 ^ 64 - 2 ^ 32)

-- `run` gives the value that a program returns, from an instruction on. Each law is about one
-- kind of instruction, at the operands that it needs.
pub record Machine : Type 0 where
  pub run : List Insn → DeviceContext → Regs → Option ℕ
  pub run_load :
      (d s : Reg) (off : ℕ) (y : Option ℕ) (is : List Insn) (c : DeviceContext) (ρ : Regs)
      → ρ s ≡ address
      → run (record { op = load_word d s off; symbol = y } ∷ is) c ρ
        ≡ run is c (set ρ d (num (word_at c off)))
  pub run_and :
      (d : Reg) (imm v : ℕ) (y : Option ℕ) (is : List Insn) (c : DeviceContext) (ρ : Regs)
      → ρ d ≡ num v
      → run (record { op = and_imm d imm; symbol = y } ∷ is) c ρ
        ≡ run is c (set ρ d (num (bit_and v imm)))
  pub run_rsh :
      (d : Reg) (imm v : ℕ) (y : Option ℕ) (is : List Insn) (c : DeviceContext) (ρ : Regs)
      → ρ d ≡ num v
      → run (record { op = rsh_imm d imm; symbol = y } ∷ is) c ρ
        ≡ run is c (set ρ d (num (v / 2 ^ imm)))
  pub run_mov_imm :
      (d : Reg) (imm : ℕ) (y : Option ℕ) (is : List Insn) (c : DeviceContext) (ρ : Regs)
      → run (record { op = mov_imm d imm; symbol = y } ∷ is) c ρ ≡ run is c (set ρ d (num imm))
  pub run_mov_reg :
      (d s : Reg) (v : ℕ) (y : Option ℕ) (is : List Insn) (c : DeviceContext) (ρ : Regs)
      → ρ s ≡ num v
      → run (record { op = mov_reg d s; symbol = y } ∷ is) c ρ ≡ run is c (set ρ d (num v))
  pub run_jne_imm :
      (d : Reg) (imm l v : ℕ) (y : Option ℕ) (is : List Insn) (c : DeviceContext) (ρ : Regs)
      → ρ d ≡ num v
      → run (record { op = jne_imm d imm l; symbol = y } ∷ is) c ρ
        ≡ (if v == sign_extend imm then run is c ρ else run (seek l is) c ρ)
  pub run_jne_reg :
      (d s : Reg) (l v w : ℕ) (y : Option ℕ) (is : List Insn) (c : DeviceContext) (ρ : Regs)
      → ρ d ≡ num v
      → ρ s ≡ num w
      → run (record { op = jne_reg d s l; symbol = y } ∷ is) c ρ
        ≡ (if v == w then run is c ρ else run (seek l is) c ρ)
  pub run_exit :
      (v : ℕ) (y : Option ℕ) (is : List Insn) (c : DeviceContext) (ρ : Regs)
      → ρ r0 ≡ num v
      → run (record { op = exit; symbol = y } ∷ is) c ρ ≡ some v

abbrev operand : Value → ℕ
operand address = 0
operand (num v) = v

-- One instruction; `k` runs what follows, from the next instruction or from a symbol on.
abbrev execute : Op → DeviceContext → Regs → (Option ℕ → Regs → Option ℕ) → Option ℕ
execute (load_word d s off) c ρ k = k none (set ρ d (num (word_at c off)))
execute (and_imm d imm) c ρ k = k none (set ρ d (num (bit_and (operand (ρ d)) imm)))
execute (rsh_imm d imm) c ρ k = k none (set ρ d (num (operand (ρ d) / 2 ^ imm)))
execute (mov_imm d imm) c ρ k = k none (set ρ d (num imm))
execute (mov_reg d s) c ρ k = k none (set ρ d (num (operand (ρ s))))
execute (jne_imm d imm l) c ρ k =
    if operand (ρ d) == sign_extend imm then k none ρ else k (some l) ρ
execute (jne_reg d s l) c ρ k = if operand (ρ d) == operand (ρ s) then k none ρ else k (some l) ρ
execute exit c ρ k = some (operand (ρ r0))

-- A program from its start, or from the symbol that a jump looks for.
unfoldable pub interpret : List Insn → DeviceContext → Option ℕ → Regs → Option ℕ
interpret [] c from ρ = none
interpret (i ∷ is) c none ρ = execute i.op c ρ (interpret is c)
interpret (i ∷ is) c (some l) ρ =
    let later = interpret is c (some l) ρ in
    if has_symbol l i.symbol then execute i.op c ρ (interpret is c) else later

interpret-seek :
    (is : List Insn) (c : DeviceContext) (l : ℕ) (ρ : Regs)
    → interpret is c (some l) ρ ≡ interpret (seek l is) c none ρ
unfolding interpret
interpret-seek [] c l ρ = refl
interpret-seek (i ∷ is) c l ρ = elim (Bool-cases (has_symbol l i.symbol)) [
  | inl e ↦ rw e refl
  | inr e ↦ rw e (interpret-seek is c l ρ)
]

pub interpret-load :
    (d s : Reg) (off : ℕ) (y : Option ℕ) (is : List Insn) (c : DeviceContext) (ρ : Regs)
    → ρ s ≡ address
    → interpret (record { op = load_word d s off; symbol = y } ∷ is) c none ρ
      ≡ interpret is c none (set ρ d (num (word_at c off)))
unfolding interpret
interpret-load d s off y is c ρ h = refl

pub interpret-and :
    (d : Reg) (imm v : ℕ) (y : Option ℕ) (is : List Insn) (c : DeviceContext) (ρ : Regs)
    → ρ d ≡ num v
    → interpret (record { op = and_imm d imm; symbol = y } ∷ is) c none ρ
      ≡ interpret is c none (set ρ d (num (bit_and v imm)))
unfolding interpret
interpret-and d imm v y is c ρ h = rw h refl

pub interpret-rsh :
    (d : Reg) (imm v : ℕ) (y : Option ℕ) (is : List Insn) (c : DeviceContext) (ρ : Regs)
    → ρ d ≡ num v
    → interpret (record { op = rsh_imm d imm; symbol = y } ∷ is) c none ρ
      ≡ interpret is c none (set ρ d (num (v / 2 ^ imm)))
unfolding interpret
interpret-rsh d imm v y is c ρ h = rw h refl

pub interpret-mov_imm :
    (d : Reg) (imm : ℕ) (y : Option ℕ) (is : List Insn) (c : DeviceContext) (ρ : Regs)
    → interpret (record { op = mov_imm d imm; symbol = y } ∷ is) c none ρ
      ≡ interpret is c none (set ρ d (num imm))
unfolding interpret
interpret-mov_imm d imm y is c ρ = refl

pub interpret-mov_reg :
    (d s : Reg) (v : ℕ) (y : Option ℕ) (is : List Insn) (c : DeviceContext) (ρ : Regs)
    → ρ s ≡ num v
    → interpret (record { op = mov_reg d s; symbol = y } ∷ is) c none ρ
      ≡ interpret is c none (set ρ d (num v))
unfolding interpret
interpret-mov_reg d s v y is c ρ h = rw h refl

pub interpret-jne_imm :
    (d : Reg) (imm l v : ℕ) (y : Option ℕ) (is : List Insn) (c : DeviceContext) (ρ : Regs)
    → ρ d ≡ num v
    → interpret (record { op = jne_imm d imm l; symbol = y } ∷ is) c none ρ
      ≡ (if v == sign_extend imm then interpret is c none ρ else interpret (seek l is) c none ρ)
unfolding interpret
interpret-jne_imm d imm l v y is c ρ h = rw (h, ← interpret-seek is c l ρ) refl

pub interpret-jne_reg :
    (d s : Reg) (l v w : ℕ) (y : Option ℕ) (is : List Insn) (c : DeviceContext) (ρ : Regs)
    → ρ d ≡ num v
    → ρ s ≡ num w
    → interpret (record { op = jne_reg d s l; symbol = y } ∷ is) c none ρ
      ≡ (if v == w then interpret is c none ρ else interpret (seek l is) c none ρ)
unfolding interpret
interpret-jne_reg d s l v w y is c ρ h k = rw (h, k, ← interpret-seek is c l ρ) refl

pub interpret-exit :
    (v : ℕ) (y : Option ℕ) (is : List Insn) (c : DeviceContext) (ρ : Regs)
    → ρ r0 ≡ num v
    → interpret (record { op = exit; symbol = y } ∷ is) c none ρ ≡ some v
unfolding interpret
interpret-exit v y is c ρ h = rw h refl

-- The interpreter meets the interface.
abbrev pub interpreter : Machine
interpreter = record {
  run = λ is c ρ. interpret is c none ρ;
  run_load = interpret-load;
  run_and = interpret-and;
  run_rsh = interpret-rsh;
  run_mov_imm = interpret-mov_imm;
  run_mov_reg = interpret-mov_reg;
  run_jne_imm = interpret-jne_imm;
  run_jne_reg = interpret-jne_reg;
  run_exit = interpret-exit;
}
