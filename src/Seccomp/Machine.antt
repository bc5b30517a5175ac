-- ===== src/Seccomp/Machine.antt =====
-- What the kernel does with the classic BPF instructions of seccomp/patchbpf/enosys_linux.go, after
-- its description of seccomp filters: an interface, and an interpreter that meets it.
use libcontainer.Prelude.{
  ℕ, zero, suc, Bool, not, List, [], ◌∷◌, Option, none, some, ltb, leb, ◌==◌, if◌then◌else◌, drop,
  bit_and, ◌≡◌, refl, Bool-cases, inl, inr,
}
use libcontainer.Seccomp.{
  Cond, jump_equal, jump_not_equal, jump_greater_than, jump_less_or_equal, jump_bits_set,
  jump_bits_not_set, Insn, load_absolute, jump, jump_if, ret_constant,
}

-- struct seccomp_data: its first two words
pub record SeccompData : Type 0 where
  pub nr : ℕ
  pub arch : ℕ

-- `x` is the accumulator.
abbrev pub holds : Cond → ℕ → ℕ → Bool
holds jump_equal x v = x == v
holds jump_not_equal x v = not (x == v)
holds jump_greater_than x v = ltb v x
holds jump_less_or_equal x v = leb x v
holds jump_bits_set x v = not (bit_and x v == 0)
holds jump_bits_not_set x v = bit_and x v == 0

-- `run` gives the value that a program returns, from an instruction on, with an accumulator.
pub record Machine : Type 0 where
  pub run : List Insn → SeccompData → ℕ → Option ℕ
  pub run_load_nr :
      (p : List Insn) (d : SeccompData) (x : ℕ) → run (load_absolute 0 4 ∷ p) d x ≡ run p d d.nr
  pub run_load_arch :
      (p : List Insn) (d : SeccompData) (x : ℕ) → run (load_absolute 4 4 ∷ p) d x ≡ run p d d.arch
  pub run_jump :
      (s : ℕ) (p : List Insn) (d : SeccompData) (x : ℕ) → run (jump s ∷ p) d x ≡ run (drop s p) d x
  pub run_jump_if :
      (c : Cond) (v t f : ℕ) (p : List Insn) (d : SeccompData) (x : ℕ)
      → run (jump_if c v t f ∷ p) d x
        ≡ (if holds c x v then run (drop t p) d x else run (drop f p) d x)
  pub run_ret :
      (v : ℕ) (p : List Insn) (d : SeccompData) (x : ℕ) → run (ret_constant v ∷ p) d x ≡ some v

-- A program after `skip` instructions.
unfoldable pub interpret : ℕ → List Insn → SeccompData → ℕ → Option ℕ
interpret skip [] d x = none
interpret (suc skip) (i ∷ p) d x = interpret skip p d x
interpret zero (load_absolute off size ∷ p) d x =
    interpret zero p d (if off == 0 then d.nr else d.arch)
interpret zero (jump s ∷ p) d x = interpret s p d x
interpret zero (jump_if c v t f ∷ p) d x = interpret (if holds c x v then t else f) p d x
interpret zero (ret_constant v ∷ p) d x = some v

interpret-drop :
    (s : ℕ) (p : List Insn) (d : SeccompData) (x : ℕ)
    → interpret s p d x ≡ interpret zero (drop s p) d x
unfolding interpret
interpret-drop zero p d x = refl
interpret-drop (suc s) [] d x = refl
interpret-drop (suc s) (i ∷ p) d x = interpret-drop s p d x

interpret-jump_if :
    (c : Cond) (v t f : ℕ) (p : List Insn) (d : SeccompData) (x : ℕ)
    → interpret zero (jump_if c v t f ∷ p) d x
      ≡ (if holds c x v then interpret zero (drop t p) d x else interpret zero (drop f p) d x)
unfolding interpret
interpret-jump_if c v t f p d x = elim (Bool-cases (holds c x v)) [
  | inl e ↦ rw (e, interpret-drop t p d x)
  | inr e ↦ rw (e, interpret-drop f p d x)
]

abbrev pub interpreter : Machine
unfolding interpret interpret-drop interpret-jump_if
interpreter = record {
  run = interpret zero;
  run_load_nr = λ p d x. refl;
  run_load_arch = λ p d x. refl;
  run_jump = λ s p d x. interpret-drop s p d x;
  run_jump_if = interpret-jump_if;
  run_ret = λ v p d x. refl;
}
