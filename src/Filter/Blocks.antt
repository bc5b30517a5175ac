-- ===== src/Filter/Blocks.antt =====
-- What one block of the filter of cgroups/ebpf/devicefilter/devicefilter.go does on a machine.
use native.Mathlib.Nat.{mod-eq_of_lt}
use libcontainer.Prelude.{
  ℕ, ◌+◌, ◌/◌, ◌^◌, ◌<◌, Bool, true, false, ◌&&◌, ◌||◌, List, ◌∷◌, ◌++◌, Option, none, some, ◌≡◌,
  refl, ◌∙◌, inl, inr, arith, ◌==◌, if◌then◌else◌, bit_and, Bool-cases, append_assoc,
}
use libcontainer.Prelude.Int.{ℤ, pos, negsuc}
use libcontainer.Devices.{Rule}
use libcontainer.Filter.{
  Reg, r0, r1, r2, r3, r4, r5, mov_imm, jne_imm, exit, Insn, plain, prologue, accept_block,
  number_check, access_check, acc_all, block,
}
use libcontainer.Filter.Machine.{DeviceContext, Value, address, num, Regs, set, seek, Machine}

-- The device type and the access of a request, as the prologue takes them from its first word.
abbrev pub requested_type : DeviceContext → ℕ
requested_type c = bit_and c.access_type 0xFFFF

abbrev pub requested_access : DeviceContext → ℕ
requested_access c = c.access_type / 2 ^ 16

-- The registers after the prologue.
pub record IsLoaded (c : DeviceContext) (ρ : Regs) : Type 0 where
  pub type_loaded : ρ r2 ≡ num (requested_type c)
  pub access_loaded : ρ r3 ≡ num (requested_access c)
  pub major_loaded : ρ r4 ≡ num c.major
  pub minor_loaded : ρ r5 ≡ num c.minor

-- A number that the program compares with a register, or none.
abbrev pub number_matches : ℤ → ℕ → Bool
number_matches (pos n) v = v == n
number_matches (negsuc n) v = true

-- Every requested bit is among those of the rule; a rule for all three asks for nothing.
abbrev pub access_matches : ℕ → DeviceContext → Bool
access_matches access c =
    access == acc_all || (bit_and (requested_access c) access == requested_access c)

nested_if :
    (a b c d : Bool) (v x : ℕ)
    → (if a then if b then if c then if d then v else x else x else x else x)
      ≡ (if a && (b && (c && d)) then v else x)
nested_if true true true d v x = refl
nested_if true true false d v x = refl
nested_if true false c d v x = refl
nested_if false b c d v x = refl

-- A number that a signed 32-bit immediate can hold.
abbrev pub IsSmall : ℤ → Type 0
IsSmall (pos n) = n < 2 ^ 31
IsSmall (negsuc n) = Unit {0}

-- The value that the program returns to grant a request, or to refuse it.
abbrev pub verdict : Bool → ℕ
verdict b = if b then 1 else 0

module _ (m : Machine) (c : DeviceContext) where
  -- From here the program returns `x`, whatever the loaded registers hold besides.
  abbrev pub Gives : ℕ → List Insn → Type 0
  Gives x is = (ρ : Regs) → IsLoaded c ρ → m.run is c ρ ≡ some x

  set_r1-IsLoaded : (ρ : Regs) (v : Value) → IsLoaded c ρ → IsLoaded c (set ρ r1 v)
  set_r1-IsLoaded ρ v h = record {
    type_loaded = h.type_loaded;
    access_loaded = h.access_loaded;
    major_loaded = h.major_loaded;
    minor_loaded = h.minor_loaded;
  }

  pub return_lem :
      (v : ℕ) (y : Option ℕ) (rest : List Insn)
      → Gives v (record { op = mov_imm r0 v; symbol = y } ∷ plain exit ∷ rest)
  return_lem v y rest ρ h =
      m.run_mov_imm r0 v y _ c ρ ∙ m.run_exit v none rest c (set ρ r0 (num v)) refl

  jump_lem :
      (r : Reg) (imm v next : ℕ) (y : Option ℕ) (tail : List Insn) (a b : ℕ)
      → ((ρ : Regs) → IsLoaded c ρ → ρ r ≡ num v)
      → imm < 2 ^ 31
      → Gives a tail
      → Gives b (seek next tail)
      → Gives (if v == imm then a else b) (record { op = jne_imm r imm next; symbol = y } ∷ tail)
  jump_lem r imm v next y tail a b held small yes_case no_case ρ h =
      m.run_jne_imm r imm next v y tail c ρ (held ρ h) ∙ ground (arith, yes_case ρ h, no_case ρ h)

  number_lem :
      (r : Reg) (n : ℤ) (v next : ℕ) (tail : List Insn) (a b : ℕ)
      → ((ρ : Regs) → IsLoaded c ρ → ρ r ≡ num v)
      → IsSmall n
      → Gives a tail
      → Gives b (seek next tail)
      → Gives (if number_matches n v then a else b) (number_check r n next ++ tail)
  unfolding number_check
  number_lem r (pos n) v next tail a b held small yes_case no_case =
      rw (mod-eq_of_lt (small_fits n small))
        (jump_lem r n v next none tail a b held small yes_case no_case)
    where
      small_fits : (n : ℕ) → n < 2 ^ 31 → n < 2 ^ 32
      small_fits n h = omega arith
  number_lem r (negsuc n) v next tail a b held small yes_case no_case = yes_case

  access_lem :
      (access next : ℕ) (tail : List Insn) (a b : ℕ)
      → Gives a tail
      → Gives b (seek next tail)
      → Gives (if access_matches access c then a else b) (access_check access next ++ tail)
  unfolding access_check
  access_lem access next tail a b yes_case no_case = elim (Bool-cases (access == acc_all)) [
    | inl e ↦ rw e yes_case
    | inr e ↦ rw e λ ρ h.
        let masked =
          set (set ρ r1 (num (requested_access c))) r1
            (num (bit_and (requested_access c) access)) in
        m.run_mov_reg r1 r3 (requested_access c) none _ c ρ h.access_loaded
        ∙ m.run_and r1 access (requested_access c) none _ c (set ρ r1 (num (requested_access c)))
            refl
        ∙ m.run_jne_reg r1 r3 next (bit_and (requested_access c) access) (requested_access c) none
            tail c masked refl h.access_loaded
        ∙ ground (
          arith,
          yes_case masked (set_r1-IsLoaded _ _ (set_r1-IsLoaded _ _ h)),
          no_case masked (set_r1-IsLoaded _ _ (set_r1-IsLoaded _ _ h)),
        )
  ]

  pub prologue_lem :
      (tail : List Insn) (x : ℕ) (ρ : Regs)
      → ρ r1 ≡ address
      → Gives x tail
      → m.run (prologue ++ tail) c ρ ≡ some x
  prologue_lem tail x ρ h gives =
      m.run_load r2 r1 0 none _ c ρ h
      ∙ m.run_and r2 0xFFFF c.access_type none _ c _ refl
      ∙ m.run_load r3 r1 0 none _ c _ h
      ∙ m.run_rsh r3 16 c.access_type none _ c _ refl
      ∙ m.run_load r4 r1 4 none _ c _ h
      ∙ m.run_load r5 r1 8 none _ c _ h
      ∙ gives _ (record {
        type_loaded = refl;
        access_loaded = refl;
        major_loaded = refl;
        minor_loaded = refl;
      })

  seek-access_check :
      (access k next : ℕ) (tail : List Insn)
      → seek next (access_check access k ++ tail) ≡ seek next tail
  unfolding access_check
  seek-access_check access k next tail = ground arith

  seek-number_check :
      (r : Reg) (n : ℤ) (k next : ℕ) (tail : List Insn)
      → seek next (number_check r n k ++ tail) ≡ seek next tail
  unfolding number_check
  seek-number_check r (pos n) k next tail = refl
  seek-number_check r (negsuc n) k next tail = refl

  -- The request falls under the rule, in the program's terms.
  abbrev pub rule_matches : ℕ → ℕ → Rule → Bool
  rule_matches type access rule =
      requested_type c == type
      && (access_matches access c
          && (number_matches rule.major c.major && number_matches rule.minor c.minor))

  -- A block returns the action of its rule if the request matches, and otherwise goes on with
  -- what follows, which begins with the next symbol.
  pub block_lem :
      (id type access : ℕ) (rule : Rule) (rest : List Insn) (x : ℕ)
      → type < 2 ^ 31
      → IsSmall rule.major
      → IsSmall rule.minor
      → seek (id + 1) rest ≡ rest
      → Gives x rest
      → Gives
          (if rule_matches type access rule then verdict rule.allow else x)
          (block id type access rule ++ rest)
  block_lem id type access rule rest x small_type small_major small_minor found gives =
      rw (regroup, ← nested)
        (jump_lem r2 type (requested_type c) (id + 1) (some id) after_type _ x
          (λ ρ h. h.type_loaded) small_type
          (access_lem access (id + 1) after_access _ x
            (number_lem r4 rule.major c.major (id + 1) after_major _ x (λ ρ h. h.major_loaded)
              small_major
              (number_lem r5 rule.minor c.minor (id + 1) after_minor _ x (λ ρ h. h.minor_loaded)
                small_minor accepted gives_minor)
              gives_major)
            gives_access)
          gives_type)
    where
      after_minor : List Insn
      after_minor = accept_block rule.allow ++ rest

      after_major : List Insn
      after_major = number_check r5 rule.minor (id + 1) ++ after_minor

      after_access : List Insn
      after_access = number_check r4 rule.major (id + 1) ++ after_major

      after_type : List Insn
      after_type = access_check access (id + 1) ++ after_access

      gives_minor : Gives x (seek (id + 1) after_minor)
      gives_minor = unfold accept_block in rw found gives

      gives_major : Gives x (seek (id + 1) after_major)
      gives_major = rw seek-number_check gives_minor

      gives_access : Gives x (seek (id + 1) after_access)
      gives_access = rw seek-number_check gives_major

      gives_type : Gives x (seek (id + 1) after_type)
      gives_type = rw seek-access_check gives_access

      accepted : Gives (verdict rule.allow) after_minor
      accepted = unfold accept_block in return_lem (verdict rule.allow) none rest

      regroup :
          block id type access rule ++ rest
          ≡ record { op = jne_imm r2 type (id + 1); symbol = some id } ∷ after_type
      regroup = unfold block in simp append_assoc

      nested :
          (if requested_type c == type
            then if access_matches access c
              then if number_matches rule.major c.major
                then if number_matches rule.minor c.minor then verdict rule.allow else x
                else x
              else x
            else x)
          ≡ (if rule_matches type access rule then verdict rule.allow else x)
      nested =
          nested_if (requested_type c == type) (access_matches access c)
            (number_matches rule.major c.major) (number_matches rule.minor c.minor)
            (verdict rule.allow) x
