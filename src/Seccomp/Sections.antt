-- ===== src/Seccomp/Sections.antt =====
-- What one section of the stub of seccomp/patchbpf/enosys_linux.go answers.
use libcontainer.Prelude.{
  drop, ℕ, suc, ◌+◌, ◌-◌, Bool, true, false, ◌&&◌, ◌||◌, not, List, [], ◌∷◌, ◌++◌, Option, none,
  some, ltb, leb, ◌==◌, if◌then◌else◌, length, Result, ok, ◌≡◌, ◌≢◌, refl, sym, ◌∙◌, arith,
  Bool-cases, inl, inr, bit_and, ok_step, ok-injective, subst, err_ne_ok,
}
use libcontainer.Seccomp.{
  Cond, jump_not_equal, jump_greater_than, jump_less_or_equal, jump_bits_set, jump_bits_not_set,
  Insn, jump, jump_if, ret_constant, ScmpArch, arch_amd64, arch_x32, scmp_eq, is_s390, Header,
  max_syscall, x32_bit, uint8, section_start, section_tail, with_mode, section_one, section_two,
  section_overlap, section, Error, unknown_amd64_native, unknown_overlap, missing_x32,
  missing_amd64, invalid_overlaps,
}
use libcontainer.Seccomp.Machine.{Machine, SeccompData, holds}

-- Whether the numbers of one architecture make the stub answer a system call itself.
abbrev pub denied_one : Header → ℕ → ScmpArch → ℕ → ℕ → Bool
denied_one h audit_arch a last nr =
    (is_s390 a && nr == 0)
    || (ltb last nr
        && not (
            audit_arch == h.x86_64
            && (if scmp_eq a arch_amd64
                then not (bit_and nr x32_bit == 0)
                else bit_and nr x32_bit == 0)))

abbrev pub denied_two : Option ℕ → Option ℕ → ℕ → Bool
denied_two (some x32) (some x86) nr = if bit_and nr x32_bit == 0 then ltb x86 nr else ltb x32 nr
denied_two _ _ nr = false

abbrev pub denied : Header → ℕ → List (ScmpArch × ℕ) → ℕ → Bool
denied h audit_arch [] nr = false
denied h audit_arch ((a, n) ∷ []) nr = denied_one h audit_arch a n nr
denied h audit_arch (p ∷ q ∷ rest) nr =
    denied_two (max_syscall arch_x32 (p ∷ q ∷ rest)) (max_syscall arch_amd64 (p ∷ q ∷ rest)) nr

module _ {ℓ} {A : Type ℓ} where
  pub drop-length : (xs ys : List A) → drop (length xs) (xs ++ ys) ≡ ys
  drop-length [] ys = refl
  drop-length (x ∷ xs) ys = drop-length xs ys

  drop-next : (k : ℕ) (x : A) (xs : List A) → drop (k + 1) (x ∷ xs) ≡ drop k xs
  drop-next k x xs = let e : k + 1 ≡ suc k = omega arith in rw e

  drop-next_two : (k : ℕ) (x y : A) (xs : List A) → drop (k + 2) (x ∷ y ∷ xs) ≡ drop k xs
  drop-next_two k x y xs = let e : k + 2 ≡ suc (suc k) = omega arith in rw e

  pub drop-prefix : (s xs : List A) (k : ℕ) → drop (length s + k) (s ++ xs) ≡ drop k xs
  drop-prefix [] xs k = let e : 0 + k ≡ k = omega arith in rw e
  drop-prefix (x ∷ s) xs k =
      let e : suc (length s) + k ≡ suc (length s + k) = omega arith in rw e (drop-prefix s xs k)

some_of :
    {s s' : List Insn}
    → ◌≡◌ {A = Result Error (Option (List Insn))} (ok (some s)) (ok (some s'))
    → s ≡ s'
some_of e = cc

pub nothing_made :
    (s : List Insn) → ◌≢◌ {A = Result Error (Option (List Insn))} (ok none) (ok (some s))
nothing_made s e = cc

pub uint8_small : (n : ℕ) → leb n 255 ≡ true → uint8 n ≡ n
uint8_small n e = ground arith

module _ (h : Header) (m : Machine) (d : SeccompData) (filter : List Insn) where
  -- The tail ends with the return of -ENOSYS, at its place `base`.
  abbrev pub IsTail : ℕ → List Insn → Type 0
  IsTail base t =
      (length t ≡ base + 1)
      × ((x : ℕ) → m.run (drop base (t ++ filter)) d x ≡ some h.ret_errno_enosys)

  skip_tail :
      (base : ℕ) (t : List Insn) (x : ℕ)
      → IsTail base t
      → m.run (drop (base + 1) (t ++ filter)) d x ≡ m.run filter d x
  skip_tail base t x i = rw (sym i.0, drop-length t filter)

  -- A jump over the tail, and what a section's answer is.
  over_tail :
      (base : ℕ) (t : List Insn) (x : ℕ)
      → IsTail base t
      → m.run (jump (base + 1) ∷ (t ++ filter)) d x ≡ m.run filter d x
  over_tail base t x i = m.run_jump (base + 1) (t ++ filter) d x ∙ skip_tail base t x i

  abbrev pub answer : Bool → ℕ → Option ℕ
  answer b x = if b then some h.ret_errno_enosys else m.run filter d x

  section_tail-run :
      (base : ℕ) (t : List Insn) (n x : ℕ)
      → IsTail base t
      → m.run (section_tail base n ++ (t ++ filter)) d x ≡ answer (ltb n x) x
  section_tail-run base t n x i = elim (Bool-cases (leb (base + 1) 255)) [
    | inl e ↦ rw (
      e,
      m.run_jump_if jump_greater_than n (uint8 (base + 1)) 0 (jump (base + 1) ∷ (t ++ filter)) d x,
      uint8_small (base + 1) e,
      drop-next base (jump (base + 1)) (t ++ filter),
      i.1 x,
      over_tail base t x i,
    )
    | inr e ↦
        rw
          (
            e,
            m.run_jump_if jump_less_or_equal n 1 0
                (jump (base + 1) ∷ jump (base + 1) ∷ (t ++ filter)) d x,
            over_tail base t x i,
            m.run_jump (base + 1) (jump (base + 1) ∷ (t ++ filter)) d x,
            drop-next base (jump (base + 1)) (t ++ filter),
            i.1 x,
          )
          (ground arith)
  ]

  -- In the wrong mode a section passes on to the filter.
  wrong_mode :
      (base : ℕ) (t : List Insn) (n x : ℕ)
      → IsTail base t
      → m.run
          (drop (uint8 (length (section_tail base n) - 1)) (section_tail base n ++ (t ++ filter)))
          d
          x
        ≡ m.run filter d x
  wrong_mode base t n x i = elim (Bool-cases (leb (base + 1) 255)) [
    | inl e ↦ rw (e, over_tail base t x i)
    | inr e ↦ rw (e, over_tail base t x i)
  ]

  abbrev mode_check : Cond → ℕ → ℕ → List Insn
  mode_check c base n =
      jump_if c x32_bit (uint8 (length (section_tail base n) - 1)) 0 ∷ section_tail base n

  mode_check-run :
      (c : Cond) (base : ℕ) (t : List Insn) (n x : ℕ)
      → IsTail base t
      → m.run (mode_check c base n ++ (t ++ filter)) d x
        ≡ (if holds c x x32_bit then m.run filter d x else answer (ltb n x) x)
  mode_check-run c base t n x i = rw (
    m.run_jump_if c x32_bit (uint8 (length (section_tail base n) - 1)) 0
        (section_tail base n ++ (t ++ filter)) d x,
    wrong_mode base t n x i,
    section_tail-run base t n x i,
  )

  moved :
      (t s s' : List Insn) (x : ℕ) (v : Option ℕ)
      → s ≡ s'
      → m.run (s ++ (t ++ filter)) d x ≡ v
      → m.run (s' ++ (t ++ filter)) d x ≡ v
  moved t s s' x v e r = subst (λ z. m.run (z ++ (t ++ filter)) d x ≡ v) e r

  with_mode-run :
      (base : ℕ) (t : List Insn) (audit_arch : ℕ) (a : ScmpArch) (n x : ℕ) (s : List Insn)
      → IsTail base t
      → with_mode h audit_arch a (section_tail base n) ≡ ok s
      → m.run (s ++ (t ++ filter)) d x
        ≡ answer
            (ltb n x
              && not (
                  audit_arch == h.x86_64
                  && (if scmp_eq a arch_amd64
                      then not (bit_and x x32_bit == 0)
                      else bit_and x x32_bit == 0)))
            x
  with_mode-run base t audit_arch a n x s i e = elim (Bool-cases (audit_arch == h.x86_64)) [
    | inr other ↦
        moved t _ s x _ (ok-injective (section_tail base n) s (rw other at e))
          (rw other (section_tail-run base t n x i ∙ ground arith))
    | inl same ↦ elim (Bool-cases (scmp_eq a arch_amd64)) [
      | inl amd ↦
          moved t _ s x _ (ok-injective (mode_check jump_bits_set base n) s (rw (same, amd) at e))
            (rw (same, amd) (mode_check-run jump_bits_set base t n x i ∙ ground arith))
      | inr more ↦ elim (Bool-cases (scmp_eq a arch_x32)) [
        | inl x32 ↦
            moved t _ s x _
              (ok-injective (mode_check jump_bits_not_set base n) s (rw (same, more, x32) at e))
              (rw (same, more) (mode_check-run jump_bits_not_set base t n x i ∙ ground arith))
        | inr none_left ↦
            absurd (err_ne_ok unknown_amd64_native s (rw (same, more, none_left) at e))
      ]
    ]
  ]

  section_one-run :
      (base : ℕ) (t : List Insn) (audit_arch : ℕ) (a : ScmpArch) (n x : ℕ) (s : List Insn)
      → IsTail base t
      → section_one h base audit_arch a n ≡ ok s
      → m.run (s ++ (t ++ filter)) d x ≡ answer (denied_one h audit_arch a n d.nr) d.nr
  unfolding section_one
  section_one-run base t audit_arch a n x s i e =
      let step =
        ok_step (with_mode h audit_arch a (section_tail base n))
          (λ tail. ok (section_start h a ++ tail)) e in
      let rest = with_mode-run base t audit_arch a n d.nr step.0 i step.1 in
      elim (Bool-cases (is_s390 a)) [
        | inl s390 ↦ moved t _ s x _ (ok-injective _ s step.2) (
            rw
              (
                s390,
                m.run_load_nr _ d x,
                m.run_jump_if jump_not_equal 0 1 0
                    (ret_constant h.ret_errno_enosys ∷ (step.0 ++ (t ++ filter))) d d.nr,
                m.run_ret h.ret_errno_enosys (step.0 ++ (t ++ filter)) d d.nr,
                rest,
              )
              (ground arith))
        | inr plain ↦
            moved t _ s x _ (ok-injective _ s step.2) (rw (plain, m.run_load_nr _ d x) rest)
      ]

  section_two-run :
      (base : ℕ) (t : List Insn) (x32 x86 x : ℕ)
      → IsTail base t
      → m.run (section_two base x32 x86 ++ (t ++ filter)) d x
        ≡ answer (if bit_and d.nr x32_bit == 0 then ltb x86 d.nr else ltb x32 d.nr) d.nr
  unfolding section_two
  section_two-run base t x32 x86 x i = elim (Bool-cases (leb (base + 2) 255)) [
    | inl e ↦
        rw
          (
            e,
            m.run_load_nr _ d x,
            m.run_jump_if jump_bits_set x32_bit 1 0 (jgt86 ∷ jgt32 ∷ ja ∷ (t ++ filter)) d d.nr,
            m.run_jump_if jump_greater_than x86 (uint8 (base + 2)) 1 (jgt32 ∷ ja ∷ (t ++ filter)) d
                d.nr,
            m.run_jump_if jump_greater_than x32 (uint8 (base + 1)) 0 (ja ∷ (t ++ filter)) d d.nr,
            uint8_small (base + 2) e,
            drop-next_two base jgt32 ja (t ++ filter),
            uint8_small (base + 1) (ground arith),
            drop-next base ja (t ++ filter),
            i.1 d.nr,
            over_tail base t d.nr i,
          )
          (ground arith)
    | inr e ↦
        rw
          (
            e,
            m.run_load_nr _ d x,
            m.run_jump_if jump_bits_set x32_bit 1 0
                (jump_if jump_greater_than x86 1 2 ∷ jle32 ∷ ja ∷ ja ∷ (t ++ filter)) d d.nr,
            m.run_jump_if jump_greater_than x86 1 2 (jle32 ∷ ja ∷ ja ∷ (t ++ filter)) d d.nr,
            m.run_jump_if jump_less_or_equal x32 1 0 (ja ∷ ja ∷ (t ++ filter)) d d.nr,
            m.run_jump (base + 1) (ja ∷ (t ++ filter)) d d.nr,
            drop-next base ja (t ++ filter),
            i.1 d.nr,
            over_tail base t d.nr i,
          )
          (ground arith)
  ]
    where
      ja : Insn
      ja = jump (base + 1)

      jgt32 : Insn
      jgt32 = jump_if jump_greater_than x32 (uint8 (base + 1)) 0

      jgt86 : Insn
      jgt86 = jump_if jump_greater_than x86 (uint8 (base + 2)) 1

      jle32 : Insn
      jle32 = jump_if jump_less_or_equal x32 1 0

  overlap-run :
      (base : ℕ) (t : List Insn) (audit_arch : ℕ) (x32 x86 : Option ℕ) (x : ℕ) (s : List Insn)
      → IsTail base t
      → section_overlap h base audit_arch x32 x86 ≡ ok s
      → m.run (s ++ (t ++ filter)) d x ≡ answer (denied_two x32 x86 d.nr) d.nr
  unfolding section_overlap
  overlap-run base t audit_arch none x86 x s i e = elim (Bool-cases (audit_arch == h.x86_64)) [
    | inl same ↦ absurd (err_ne_ok missing_x32 s (rw same at e))
    | inr other ↦ absurd (err_ne_ok unknown_overlap s (rw other at e))
  ]
  overlap-run base t audit_arch (some x32) none x s i e =
      elim (Bool-cases (audit_arch == h.x86_64)) [
        | inl same ↦ absurd (err_ne_ok missing_amd64 s (rw same at e))
        | inr other ↦ absurd (err_ne_ok unknown_overlap s (rw other at e))
      ]
  overlap-run base t audit_arch (some x32) (some x86) x s i e =
      elim (Bool-cases (audit_arch == h.x86_64)) [
        | inl same ↦
            moved t _ s x _ (ok-injective (section_two base x32 x86) s (rw same at e))
              (section_two-run base t x32 x86 x i)
        | inr other ↦ absurd (err_ne_ok unknown_overlap s (rw other at e))
      ]

  -- A section answers for its architecture, from its first instruction on, or passes on to the
  -- filter with the number of the call in the accumulator.
  pub section-run :
      (base : ℕ) (t : List Insn) (audit_arch : ℕ) (ms : List (ScmpArch × ℕ)) (x : ℕ) (s : List Insn)
      → IsTail base t
      → section h base audit_arch ms ≡ ok (some s)
      → m.run (s ++ (t ++ filter)) d x ≡ answer (denied h audit_arch ms d.nr) d.nr
  unfolding section
  section-run base t audit_arch [] x s i e = absurd (nothing_made s e)
  section-run base t audit_arch ((a, n) ∷ []) x s i e =
      let step = ok_step (section_one h base audit_arch a n) (λ s. ok (some s)) e in
      moved t _ s x _ (some_of step.2) (section_one-run base t audit_arch a n x step.0 i step.1)
  section-run base t audit_arch (p ∷ q ∷ []) x s i e =
      let step =
        ok_step
          (section_overlap h base audit_arch (max_syscall arch_x32 (p ∷ q ∷ []))
            (max_syscall arch_amd64 (p ∷ q ∷ [])))
          (λ s. ok (some s)) e in
      moved t _ s x _ (some_of step.2) (overlap-run base t audit_arch _ _ x step.0 i step.1)
  section-run base t audit_arch (p ∷ q ∷ r ∷ rest) x s i e =
      absurd (err_ne_ok invalid_overlaps (some s) e)
