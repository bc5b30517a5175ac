-- ===== src/Seccomp/Stub.antt =====
-- What the stub of seccomp/patchbpf/enosys_linux.go answers, and where it passes on to the filter.
use libcontainer.Prelude.{
  drop, ℕ, ◌+◌, ◌-◌, ◌≤◌, Bool, true, false, List, [], ◌∷◌, ◌++◌, Option, none, some, leb, ◌==◌,
  if◌then◌else◌, length, length-append, ok, ◌≡◌, ◌≢◌, refl, sym, ap, ◌∙◌, arith, All, Bool-cases,
  inl, inr, any, append_assoc, ok_step, ok-injective, subst, ==_iff, ◌⊎◌,
}
use libcontainer.Seccomp.{
  jump_equal, jump_not_equal, Insn, load_absolute, jump, ScmpArch, Header, ArchEntry,
  LastSyscallMap, uint8, section, JumpTable, distance, prepended, add_sections, arch_rule,
  add_arch_rules, first_tail, generate_enosys_stub,
}
use libcontainer.Seccomp.Machine.{Machine, SeccompData}
use libcontainer.Seccomp.Sections.{
  IsTail, answer, denied, section-run, drop-prefix, drop-length, uint8_small, nothing_made,
}

eq_false : (a b : ℕ) → a ≢ b → (a == b) ≡ false
eq_false a b h = ground arith

eq_true : (a b : ℕ) → a ≡ b → (a == b) ≡ true
eq_true a b h = ground arith

ne_of_false : (a b : ℕ) → (a == b) ≡ false → a ≢ b
ne_of_false a b h e = ground arith

-- A section is left out only where there are no numbers.
section-some :
    (h : Header) (base audit_arch : ℕ) (p : ScmpArch × ℕ) (ms : List (ScmpArch × ℕ))
    → section h base audit_arch (p ∷ ms) ≢ ok none
unfolding section
section-some h base audit_arch p [] e = ground arith
section-some h base audit_arch p (q ∷ []) e = ground arith
section-some h base audit_arch p (q ∷ r ∷ ms) e = cc

section-none :
    (h : Header) (base audit_arch : ℕ) (s : List Insn) → section h base audit_arch [] ≢ ok (some s)
unfolding section
section-none h base audit_arch s = nothing_made s

-- The keys of a Go map differ.
abbrev pub IsDistinct : LastSyscallMap → Type 0
IsDistinct [] = Unit
IsDistinct (e ∷ es) = All (λ (f : ArchEntry). f.audit_arch ≢ e.audit_arch) es × IsDistinct es

-- a read of the map: the numbers of an architecture, if it is a key
unfoldable pub entry_at : ℕ → LastSyscallMap → Option (List (ScmpArch × ℕ))
entry_at a [] = none
entry_at a (e ∷ es) =
    let rest = entry_at a es in if e.audit_arch == a then some e.max_syscalls else rest

-- An order in which a map can be visited: each key once, with the value that the map has for it.
pub record IsOrder (es visited : LastSyscallMap) : Type 0 where
  pub distinct : IsDistinct visited
  pub same : (a : ℕ) → entry_at a visited ≡ entry_at a es

module _ (h : Header) (m : Machine) (d : SeccompData) (filter : List Insn) where
  -- What the program with the stub is to do: the first entry for the architecture decides, and where
  -- it has no numbers, or there is none, the filter runs.
  abbrev pub entry_answer : ℕ → List (ScmpArch × ℕ) → Option ℕ
  entry_answer audit_arch [] = m.run filter d d.arch
  entry_answer audit_arch (p ∷ ms) = answer h m d filter (denied h audit_arch (p ∷ ms) d.nr) d.nr

  unfoldable pub stub_answer : LastSyscallMap → Option ℕ
  stub_answer [] = m.run filter d d.arch
  stub_answer (e ∷ es) =
      if e.audit_arch == d.arch then entry_answer e.audit_arch e.max_syscalls else stub_answer es

  -- The place for the architecture in the jump table leads to a result.
  abbrev Leads : List Insn → JumpTable → Option ℕ → Type 0
  Leads t table v =
      (distance d.arch table ≤ length t)
      × (m.run (drop (length t - distance d.arch table) (t ++ filter)) d d.arch ≡ v)

  Leads-prefix :
      (s t : List Insn) (table : JumpTable) (v : Option ℕ)
      → Leads t table v
      → Leads (s ++ t) table v
  Leads-prefix s t table v l =
      let e : length (s ++ t) - distance d.arch table
          ≡ length s + (length t - distance d.arch table) =
        omega (arith, length-append s t, l.0) in
      (
        omega (arith, length-append s t, l.0),
        rw
            (
              e,
              append_assoc s t filter,
              drop-prefix s (t ++ filter) (length t - distance d.arch table),
            )
            l.1,
      )

  IsTail-prefix :
      (s t : List Insn)
      → IsTail h m d filter (length t - 1) t
      → IsTail h m d filter (length (s ++ t) - 1) (s ++ t)
  IsTail-prefix s t i =
      let e : length (s ++ t) - 1 ≡ length s + (length t - 1) =
        omega (arith, length-append s t, i.0) in
      (
        omega (arith, length-append s t, i.0),
        λ x. rw (e, append_assoc s t filter, drop-prefix s (t ++ filter) (length t - 1)) (i.1 x),
      )

  -- A section for another architecture leaves the place as it is.
  Leads-other :
      (e : ArchEntry) (t : List Insn) (table : JumpTable) (s : Option (List Insn)) (v : Option ℕ)
      → e.audit_arch ≢ d.arch
      → Leads t table v
      → Leads (prepended e t table s).0 (prepended e t table s).1 v
  unfolding distance
  Leads-other e t table none v ne l = l
  Leads-other e t table (some s) v ne l =
      rw (eq_false e.audit_arch d.arch ne) (Leads-prefix s t table v l)

  -- A place of 0 leads to the filter.
  Leads-filter :
      (t : List Insn) (table : JumpTable)
      → distance d.arch table ≡ 0
      → Leads t table (m.run filter d d.arch)
  Leads-filter t table z =
      let e : length t - 0 ≡ length t = omega arith in
      (omega (arith, z), rw (z, e, drop-length t filter))

  Leads-same :
      (audit_arch : ℕ) (ms : List (ScmpArch × ℕ)) (t : List Insn) (table : JumpTable)
      (s : Option (List Insn))
      → audit_arch ≡ d.arch
      → distance d.arch table ≡ 0
      → IsTail h m d filter (length t - 1) t
      → section h (length t - 1) audit_arch ms ≡ ok s
      → (let made = prepended (record { audit_arch = audit_arch; max_syscalls = ms }) t table s in
          Leads made.0 made.1 (entry_answer audit_arch ms))
  unfolding distance
  Leads-same a [] t table none same z i made = Leads-filter t table z
  Leads-same a (p ∷ ms) t table none same z i made =
      absurd (section-some h (length t - 1) a p ms made)
  Leads-same a [] t table (some s) same z i made = absurd (section-none h (length t - 1) a s made)
  Leads-same a (p ∷ ms) t table (some s) same z i made =
      let e : length (s ++ t) - length (s ++ t) ≡ 0 = omega arith in
      rw (eq_true a d.arch same, e, append_assoc s t filter)
        (omega arith, section-run h m d filter (length t - 1) t a (p ∷ ms) d.arch s i made)

  prepended-IsTail :
      (e : ArchEntry) (t : List Insn) (table : JumpTable) (s : Option (List Insn))
      → IsTail h m d filter (length t - 1) t
      → (let t' = (prepended e t table s).0 in IsTail h m d filter (length t' - 1) t')
  prepended-IsTail e t table none i = i
  prepended-IsTail e t table (some s) i = IsTail-prefix s t i

  -- The place, once found, stays through the entries for other architectures.
  add_sections_other :
      (es : LastSyscallMap) (t : List Insn) (table : JumpTable) (v : Option ℕ)
      (made : List Insn × JumpTable)
      → All (λ (e : ArchEntry). e.audit_arch ≢ d.arch) es
      → Leads t table v
      → add_sections h es (t, table) ≡ ok made
      → Leads made.0 made.1 v
  unfolding add_sections
  add_sections_other [] t table v made ne l r =
      subst (λ x. Leads x.0 x.1 v) (ok-injective (t, table) made r) l
  add_sections_other (e ∷ es) t table v made ne l r =
      let step =
        ok_step (section h (length t - 1) e.audit_arch e.max_syscalls)
          (λ s. add_sections h es (prepended e t table s)) r in
      let p = prepended e t table step.0 in
      add_sections_other es p.0 p.1 v made ne.1 (Leads-other e t table step.0 v ne.0 l) step.2

  prepended_other :
      (e : ArchEntry) (t : List Insn) (table : JumpTable) (s : Option (List Insn))
      → e.audit_arch ≢ d.arch
      → distance d.arch (prepended e t table s).1 ≡ distance d.arch table
  unfolding distance
  prepended_other e t table none ne = refl
  prepended_other e t table (some s) ne = rw (eq_false e.audit_arch d.arch ne)

  add_sections-Leads :
      (es : LastSyscallMap) (t : List Insn) (table : JumpTable) (made : List Insn × JumpTable)
      → IsDistinct es
      → IsTail h m d filter (length t - 1) t
      → distance d.arch table ≡ 0
      → add_sections h es (t, table) ≡ ok made
      → Leads made.0 made.1 (stub_answer es)
  unfolding add_sections stub_answer
  add_sections-Leads [] t table made ds i z r =
      subst (λ x. Leads x.0 x.1 (m.run filter d d.arch)) (ok-injective (t, table) made r)
        (Leads-filter t table z)
  add_sections-Leads (e ∷ es) t table made ds i z r =
      let step =
        ok_step (section h (length t - 1) e.audit_arch e.max_syscalls)
          (λ s. add_sections h es (prepended e t table s)) r in
      let p = prepended e t table step.0 in
      elim (Bool-cases (e.audit_arch == d.arch)) [
        | inl same ↦
            let eq = (==_iff e.audit_arch d.arch).0 same in
            rw same (
              add_sections_other es p.0 p.1 _ made
                (subst (λ k. All (λ (f : ArchEntry). f.audit_arch ≢ k) es) eq ds.0)
                (Leads-same e.audit_arch e.max_syscalls t table step.0 eq z i step.1) step.2)
        | inr other ↦ rw other (
            add_sections-Leads es p.0 p.1 made ds.1 (prepended-IsTail e t table step.0 i)
              (prepended_other e t table step.0 (ne_of_false e.audit_arch d.arch other) ∙ z) step.2)
      ]

  rule_other :
      (a dist : ℕ) (t : List Insn)
      → (d.arch == a) ≡ false
      → m.run (arch_rule a dist ++ (t ++ filter)) d d.arch ≡ m.run (t ++ filter) d d.arch
  rule_other a dist t ne = elim (Bool-cases (leb dist 255)) [
    | inl e ↦ rw (e, m.run_jump_if jump_equal a (uint8 dist) 0 (t ++ filter) d d.arch, ne)
    | inr e ↦ rw (e, m.run_jump_if jump_not_equal a 1 0 (jump dist ∷ (t ++ filter)) d d.arch, ne)
  ]

  rule_same :
      (a dist : ℕ) (t : List Insn)
      → (d.arch == a) ≡ true
      → m.run (arch_rule a dist ++ (t ++ filter)) d d.arch
        ≡ m.run (drop dist (t ++ filter)) d d.arch
  rule_same a dist t same = elim (Bool-cases (leb dist 255)) [
    | inl e ↦ rw (
      e,
      m.run_jump_if jump_equal a (uint8 dist) 0 (t ++ filter) d d.arch,
      same,
      uint8_small dist e,
    )
    | inr e ↦ rw (
      e,
      m.run_jump_if jump_not_equal a 1 0 (jump dist ∷ (t ++ filter)) d d.arch,
      same,
      m.run_jump dist (t ++ filter) d d.arch,
    )
  ]

  abbrev has_entry : LastSyscallMap → Bool
  has_entry es = any (λ (e : ArchEntry). d.arch == e.audit_arch) es

  rule_next :
      (e : ArchEntry) (es : LastSyscallMap) (t : List Insn) (table : JumpTable) (v : Option ℕ)
      → Leads t table v
      → (m.run (t ++ filter) d d.arch ≡ v) ⊎ (has_entry (e ∷ es) ≡ true)
      → (m.run
            ((arch_rule e.audit_arch (length t - distance e.audit_arch table) ++ t) ++ filter)
            d
            d.arch
          ≡ v)
        ⊎ (has_entry es ≡ true)
  rule_next e es t table v l hit =
      let dist = length t - distance e.audit_arch table in
      let regroup = append_assoc (arch_rule e.audit_arch dist) t filter in
      elim (Bool-cases (d.arch == e.audit_arch)) [
        | inl same ↦ inl (
            rw regroup (
              rule_same e.audit_arch dist t same
              ∙ subst (λ a. m.run (drop (length t - distance a table) (t ++ filter)) d d.arch ≡ v)
                  ((==_iff d.arch e.audit_arch).0 same) l.1))
        | inr other ↦ elim hit [
          | inl r ↦ inl (rw regroup (rule_other e.audit_arch dist t other ∙ r))
          | inr found ↦ inr (rw other at found)
        ]
      ]

  -- The jumps by the architecture lead to the place of the table, if there is an entry.
  add_arch_rules-run :
      (es : LastSyscallMap) (t : List Insn) (table : JumpTable) (v : Option ℕ)
      → Leads t table v
      → (m.run (t ++ filter) d d.arch ≡ v) ⊎ (has_entry es ≡ true)
      → m.run (add_arch_rules es table t ++ filter) d d.arch ≡ v
  unfolding add_arch_rules
  add_arch_rules-run [] t table v l (inl r) = r
  add_arch_rules-run [] t table v l (inr r) = cc
  add_arch_rules-run (e ∷ es) t table v l hit =
      let dist = length t - distance e.audit_arch table in
      let t' = arch_rule e.audit_arch dist ++ t in
      let l' = Leads-prefix (arch_rule e.audit_arch dist) t table v l in
      add_arch_rules-run es t' table v l' (rule_next e es t table v l hit)

  first_tail-IsTail : IsTail h m d filter (length (first_tail h) - 1) (first_tail h)
  first_tail-IsTail = (omega arith, λ x. m.run_ret h.ret_errno_enosys filter d x)

  abbrev answer_at : Option (List (ScmpArch × ℕ)) → Option ℕ
  answer_at none = m.run filter d d.arch
  answer_at (some ms) = entry_answer d.arch ms

  stub_answer-entry_at : (es : LastSyscallMap) → stub_answer es ≡ answer_at (entry_at d.arch es)
  unfolding stub_answer entry_at
  stub_answer-entry_at [] = refl
  stub_answer-entry_at (e ∷ es) = elim (Bool-cases (e.audit_arch == d.arch)) [
    | inl same ↦
        rw same (ap (λ a. entry_answer a e.max_syscalls) ((==_iff e.audit_arch d.arch).0 same))
    | inr other ↦ rw other (stub_answer-entry_at es)
  ]

  abbrev is_key : Option (List (ScmpArch × ℕ)) → Bool
  is_key none = false
  is_key (some ms) = true

  has_entry-entry_at : (es : LastSyscallMap) → has_entry es ≡ is_key (entry_at d.arch es)
  unfolding entry_at
  has_entry-entry_at [] = refl
  has_entry-entry_at (e ∷ es) = ground (arith, has_entry-entry_at es)

  no_key :
      (o : Option (List (ScmpArch × ℕ))) → is_key o ≡ false → answer_at o ≡ m.run filter d d.arch
  no_key none n = refl
  no_key (some ms) n = ground (arith, n)

  dummy_jump :
      (es jumps : LastSyscallMap) (t : List Insn)
      → IsOrder es jumps
      → (m.run ((jump (length t) ∷ t) ++ filter) d d.arch ≡ stub_answer es)
        ⊎ (has_entry jumps ≡ true)
  dummy_jump es jumps t o = elim (Bool-cases (has_entry jumps)) [
    | inl found ↦ inr found
    | inr n ↦
        let absent = ap is_key (sym (o.same d.arch)) ∙ sym (has_entry-entry_at jumps) ∙ n in
        inl (
          rw (m.run_jump (length t) (t ++ filter) d d.arch, drop-length t filter)
            (sym (stub_answer-entry_at es ∙ no_key (entry_at d.arch es) absent)))
  ]

  -- With the stub in front of a filter, on every machine that meets the interface: a system call
  -- gets -ENOSYS if the numbers of its architecture deny it, and any other goes to the filter, for
  -- every map, every order in which each of the two loops visits it, and jumps of every length.
  pub generate_enosys_stub-run :
      (es sections jumps : LastSyscallMap) (stub : List Insn) (x : ℕ)
      → IsOrder es sections
      → IsOrder es jumps
      → generate_enosys_stub h sections jumps ≡ ok stub
      → m.run (stub ++ filter) d x ≡ stub_answer es
  unfolding generate_enosys_stub distance
  generate_enosys_stub-run es sections jumps stub x first second r =
      let step =
        ok_step (add_sections h sections (first_tail h, []))
          (λ made.
            ok (load_absolute 4 4 ∷ add_arch_rules jumps made.1 (jump (length made.0) ∷ made.0)))
          r in
      let made = step.0 in
      let same =
        stub_answer-entry_at sections
        ∙ ap answer_at (first.same d.arch)
        ∙ sym (stub_answer-entry_at es) in
      let leads = subst (Leads made.0 made.1) same (
        add_sections-Leads sections (first_tail h) [] made first.distinct first_tail-IsTail refl
          step.1) in
      subst (λ s. m.run (s ++ filter) d x ≡ stub_answer es)
        (ok-injective
          (load_absolute 4 4 ∷ add_arch_rules jumps made.1 (jump (length made.0) ∷ made.0)) stub
          step.2)
        (m.run_load_arch (add_arch_rules jumps made.1 (jump (length made.0) ∷ made.0) ++ filter) d x
          ∙ add_arch_rules-run jumps (jump (length made.0) ∷ made.0) made.1 (stub_answer es)
              (Leads-prefix (jump (length made.0) ∷ []) made.0 made.1 (stub_answer es) leads)
              (dummy_jump es jumps made.0 second))
