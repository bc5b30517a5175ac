-- ===== src/Filter/Output.antt =====
-- The text of the filter that the loop of cgroups/ebpf/devicefilter/devicefilter.go prints for a
-- table, and what it returns.
use libcontainer.Prelude.{
  ℕ, ◌+◌, ◌^◌, ◌<◌, Bool, true, false, ◌||◌, not, List, [], ◌∷◌, ◌++◌, some, ◌≡◌, refl, ◌∙◌, ap,
  inl, inr, arith, ==_iff, if◌then◌else◌, Bool-cases, append_assoc, any, All, ok, subst,
}
use libcontainer.Devices.{is_empty, Rule}
use libcontainer.Devices.Permissions.{difference-nil}
use libcontainer.Emulator.{
  DeviceRule, DeviceRules, Emulator, get, as_rule, rules_for_changes, minimal_rules, transition,
  ordered_entries,
}
use libcontainer.Emulator.Apply.{IsEntry}
use libcontainer.Filter.{
  Insn, Program, append_rules, block, epilogue, finalize, prologue, filter_of,
}
use libcontainer.Filter.Machine.{DeviceContext, seek, Machine}
use libcontainer.Filter.Blocks.{Gives, verdict, rule_matches, block_lem, return_lem}
use libcontainer.Filter.Entries.{
  kernel_type, kernel_access, covers, HasSmallNumbers, entry_block, append_rule-entry,
}

-- The text behind the prologue for the entries from block `n` on.
unfoldable pub program_text : Bool → ℕ → List DeviceRule → List Insn
program_text d n [] = epilogue d (some n)
program_text d n (r ∷ rs) =
    let skipped = program_text d n rs in
    let printed = entry_block d n r ++ program_text d (n + 1) rs in
    if is_empty r.perms then skipped else printed

seek-program_text :
    (d : Bool) (n : ℕ) (rs : List DeviceRule) → seek n (program_text d n rs) ≡ program_text d n rs
unfolding program_text epilogue entry_block block
seek-program_text d n [] = rw ((==_iff n n).1 refl) refl
seek-program_text d n (r ∷ rs) = elim (Bool-cases (is_empty r.perms)) [
  | inl e ↦ rw e (seek-program_text d n rs)
  | inr e ↦ rw (e, (==_iff n n).1 refl) refl
]

abbrev pub IsPrinted : DeviceRule → Type 0
IsPrinted r = IsEntry r × HasSmallNumbers r

abbrev pub decision : Bool → DeviceContext → List DeviceRule → ℕ
decision d c rs = if any (covers c) rs then verdict (not d) else verdict d

or_if : (a b : Bool) (x y : ℕ) → (if a then x else if b then x else y) ≡ (if a || b then x else y)
or_if true b x y = refl
or_if false b x y = refl

small_type : (n : ℕ) → kernel_type n < 2 ^ 31
small_type n = ground arith

module _ (m : Machine) (c : DeviceContext) where
  pub Gives-program_text :
      (d : Bool) (n : ℕ) (rs : List DeviceRule)
      → All IsPrinted rs
      → Gives m c (decision d c rs) (program_text d n rs)
  unfolding program_text epilogue entry_block
  Gives-program_text d n [] h = return_lem m c (verdict d) (some n) []
  Gives-program_text d n (r ∷ rs) h = elim (Bool-cases (is_empty r.perms)) [
    | inl e ↦ rw e (Gives-program_text d n rs h.1)
    | inr e ↦ rw e (
        subst (λ x. Gives m c x (entry_block d n r ++ program_text d (n + 1) rs))
          (or_if
            (rule_matches m c (kernel_type r.meta.node) (kernel_access r.perms)
              (as_rule (not d) r.meta r.perms))
            (any (covers c) rs) (verdict (not d)) (verdict d))
          (block_lem m c n (kernel_type r.meta.node) (kernel_access r.perms)
            (as_rule (not d) r.meta r.perms) (program_text d (n + 1) rs) (decision d c rs)
            (small_type r.meta.node) h.0.1.small_major h.0.1.small_minor
            (seek-program_text d (n + 1) rs) (Gives-program_text d (n + 1) rs h.1)))
  ]

append_entry :
    (blacklist : Bool) (idx n : ℕ) (d : Bool) (p : Program) (r : DeviceRule) (rules : List Rule)
    → p.block_id ≡ some n
    → p.default_allow ≡ d
    → IsEntry r
    → HasSmallNumbers r
    → append_rules blacklist idx p (as_rule (not d) r.meta r.perms ∷ rules)
      ≡ append_rules blacklist
          (idx + 1)
          (record p { insts = p.insts ++ entry_block d n r; block_id = some (n + 1) })
          rules
unfolding append_rules
append_entry blacklist idx n true p r rules h k e s =
    ground (arith, append_rule-entry p n true r h e s, e.node)
append_entry blacklist idx n false p r rules h k e s =
    ground (arith, append_rule-entry p n false r h e s, e.node)

-- The loop of `DeviceFilter` succeeds on the rules that `Rules` gives for the entries, and the
-- finished program is the text for them behind what stood there.
append-entries :
    (blacklist : Bool) (idx n : ℕ) (d : Bool) (p : Program) (es : List DeviceRule)
    → p.block_id ≡ some n
    → p.default_allow ≡ d
    → All IsPrinted es
    → (p' : Program) × (append_rules blacklist idx p (rules_for_changes (not d) [] es) ≡ ok p')
      × (finalize p' ≡ p.insts ++ program_text d n es)
unfolding rules_for_changes append_rules finalize program_text get
append-entries blacklist idx n d p [] h k a = (p, refl, rw (h, k) refl)
append-entries blacklist idx n d p (r ∷ rs) h k a = elim (Bool-cases (is_empty r.perms)) [
  | inl e ↦
      rw (difference-nil r.perms a.0.0.canonical, e) (append-entries blacklist idx n d p rs h k a.1)
  | inr e ↦
      let p1 : Program = record p {
        insts = p.insts ++ entry_block d n r;
        block_id = some (n + 1);
      } in
      let (p', done, text) = append-entries blacklist (idx + 1) (n + 1) d p1 rs refl k a.1 in
      let step =
        append_entry blacklist idx n d p r (rules_for_changes (not d) [] rs) h k a.0.0 a.0.1 in
      (
        p',
        rw (difference-nil r.perms a.0.0.canonical, e) (step ∙ done),
        rw e (text ∙ append_assoc p.insts _ _),
      )
]

abbrev start : Emulator → Program
start e = record { insts = prologue; default_allow = e.default_allow; block_id = some 0 }

append-minimal_rules :
    (e : Emulator) (p : Program)
    → append_rules e.default_allow 0 p (minimal_rules e)
      ≡ append_rules e.default_allow
          (if e.default_allow then 1 else 0)
          p
          (rules_for_changes (not e.default_allow) [] (ordered_entries e.rules))
unfolding minimal_rules transition append_rules ordered_entries rules_for_changes
append-minimal_rules e p = elim (Bool-cases e.default_allow) [
  | inl h ↦ rw h refl
  | inr h ↦ rw h refl
]

pub printed : (rs : DeviceRules) → All IsEntry rs → All HasSmallNumbers rs → All IsPrinted rs
printed [] h k = tt
printed (r ∷ rs) h k = ((h.0, k.0), printed rs h.1 k.1)

pub filter_of-text :
    (e : Emulator)
    → All IsPrinted (ordered_entries e.rules)
    → filter_of e ≡ ok (prologue ++ program_text e.default_allow 0 (ordered_entries e.rules))
unfolding filter_of
filter_of-text e h =
    let (p', done, text) =
      append-entries e.default_allow (if e.default_allow then 1 else 0) 0 e.default_allow (start e)
        (ordered_entries e.rules) refl refl h in
    rw (append-minimal_rules e (start e), done) (ap ok text)
