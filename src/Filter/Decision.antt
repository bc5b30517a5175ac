-- ===== src/Filter/Decision.antt =====
-- The decision of the whole filter of cgroups/ebpf/devicefilter/devicefilter.go, against the
-- emulator's table.
use libcontainer.Prelude.{
  Bool, true, false, not, List, some, ◌≡◌, refl, ◌∙◌, ap, if◌then◌else◌, any, All, ok,
}
use libcontainer.Devices.{Rule}
use libcontainer.Emulator.{Emulator, apply_all, deny_all, ordered_entries}
use libcontainer.Emulator.Table.{ordered_entries-All}
use libcontainer.Emulator.Apply.{IsEntry, IsValid, apply_all-IsValid, reset-IsValid}
use libcontainer.Filter.{r1, Insn, filter_of, device_filter}
use libcontainer.Filter.Machine.{DeviceContext, Regs, address, Machine}
use libcontainer.Filter.Blocks.{verdict, prologue_lem}
use libcontainer.Filter.Entries.{covers, granted, HasSmallNumbers, any-ordered_entries}
use libcontainer.Filter.Output.{decision, printed, Gives-program_text, filter_of-text}

module _ (m : Machine) (c : DeviceContext) where
  -- The program is there, and it returns the answer when it starts with the context's address.
  abbrev pub Answers : Bool → List Insn → Type 0
  Answers b insts = (ρ : Regs) → ρ r1 ≡ address → m.run insts c ρ ≡ some (verdict b)

  decision-granted :
      (e : Emulator) → decision e.default_allow c (ordered_entries e.rules) ≡ verdict (granted e c)
  decision-granted e = rw (any-ordered_entries (covers c) e.rules) (pick (any (covers c) e.rules))
    where
      pick :
          (b : Bool)
          → (if b then verdict (not e.default_allow) else verdict e.default_allow)
            ≡ verdict (if b then not e.default_allow else e.default_allow)
      pick true = refl
      pick false = refl

  filter_of-Answers :
      (e : Emulator)
      → IsValid e
      → All HasSmallNumbers e.rules
      → (insts : List Insn) × (filter_of e ≡ ok insts) × Answers (granted e c) insts
  filter_of-Answers e v s =
      let entries =
        printed (ordered_entries e.rules) (ordered_entries-All IsEntry e.rules v.entries)
          (ordered_entries-All HasSmallNumbers e.rules s) in
      (
        _,
        filter_of-text e entries,
        λ ρ h.
            prologue_lem m c _ _ ρ h
              (Gives-program_text m c e.default_allow 0 (ordered_entries e.rules) entries)
            ∙ ap some (decision-granted e),
      )

  -- Where the emulator accepts the rules and its numbers are below 2^31, `DeviceFilter` returns
  -- a program with no error. On every machine that meets the interface the program returns 1 if
  -- the request is granted and 0 if not: the default is turned round exactly if one entry of the
  -- emulator covers the device and all of the access.
  pub device_filter-granted :
      (rules : List Rule) (e : Emulator)
      → apply_all deny_all rules ≡ ok e
      → All HasSmallNumbers e.rules
      → (insts : List Insn) × (device_filter rules ≡ ok insts) × Answers (granted e c) insts
  unfolding device_filter
  device_filter-granted rules e h s =
      rw (h, device_filter)
        (filter_of-Answers e (apply_all-IsValid rules deny_all e (reset-IsValid false) h) s)
