-- ===== src/Filter/Entries.antt =====
-- One entry of the emulator's table under the filter of
-- cgroups/ebpf/devicefilter/devicefilter.go: what it decides, and the block that is printed for it.
use libcontainer.Prelude.{
  ℕ, ◌+◌, Bool, true, false, ◌&&◌, ◌||◌, not, List, [], ◌∷◌, ◌++◌, some, ◌≡◌, refl, ◌∙◌, ap, inl,
  inr, arith, ◌==◌, ==_iff, if◌then◌else◌, Bool-cases, any, Result, ok, err, holds_below,
  holds_below_at, subst,
}
use libcontainer.Prelude.Int.{ℤ, pos, negsuc}
use libcontainer.Devices.{Permissions, to_set, from_set, is_empty, char_device}
use libcontainer.Devices.Permissions.{IsCanonical, to_set-lt}
use libcontainer.Emulator.{
  DeviceRule, DeviceRules, Emulator, as_rule, ordered_entries, insert_entry, before,
}
use libcontainer.Emulator.Apply.{IsCgroupNode, IsEntry}
use libcontainer.Filter.{
  Insn, Program, Error, dev_char, dev_block, bpf_type, bpf_access, too_large, block, append_rule,
}
use libcontainer.Filter.Machine.{DeviceContext}
use libcontainer.Filter.Blocks.{IsSmall, requested_type, access_matches, number_matches}

-- The kernel's number for the type of an entry, and its bits for the entry's permissions.
abbrev pub kernel_type : ℕ → ℕ
kernel_type node = if node == char_device then dev_char else dev_block

abbrev pub kernel_access : Permissions → ℕ
kernel_access p =
    (if any (λ c. c == b'r') p then 2 else 0)
    + (if any (λ c. c == b'w') p then 4 else 0)
    + (if any (λ c. c == b'm') p then 1 else 0)

-- The request is for a device of the entry, and for nothing beyond the entry's permissions.
abbrev pub covers : DeviceContext → DeviceRule → Bool
covers c r =
    not (is_empty r.perms)
    && (requested_type c == kernel_type r.meta.node
        && (access_matches (kernel_access r.perms) c
            && (number_matches r.meta.major c.major && number_matches r.meta.minor c.minor)))

-- An entry that covers the request turns the default round.
abbrev pub granted : Emulator → DeviceContext → Bool
granted e c = if any (covers c) e.rules then not e.default_allow else e.default_allow

-- Numbers that a signed 32-bit immediate can hold.
pub record HasSmallNumbers (r : DeviceRule) : Type 0 where
  pub small_major : IsSmall r.meta.major
  pub small_minor : IsSmall r.meta.minor

any-insert :
    (p : DeviceRule → Bool) (r : DeviceRule) (rs : List DeviceRule)
    → any p (insert_entry r rs) ≡ (p r || any p rs)
unfolding insert_entry
any-insert p r [] = refl
any-insert p r (x ∷ xs) = elim (Bool-cases (before x.meta r.meta)) [
  | inl e ↦ rw (e, any-insert p r xs) (or_swap (p x) (p r) (any p xs))
  | inr e ↦ rw e refl
]
  where
    or_swap : (a b c : Bool) → (a || (b || c)) ≡ (b || (a || c))
    or_swap a b c = ground arith

pub any-ordered_entries :
    (p : DeviceRule → Bool) (rs : DeviceRules) → any p (ordered_entries rs) ≡ any p rs
unfolding ordered_entries
any-ordered_entries p [] = refl
any-ordered_entries p (r ∷ rs) =
    any-insert p r (ordered_entries rs) ∙ ap (◌||◌ (p r)) (any-ordered_entries p rs)

access_table :
    holds_below 8 (λ s. elim (bpf_access 0 (from_set s)) [
      | ok a ↦ a == kernel_access (from_set s)
      | err _ ↦ false
    ])
    ≡ true
unfolding holds_below bpf_access from_set
access_table = refl

access_of_table :
    (x : Result Error ℕ) (a : ℕ) → (elim x [ ok b ↦ b == a | err _ ↦ false ]) ≡ true → x ≡ ok a
access_of_table (ok b) a h = ap ok ((==_iff b a).0 h)
access_of_table (err _) a h = cc

bpf_access-canonical : (p : Permissions) → IsCanonical p → bpf_access 0 p ≡ ok (kernel_access p)
bpf_access-canonical p h =
    subst (λ q. bpf_access 0 q ≡ ok (kernel_access q)) h
      (access_of_table _ _ (holds_below_at _ 8 (to_set p) (to_set-lt p) access_table))

pub bpf_type-node : (n : ℕ) → IsCgroupNode n → bpf_type n ≡ ok (kernel_type n)
unfolding bpf_type
bpf_type-node n h = ground arith

small_fits : (n : ℤ) → IsSmall n → too_large n ≡ false
small_fits (pos n) h = ground arith
small_fits (negsuc n) h = refl

unfoldable pub entry_block : Bool → ℕ → DeviceRule → List Insn
entry_block d n r =
    block n (kernel_type r.meta.node) (kernel_access r.perms) (as_rule (not d) r.meta r.perms)

pub append_rule-entry :
    (p : Program) (n : ℕ) (d : Bool) (r : DeviceRule)
    → p.block_id ≡ some n
    → IsEntry r
    → HasSmallNumbers r
    → append_rule p (as_rule (not d) r.meta r.perms)
      ≡ ok (record p { insts = p.insts ++ entry_block d n r; block_id = some (n + 1) })
unfolding append_rule entry_block
append_rule-entry p n d r h e s = ground (
  arith,
  bpf_type-node r.meta.node e.node,
  small_fits r.meta.major s.small_major,
  small_fits r.meta.minor s.small_minor,
  bpf_access-canonical r.perms e.canonical,
)
