-- ===== src/Spec/Devices/Mknod.antt =====
-- What the emulator of cgroups/devices answers on mknod behind the default device rules of
-- specconv/spec_linux.go.
use libcontainer.Prelude.{
  ℕ, Bool, true, false, ◌&&◌, ◌||◌, not, [], ◌∷◌, ◌==◌, bit_and, any, All, All-imp, All-both, ◌≡◌,
  refl, sym, subst, ap, ◌∙◌, inl, inr, arith, Bool-cases, holds_below, holds_below_at,
}
use libcontainer.Prelude.Int.{eq_ℤ, eq_ℤ_iff}
use libcontainer.Text.{codes}
use libcontainer.Devices.{Permissions, Rule, wildcard, to_set, from_set, is_empty, and_not}
use libcontainer.Devices.Permissions.{IsCanonical, nil-IsCanonical, to_set-lt}
use libcontainer.Emulator.{DeviceMeta, DeviceRule, DeviceRules, Emulator, meta_eq, get}
use libcontainer.Emulator.Table.{meta_eq_iff, own_value}
use libcontainer.Emulator.Apply.{IsCgroupNode, IsEntry, IsValid}
use libcontainer.Emulator.Grants.{refused, refused_bits}
use libcontainer.Filter.{acc_all}
use libcontainer.Filter.Machine.{DeviceContext}
use libcontainer.Filter.Blocks.{requested_type, requested_access, access_matches}
use libcontainer.Filter.Entries.{kernel_type, kernel_access, covers, granted}
use libcontainer.Spec.{rule_only}

-- The rule that allows mknod of each device of a type.
abbrev pub mknod_rule : ℕ → Rule
mknod_rule type = (rule_only type wildcard wildcard (codes "m")).rule

abbrev every_device : ℕ → DeviceMeta
every_device type = record { node = type; major = wildcard; minor = wildcard }

abbrev pub is_every : DeviceMeta → Bool
is_every m = eq_ℤ m.major wildcard && eq_ℤ m.minor wildcard

-- A request for mknod and nothing else, of a device of a type.
pub record IsMknod (type : ℕ) (c : DeviceContext) : Type 0 where
  pub device : requested_type c ≡ kernel_type type
  pub access : requested_access c ≡ 1

-- A request is granted, or it is refused in black-list mode by an entry that is not for every device
-- of a type.
pub data IsGranted (e : Emulator) (c : DeviceContext) : Type 0 where
  allowed : granted e c ≡ true → IsGranted e c
  own_entry :
      e.default_allow ≡ true
      → any (λ r. covers c r && not (is_every r.meta)) e.rules ≡ true
      → IsGranted e c

-- Permissions that are matched by mknod alone.
abbrev asks : Permissions → Bool
asks p = kernel_access p == acc_all || (bit_and 1 (kernel_access p) == 1)

mknod_table :
    holds_below 8 (λ s.
      (not (and_not (to_set (codes "m")) s == 0)
        || (asks (from_set s) && not (is_empty (from_set s))))
      && (not (bit_and s (to_set (codes "m")) == 0) || not (asks (from_set s))))
    ≡ true
unfolding holds_below from_set to_set is_empty
mknod_table = refl

mknod_bits :
    (p : Permissions)
    → IsCanonical p
    → (refused_bits false (to_set p) (to_set (codes "m")) ≡ 0
        → (asks p ≡ true) × (is_empty p ≡ false))
      × (refused_bits true (to_set p) (to_set (codes "m")) ≡ 0 → asks p ≡ false)
mknod_bits p h =
    let row = holds_below_at _ 8 (to_set p) (to_set-lt p) mknod_table in
    let row' =
      subst
        (λ q.
          ((not (and_not (to_set (codes "m")) (to_set p) == 0) || (asks q && not (is_empty q)))
            && (not (bit_and (to_set p) (to_set (codes "m")) == 0) || not (asks q)))
          ≡ true)
        h row in
    (λ z. ground (arith, row', z), λ z. ground (arith, row', z))

get-IsCanonical : (rs : DeviceRules) (m : DeviceMeta) → All IsEntry rs → IsCanonical (get rs m)
unfolding get
get-IsCanonical [] m a = nil-IsCanonical
get-IsCanonical (r ∷ rs) m a = elim (Bool-cases (meta_eq r.meta m)) [
  | inl e ↦ rw e (a.0.canonical)
  | inr e ↦ rw e (get-IsCanonical rs m a.1)
]

-- What holds of the entry for a device holds of some entry.
any_of_get :
    (f : DeviceRule → Bool) (rs : DeviceRules) (m : DeviceMeta)
    → is_empty (get rs m) ≡ false
    → f (record { meta = m; perms = get rs m }) ≡ true
    → any f rs ≡ true
unfolding get is_empty
any_of_get f [] m ne h = cc
any_of_get f (r ∷ rs) m ne h = elim (Bool-cases (meta_eq r.meta m)) [
  | inl e ↦
      let same = (meta_eq_iff r.meta m).0 e in
      let here : f r ≡ true =
        subst (λ x. f (record { meta = x; perms = r.perms }) ≡ true) (sym same) (rw e at h) in
      rw here refl
  | inr e ↦ let rest = any_of_get f rs m (rw e at ne) (rw e at h) in ground (arith, rest)
]

any_narrow :
    (f g : DeviceRule → Bool) (rs : DeviceRules)
    → All (λ r. f r ≡ true → g r ≡ true) rs
    → any f rs ≡ true
    → any g rs ≡ true
any_narrow f g [] a h = h
any_narrow f g (r ∷ rs) a h = elim (Bool-cases (f r)) [
  | inl e ↦ rw (a.0 e) refl
  | inr e ↦ ground (arith, any_narrow f g rs a.1 (rw e at h))
]

module _ (e : Emulator) (type : ℕ) (c : DeviceContext) (v : IsValid e) (node : IsCgroupNode type)
    (asked : IsMknod type c) (free : refused e (mknod_rule type) ≡ 0) where
  abbrev perms : Permissions
  perms = get e.rules (every_device type)

  bits :
      (refused_bits false (to_set perms) (to_set (codes "m")) ≡ 0
        → (asks perms ≡ true) × (is_empty perms ≡ false))
      × (refused_bits true (to_set perms) (to_set (codes "m")) ≡ 0 → asks perms ≡ false)
  bits = mknod_bits perms (get-IsCanonical e.rules (every_device type) v.entries)

  access_asks : (p : Permissions) → access_matches (kernel_access p) c ≡ asks p
  access_asks p = rw (asked.access) refl

  white : e.default_allow ≡ false → IsGranted e c
  white mode =
      let (matched, full) = bits.0 (rw mode at free) in
      let found =
        any_of_get (covers c) e.rules (every_device type) full
          (ground (arith, full, asked.device, access_asks perms, matched)) in
      allowed (rw (found, mode) refl)

  same_type : (n : ℕ) → IsCgroupNode n → kernel_type type ≡ kernel_type n → n ≡ type
  same_type n i k = ground (arith, i, k, node)

  -- An entry that covers the request is not the one of every device.
  narrow :
      e.default_allow ≡ true
      → (r : DeviceRule) → IsEntry r
      → get e.rules r.meta ≡ r.perms
      → covers c r ≡ true
      → (covers c r && not (is_every r.meta)) ≡ true
  narrow mode r i own h = elim (Bool-cases (is_every r.meta)) [
    | inl every ↦
        let same : r.meta ≡ every_device type = ground (
          arith,
          every,
          h,
          asked.device,
          same_type r.meta.node i.node,
          eq_ℤ_iff r.meta.major wildcard,
          eq_ℤ_iff r.meta.minor wildcard,
        ) in
        let held : asks r.perms ≡ false =
          subst (λ p. asks p ≡ false) (sym (ap (get e.rules) same) ∙ own)
            (bits.1 (rw mode at free)) in
        ground (arith, h, held, access_asks r.perms)
    | inr not_every ↦ rw (h, not_every) refl
  ]

  black : e.default_allow ≡ true → IsGranted e c
  black mode = elim (Bool-cases (any (covers c) e.rules)) [
    | inl found ↦ own_entry mode (
        any_narrow (covers c) (λ r. covers c r && not (is_every r.meta)) e.rules
          (All-imp (λ r. IsEntry r × (get e.rules r.meta ≡ r.perms)) _
            (λ r x. narrow mode r x.0 x.1) e.rules
            (All-both IsEntry (λ r. get e.rules r.meta ≡ r.perms) e.rules v.entries
              (own_value e.rules v.unique)))
          found)
    | inr none_found ↦ allowed (rw (none_found, mode) refl)
  ]

  pub mknod-IsGranted : IsGranted e c
  mknod-IsGranted = elim (Bool-cases e.default_allow) [
    | inl mode ↦ black mode
    | inr mode ↦ white mode
  ]
