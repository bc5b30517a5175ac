-- ===== src/Emulator/Grants.antt =====
-- `Apply` of cgroups/devices/devices_emulator.go with rules that allow something: what a device may
-- do grows and never shrinks.
use libcontainer.Prelude.{
  ℕ, ◌<◌, Bool, true, false, ◌&&◌, ◌||◌, not, List, [], ◌∷◌, ◌++◌, bit_and, bit_or, ◌==◌, ◌≡◌, refl,
  ◌⊎◌, inl, inr, arith, All, ok, ◌>>=◌, ok_step, ok-injective, bind_assoc, bind_cong, subst,
  holds_below, holds_below_at,
}
use libcontainer.Devices.{Rule, to_set, and_not}
use libcontainer.Devices.Permissions.{to_set-lt, to_set-union, to_set-difference}
use libcontainer.Emulator.{
  DeviceMeta, DeviceRule, Emulator, meta_eq, get, add_rule, subtract, rm_rule, apply, apply_all,
}
use libcontainer.Emulator.Table.{meta_eq_iff}
use libcontainer.Emulator.Apply.{IsCgroupNode, get-add_rule, get-subtract}

abbrev pub entry_of : Rule → DeviceRule
entry_of r = record {
  meta = record { node = r.type; major = r.major; minor = r.minor };
  perms = r.permissions;
}

-- the bits of a rule's permissions that an emulator refuses to the rule's own device entry
abbrev pub refused_bits : Bool → ℕ → ℕ → ℕ
refused_bits true held asked = bit_and held asked
refused_bits false held asked = and_not asked held

abbrev pub refused : Emulator → Rule → ℕ
refused e r =
    refused_bits e.default_allow (to_set (get e.rules (entry_of r).meta)) (to_set r.permissions)

-- A rule that allows something to block or character devices.
pub record IsGrant (r : Rule) : Type 0 where
  pub allows : r.allow ≡ true
  pub node : IsCgroupNode r.type

-- Adding to the exceptions of a white list, or taking from those of a black list, refuses no more.
keep_table :
    holds_below 8 (λ a. holds_below 8 (λ b. holds_below 8 (λ c.
      (not (and_not a b == 0) || (and_not a (bit_or c b) == 0))
      && (not (bit_and b a == 0) || (bit_and (and_not b c) a == 0)))))
    ≡ true
unfolding holds_below
keep_table = refl

keep_laws :
    (a b c : ℕ)
    → a < 8
    → b < 8
    → c < 8
    → (and_not a b ≡ 0 → and_not a (bit_or c b) ≡ 0)
      × (bit_and b a ≡ 0 → bit_and (and_not b c) a ≡ 0)
keep_laws a b c ha hb hc =
    let row = holds_below_at _ 8 a ha keep_table in
    let cell = holds_below_at _ 8 c hc (holds_below_at _ 8 b hb row) in
    (ground (arith, cell), ground (arith, cell))

own_table :
    holds_below 8
      (λ a. holds_below 8 (λ b. (and_not a (bit_or a b) == 0) && (bit_and (and_not b a) a == 0)))
    ≡ true
unfolding holds_below
own_table = refl

own_laws : (a b : ℕ) → a < 8 → b < 8 → (and_not a (bit_or a b) ≡ 0) × (bit_and (and_not b a) a ≡ 0)
own_laws a b ha hb =
    let cell = holds_below_at _ 8 b hb (holds_below_at _ 8 a ha own_table) in ground (arith, cell)

apply-Granted :
    (e e' : Emulator) (s : Rule)
    → IsGrant s
    → apply e s ≡ ok e'
    → (e.default_allow ≡ false) × (e' ≡ add_rule e (entry_of s))
      ⊎ ((e.default_allow ≡ true) × (e' ≡ subtract e (entry_of s)))
unfolding apply rm_rule
apply-Granted e e' s g h = ground (arith, g.allows, g.node)

default-add_rule : (e : Emulator) (d : DeviceRule) → (add_rule e d).default_allow ≡ e.default_allow
unfolding add_rule
default-add_rule e d = refl

default-subtract : (e : Emulator) (d : DeviceRule) → (subtract e d).default_allow ≡ e.default_allow
unfolding subtract
default-subtract e d = ground arith

added_keeps :
    (e : Emulator) (s r : Rule)
    → e.default_allow ≡ false
    → refused e r ≡ 0
    → refused (add_rule e (entry_of s)) r ≡ 0
added_keeps e s r d k =
    let held = get e.rules (entry_of r).meta in
    ground (
      arith,
      default-add_rule e (entry_of s),
      get-add_rule e (entry_of s) (entry_of r).meta,
      to_set-union s.permissions held,
      (keep_laws _ _ _ (to_set-lt r.permissions) (to_set-lt held) (to_set-lt s.permissions)).0,
    )

taken_keeps :
    (e : Emulator) (s r : Rule)
    → e.default_allow ≡ true
    → refused e r ≡ 0
    → refused (subtract e (entry_of s)) r ≡ 0
taken_keeps e s r d k =
    let held = get e.rules (entry_of r).meta in
    ground (
      arith,
      default-subtract e (entry_of s),
      get-subtract e (entry_of s) (entry_of r).meta,
      to_set-difference held s.permissions,
      (keep_laws _ _ _ (to_set-lt r.permissions) (to_set-lt held) (to_set-lt s.permissions)).1,
    )

meta_self : (m : DeviceMeta) → meta_eq m m ≡ true
meta_self m = (meta_eq_iff m m).1 refl

-- A rule that allows something is then allowed.
pub apply-grants : (e e' : Emulator) (r : Rule) → IsGrant r → apply e r ≡ ok e' → refused e' r ≡ 0
apply-grants e e' r g h =
    let held = get e.rules (entry_of r).meta in
    ground (
      arith,
      apply-Granted e e' r g h,
      default-add_rule e (entry_of r),
      default-subtract e (entry_of r),
      get-add_rule e (entry_of r) (entry_of r).meta,
      get-subtract e (entry_of r) (entry_of r).meta,
      meta_self (entry_of r).meta,
      to_set-union r.permissions held,
      to_set-difference held r.permissions,
      own_laws _ _ (to_set-lt r.permissions) (to_set-lt held),
    )

-- A rule that allows something leaves everything else as allowed as it was.
pub apply-keeps :
    (e e' : Emulator) (s r : Rule)
    → IsGrant s
    → apply e s ≡ ok e'
    → refused e r ≡ 0
    → refused e' r ≡ 0
apply-keeps e e' s r g h k = elim (apply-Granted e e' s g h) [
  | inl (d, q) ↦ rw (q) (added_keeps e s r d k)
  | inr (d, q) ↦ rw (q) (taken_keeps e s r d k)
]

apply_all-keeps :
    (rs : List Rule) (e e' : Emulator) (r : Rule)
    → All IsGrant rs
    → apply_all e rs ≡ ok e'
    → refused e r ≡ 0
    → refused e' r ≡ 0
unfolding apply_all
apply_all-keeps [] e e' r g h k = subst (λ x. refused x r ≡ 0) (ok-injective e e' h) k
apply_all-keeps (s ∷ rs) e e' r g h k =
    let (e1, first, rest) = ok_step (apply e s) (λ x. apply_all x rs) h in
    apply_all-keeps rs e1 e' r g.1 rest (apply-keeps e e1 s r g.0 first k)

-- After rules that all allow something, each of them is allowed.
pub apply_all-grants :
    (rs : List Rule) (e e' : Emulator)
    → All IsGrant rs
    → apply_all e rs ≡ ok e'
    → All (λ r. refused e' r ≡ 0) rs
unfolding apply_all
apply_all-grants [] e e' g h = tt
apply_all-grants (s ∷ rs) e e' g h =
    let (e1, first, rest) = ok_step (apply e s) (λ x. apply_all x rs) h in
    (
      apply_all-keeps rs e1 e' s g.1 rest (apply-grants e e1 s g.0 first),
      apply_all-grants rs e1 e' g.1 rest,
    )

pub apply_all-append :
    (xs ys : List Rule) (e : Emulator)
    → apply_all e (xs ++ ys) ≡ (apply_all e xs >>= λ e1. apply_all e1 ys)
unfolding apply_all
apply_all-append [] ys e = refl
apply_all-append (x ∷ xs) ys e =
    rw (bind_assoc (apply e x) (λ a. apply_all a xs) (λ a. apply_all a ys))
      (bind_cong (apply e x) _ _ (λ a. apply_all-append xs ys a))
