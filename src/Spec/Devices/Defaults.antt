-- ===== src/Spec/Devices/Defaults.antt =====
-- The default device rules of specconv/spec_linux.go in the emulator: a specification cannot take
-- back what they allow.
use libcontainer.Prelude.{
  ◌≡◌, refl, sym, ap, List, [], ◌∷◌, ◌++◌, map, Option, none, some, All, All-imp, All-both, All-map,
  map-All, ◌∙◌, ℕ, false, true, inl, inr, ok, ok_step, ok-injective, subst,
}
use libcontainer.Prelude.Int.{ℤ}
use libcontainer.Devices.{Permissions, Rule, char_device, block_device}
use libcontainer.Emulator.{Emulator, apply_all}
use libcontainer.Emulator.Apply.{IsCgroupNode, IsValid, apply_all-IsValid}
use libcontainer.Emulator.Grants.{IsGrant, refused, apply_all-grants, apply_all-append}
use libcontainer.Filter.Machine.{DeviceContext}
use libcontainer.Spec.{Heap, Device, load, allowed_devices, allowed_objects, Linux}
use libcontainer.Spec.Store.{IsAsWritten, HasDefaults}
use libcontainer.Spec.Devices.{
  Creation, is_redundant, keep_allowed, create_devices, device_rules, cgroup_rules, linux_rules,
}
use libcontainer.Spec.Devices.Mknod.{mknod_rule, IsMknod, IsGranted, mknod-IsGranted}
use libcontainer.Spec.Devices.Created.{
  create_devices-IsCreation, created-HasDefaults, keep_allowed-All,
}

abbrev rule_at : Heap → ℕ → Rule
rule_at h p = (load h p).rule

char-IsGrant :
    (major minor : ℤ) (perms : Permissions)
    → IsGrant (record {
      type = char_device;
      major = major;
      minor = minor;
      permissions = perms;
      allow = true;
    })
char-IsGrant major minor perms = record { allows = refl; node = inr refl }

written_grants : All (λ p. IsGrant (rule_at allowed_objects p)) allowed_devices
unfolding load
written_grants = (
  char-IsGrant _ _ _,
  (
    record { allows = refl; node = inl refl },
    (
      char-IsGrant _ _ _,
      (
        char-IsGrant _ _ _,
        (
          char-IsGrant _ _ _,
          (
            char-IsGrant _ _ _,
            (
              char-IsGrant _ _ _,
              (
                char-IsGrant _ _ _,
                (char-IsGrant _ _ _, (char-IsGrant _ _ _, (char-IsGrant _ _ _, tt))),
              ),
            ),
          ),
        ),
      ),
    ),
  ),
)

grants : (h : Heap) → HasDefaults h → All (λ p. IsGrant (rule_at h p)) allowed_devices
grants h d =
    All-imp (λ p. IsAsWritten h p × IsGrant (rule_at allowed_objects p))
      (λ p. IsGrant (rule_at h p)) (λ p a. subst IsGrant (sym a.0.rule) a.1) allowed_devices
      (All-both (IsAsWritten h) (λ p. IsGrant (rule_at allowed_objects p)) allowed_devices d
        written_grants)

unnamed_kept : (d : Device) (l : Option Linux) → d.path ≡ [] → is_redundant d l ≡ false
unnamed_kept d none e = refl
unnamed_kept d (some l) e = rw e refl

keep_allowed-cons :
    (h : Heap) (l : Option Linux) (p : ℕ) (ps : List ℕ)
    → (load h p).path ≡ []
    → (keep_allowed h l (p ∷ ps)).deduped ≡ p ∷ (keep_allowed h l ps).deduped
unfolding keep_allowed
keep_allowed-cons h l p ps e = rw (unnamed_kept (load h p) l e) refl

-- The rules of the devices without a path are kept, whatever the specification.
keeps_mknod :
    (P : Rule → Type 0) (h k : Heap) (l : Option Linux)
    → HasDefaults h
    → HasDefaults k
    → All (λ p. P (rule_at k p)) (keep_allowed h l allowed_devices).deduped
    → P (mknod_rule char_device) × P (mknod_rule block_device)
unfolding load
keeps_mknod P h k l d f a =
    let b =
      subst (All (λ p. P (rule_at k p)))
        (keep_allowed-cons h l 0 _ d.0.path
          ∙ ap (λ x. 0 ∷ x) (keep_allowed-cons h l 1 _ d.1.0.path))
        a in
    (subst P f.0.rule b.0, subst P f.1.0.rule b.1.0)

-- Each default rule that is left is allowed in full, and so are those for mknod.
default_rules_granted :
    (h : Heap) (l : Option Linux) (nodes : List ℕ) (c : Creation) (rs : List Rule) (e e' : Emulator)
    → HasDefaults h
    → create_devices h l nodes ≡ ok c
    → device_rules c.heap l c.defaults ≡ ok rs
    → apply_all e rs ≡ ok e'
    → All (λ p. refused e' (load c.heap p).rule ≡ 0) c.defaults
      × (refused e' (mknod_rule char_device) ≡ 0)
      × (refused e' (mknod_rule block_device) ≡ 0)
unfolding device_rules
default_rules_granted h l nodes c rs e e' d made converted applied =
    let x = create_devices-IsCreation h l nodes c made in
    let d' = created-HasDefaults h l nodes c x d in
    let (own, _, whole) = ok_step (cgroup_rules (linux_rules l)) _ converted in
    let defaults = map (rule_at c.heap) c.defaults in
    let split = apply_all-append own defaults e in
    let run : apply_all e (own ++ defaults) ≡ ok e' =
      subst (λ r. apply_all e r ≡ ok e') (sym (ok-injective _ _ whole)) applied in
    let (e1, _, last) = ok_step (apply_all e own) (λ a. apply_all a defaults) (sym split ∙ run) in
    let all =
      (keep_allowed-All (λ p. IsGrant (rule_at c.heap p)) h l allowed_devices
        (grants c.heap d')).0 in
    let granted =
      apply_all-grants defaults e1 e'
        (All-map IsGrant (rule_at c.heap) c.defaults
          (subst (All (λ p. IsGrant (rule_at c.heap p))) (sym x.defaults) all))
        last in
    let at = map-All (λ r. refused e' r ≡ 0) (rule_at c.heap) c.defaults granted in
    let (char_mknod, block_mknod) =
      keeps_mknod (λ r. refused e' r ≡ 0) h c.heap l d d'
        (subst (All (λ p. refused e' (rule_at c.heap p) ≡ 0)) x.defaults at) in
    (at, char_mknod, block_mknod)

mknod_of :
    (e : Emulator) (type : ℕ)
    → IsCgroupNode type
    → (refused e (mknod_rule char_device) ≡ 0) × (refused e (mknod_rule block_device) ≡ 0)
    → refused e (mknod_rule type) ≡ 0
mknod_of e type (inl b) both = subst (λ t. refused e (mknod_rule t) ≡ 0) (sym b) both.1
mknod_of e type (inr c) both = subst (λ t. refused e (mknod_rule t) ≡ 0) (sym c) both.0

-- The default device rules of specconv/spec_linux.go behind those of a specification. If they take an
-- emulator with a table of one canonical entry for a device to another, then there the entry for the
-- numbers of each default rule that the specification left in refuses nothing of the rule; and every
-- request for mknod alone of a character or block device is granted, whatever the specification says,
-- unless the emulator is in black-list mode and an entry that is not for all devices of the type
-- refuses it.
pub device_rules-grants :
    (h : Heap) (l : Option Linux) (nodes : List ℕ) (c : Creation) (rs : List Rule) (e e' : Emulator)
    (type : ℕ) (request : DeviceContext)
    → HasDefaults h
    → create_devices h l nodes ≡ ok c
    → device_rules c.heap l c.defaults ≡ ok rs
    → IsValid e
    → apply_all e rs ≡ ok e'
    → IsCgroupNode type
    → IsMknod type request
    → All (λ p. refused e' (load c.heap p).rule ≡ 0) c.defaults × IsGranted e' request
device_rules-grants h l nodes c rs e e' type request d made converted v applied node asked =
    let (at, char_mknod, block_mknod) =
      default_rules_granted h l nodes c rs e e' d made converted applied in
    (
      at,
      mknod-IsGranted e' type request (apply_all-IsValid rs e e' v applied) node asked
          (mknod_of e' type node (char_mknod, block_mknod)),
    )
