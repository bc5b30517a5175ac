-- ===== src/Emulator/Apply.antt =====
-- `Apply` of cgroups/devices/devices_emulator.go seen as an update of a function from devices to
-- permissions, and the invariant that it keeps.
use libcontainer.Prelude.{
  ℕ, Bool, true, false, ◌||◌, List, [], ◌∷◌, ◌≡◌, refl, ◌⊎◌, inl, inr, arith, if◌then◌else◌,
  Bool-cases, All, ok, ok_step, subst,
}
use libcontainer.Devices.{Permissions, union, difference, is_empty, block_device, char_device, Rule}
use libcontainer.Devices.Permissions.{
  IsCanonical, nil-IsCanonical, union-IsCanonical, difference-IsCanonical, is_empty_iff,
}
use libcontainer.Emulator.{
  DeviceMeta, DeviceRule, DeviceRules, Emulator, meta_eq, get, put, delete, add_rule, subtract,
  rm_rule, apply, apply_all,
}
use libcontainer.Emulator.Table.{meta_eq_iff, get-put, get-delete, has, IsUnique}

abbrev pub IsCgroupNode : ℕ → Type 0
IsCgroupNode n = (n ≡ block_device) ⊎ (n ≡ char_device)

-- An entry of the table: a block or character device, and permissions in canonical form.
pub record IsEntry (r : DeviceRule) : Type 0 where
  pub node : IsCgroupNode r.meta.node
  pub canonical : IsCanonical r.perms

pub record IsValid (e : Emulator) : Type 0 where
  pub unique : IsUnique e.rules
  pub entries : All IsEntry e.rules

has-put :
    (k m : DeviceMeta) (p : Permissions) (rs : DeviceRules)
    → has (put k p rs) m ≡ (meta_eq k m || has rs m)
unfolding put
has-put k m p [] = refl
has-put k m p (r ∷ rs) =
    ground (arith, has-put k m p rs, meta_eq_iff r.meta k, meta_eq_iff r.meta m, meta_eq_iff k m)

put-IsUnique :
    (k : DeviceMeta) (p : Permissions) (rs : DeviceRules) → IsUnique rs → IsUnique (put k p rs)
unfolding put
put-IsUnique k p [] u = (refl, tt)
put-IsUnique k p (r ∷ rs) u = ground (
  arith,
  put-IsUnique k p rs u.1,
  has-put k r.meta p rs,
  meta_eq_iff r.meta k,
  meta_eq_iff k r.meta,
)

has-delete : (k m : DeviceMeta) (rs : DeviceRules) → has rs m ≡ false → has (delete k rs) m ≡ false
unfolding delete
has-delete k m [] h = refl
has-delete k m (r ∷ rs) h = ground (arith, has-delete k m rs)

delete-IsUnique : (k : DeviceMeta) (rs : DeviceRules) → IsUnique rs → IsUnique (delete k rs)
unfolding delete
delete-IsUnique k [] u = tt
delete-IsUnique k (r ∷ rs) u = ground (arith, delete-IsUnique k rs u.1, has-delete k r.meta rs u.0)

put-IsEntry :
    (k : DeviceMeta) (p : Permissions) (rs : DeviceRules)
    → IsCgroupNode k.node
    → IsCanonical p
    → All IsEntry rs
    → All IsEntry (put k p rs)
unfolding put
put-IsEntry k p [] n c a = (record { node = n; canonical = c }, tt)
put-IsEntry k p (r ∷ rs) n c a = elim (Bool-cases (meta_eq r.meta k)) [
  | inl e ↦ rw e (record { node = n; canonical = c }, a.1)
  | inr e ↦ rw e (a.0, put-IsEntry k p rs n c a.1)
]

delete-IsEntry : (k : DeviceMeta) (rs : DeviceRules) → All IsEntry rs → All IsEntry (delete k rs)
unfolding delete
delete-IsEntry k [] a = tt
delete-IsEntry k (r ∷ rs) a = elim (Bool-cases (meta_eq r.meta k)) [
  | inl e ↦ rw e (delete-IsEntry k rs a.1)
  | inr e ↦ rw e (a.0, delete-IsEntry k rs a.1)
]

pub get-IsCanonical : (rs : DeviceRules) (m : DeviceMeta) → All IsEntry rs → IsCanonical (get rs m)
unfolding get
get-IsCanonical [] m a = nil-IsCanonical
get-IsCanonical (r ∷ rs) m a = elim (Bool-cases (meta_eq r.meta m)) [
  | inl e ↦ rw e a.0.canonical
  | inr e ↦ rw e (get-IsCanonical rs m a.1)
]

add_rule-IsValid :
    (e : Emulator) (r : DeviceRule) → IsCgroupNode r.meta.node → IsValid e → IsValid (add_rule e r)
unfolding add_rule
add_rule-IsValid e r n v = record {
  unique = put-IsUnique _ _ e.rules v.unique;
  entries = put-IsEntry _ _ e.rules n (union-IsCanonical _ _) v.entries;
}

subtract-IsValid :
    (e : Emulator) (r : DeviceRule) → IsCgroupNode r.meta.node → IsValid e → IsValid (subtract e r)
unfolding subtract
subtract-IsValid e r n v = elim (Bool-cases (is_empty (difference (get e.rules r.meta) r.perms))) [
  | inl h ↦ rw h (record {
    unique = delete-IsUnique _ e.rules v.unique;
    entries = delete-IsEntry _ e.rules v.entries;
  })
  | inr h ↦ rw h (record {
    unique = put-IsUnique _ _ e.rules v.unique;
    entries = put-IsEntry _ _ e.rules n (difference-IsCanonical _ _) v.entries;
  })
]

pub reset-IsValid : (b : Bool) → IsValid (record { default_allow = b; rules = [] })
reset-IsValid b = record { unique = tt; entries = tt }

-- Whatever rule is applied, an emulator that results has one entry for a device, for block and
-- character devices only, with permissions in canonical form, if it had so before.
pub apply-IsValid : (e e' : Emulator) (r : Rule) → IsValid e → apply e r ≡ ok e' → IsValid e'
unfolding apply rm_rule
apply-IsValid e e' r v h =
    let entry : DeviceRule = record {
      meta = record { node = r.type; major = r.major; minor = r.minor };
      perms = r.permissions;
    } in
    ground (
      arith,
      add_rule-IsValid e entry,
      subtract-IsValid e entry,
      reset-IsValid true,
      reset-IsValid false,
    )

pub get-add_rule :
    (e : Emulator) (r : DeviceRule) (m : DeviceMeta)
    → get (add_rule e r).rules m
      ≡ (if meta_eq r.meta m then union r.perms (get e.rules m) else get e.rules m)
unfolding add_rule
get-add_rule e r m =
    ground
      (arith, get-put r.meta m (union r.perms (get e.rules r.meta)) e.rules, meta_eq_iff r.meta m)

pub get-subtract :
    (e : Emulator) (r : DeviceRule) (m : DeviceMeta)
    → get (subtract e r).rules m
      ≡ (if meta_eq r.meta m then difference (get e.rules m) r.perms else get e.rules m)
unfolding subtract
get-subtract e r m = ground (
  arith,
  get-put r.meta m (difference (get e.rules r.meta) r.perms) e.rules,
  get-delete r.meta m e.rules,
  is_empty_iff (difference (get e.rules r.meta) r.perms),
  meta_eq_iff r.meta m,
)

-- So too after any number of rules.
pub apply_all-IsValid :
    (rules : List Rule) (e e' : Emulator) → IsValid e → apply_all e rules ≡ ok e' → IsValid e'
unfolding apply_all
apply_all-IsValid [] e e' v h = subst IsValid (cc) v
apply_all-IsValid (r ∷ rules) e e' v h =
    let (e1, first, rest) = ok_step (apply e r) (λ x. apply_all x rules) h in
    apply_all-IsValid rules e1 e' (apply-IsValid e e1 r v first) rest
