-- ===== src/Emulator.antt =====
-- cgroups/devices/devices_emulator.go: the emulator of the cgroup v1 device list.
-- A Go map is an association list with one entry for a key (`IsUnique` of Emulator/Table), read
-- with the zero value "" for a missing key. `sort.Slice` is an insertion sort by the same
-- comparison. The methods change the emulator in place only where they return no error, so each
-- returns the new emulator or the error.
pub mod Table
pub mod Apply
pub mod Loops
pub mod Holes
pub mod Transition
pub mod Grants
pub mod Listing
use libcontainer.Prelude.{
  ℕ, Bool, true, false, ◌&&◌, ◌||◌, not, List, [], ◌∷◌, ◌++◌, Option, none, some, ltb, ◌==◌,
  if◌then◌else◌, Result, ok, err, ◌>>=◌, length,
}
use libcontainer.Prelude.Int.{ℤ, eq_ℤ, ltb_ℤ}
use libcontainer.Devices.{
  Permissions, union, difference, intersection, is_empty, wildcard, wildcard_device, can_cgroup,
  Rule,
}

pub record DeviceMeta : Type 0 where
  pub node : ℕ
  pub major : ℤ
  pub minor : ℤ

pub record DeviceRule : Type 0 where
  pub meta : DeviceMeta
  pub perms : Permissions

abbrev pub DeviceRules : Type 0
DeviceRules = List DeviceRule

pub data Context : Type 0 where
  remove_deny add_allow add_deny remove_allow parse_list add_list : Context

pub data Error : Type 0 where
  malformed_rule unknown_device_type invalid_major invalid_minor invalid_access : Error
  non_cgroup_type read_failed : Error
  punched_hole : DeviceRule → DeviceMeta → Error
  wrapped : Context → Error → Error

-- `==` on deviceMeta
abbrev pub meta_eq : DeviceMeta → DeviceMeta → Bool
meta_eq a b = a.node == b.node && (eq_ℤ a.major b.major && eq_ℤ a.minor b.minor)

-- the map: read, write, delete
unfoldable pub get : DeviceRules → DeviceMeta → Permissions
get [] m = []
get (r ∷ rs) m = if meta_eq r.meta m then r.perms else get rs m

unfoldable pub put : DeviceMeta → Permissions → DeviceRules → DeviceRules
put m p [] = record { meta = m; perms = p } ∷ []
put m p (r ∷ rs) = if meta_eq r.meta m then record { meta = m; perms = p } ∷ rs else r ∷ put m p rs

unfoldable pub delete : DeviceMeta → DeviceRules → DeviceRules
delete m [] = []
delete m (r ∷ rs) = let rest = delete m rs in if meta_eq r.meta m then rest else r ∷ rest

-- the comparison of `orderedEntries`
unfoldable pub before : DeviceMeta → DeviceMeta → Bool
before a b =
    ltb_ℤ a.major b.major
    || (eq_ℤ a.major b.major && ltb_ℤ a.minor b.minor)
    || (eq_ℤ a.major b.major && (eq_ℤ a.minor b.minor && ltb a.node b.node))

unfoldable pub insert_entry : DeviceRule → List DeviceRule → List DeviceRule
insert_entry r [] = r ∷ []
insert_entry r (x ∷ xs) = if before x.meta r.meta then x ∷ insert_entry r xs else r ∷ x ∷ xs

unfoldable pub ordered_entries : DeviceRules → List DeviceRule
unfolding insert_entry before
ordered_entries [] = []
ordered_entries (r ∷ rs) = insert_entry r (ordered_entries rs)

pub record Emulator : Type 0 where
  pub default_allow : Bool
  pub rules : DeviceRules

unfoldable pub is_blacklist : Emulator → Bool
is_blacklist e = e.default_allow

unfoldable pub is_allow_all : Emulator → Bool
unfolding is_blacklist
is_allow_all e = is_blacklist e && length e.rules == 0

unfoldable pub add_rule : Emulator → DeviceRule → Emulator
add_rule e rule = record e {
  rules = put rule.meta (union rule.perms (get e.rules rule.meta)) e.rules;
}

-- the three rules that may cover a part of `meta`
abbrev pub partial_metas : DeviceMeta → List DeviceMeta
partial_metas m =
    record { node = m.node; major = wildcard; minor = m.minor }
    ∷ record { node = m.node; major = m.major; minor = wildcard }
    ∷ record { node = m.node; major = wildcard; minor = wildcard }
    ∷ []

-- the loop of `rmRule`; its result is the hole that it refuses to punch
unfoldable pub find_hole : DeviceRules → DeviceRule → List DeviceMeta → Option DeviceMeta
find_hole rs rule [] = none
find_hole rs rule (m ∷ ms) =
    let rest = find_hole rs rule ms in
    if meta_eq rule.meta m
    then rest
    else if not (is_empty (intersection (get rs m) rule.perms))
    then some m
    else rest

-- `rmRule` after its loop
unfoldable pub subtract : Emulator → DeviceRule → Emulator
subtract e rule =
    let perms = difference (get e.rules rule.meta) rule.perms in
    if is_empty perms
    then record e { rules = delete rule.meta e.rules }
    else record e { rules = put rule.meta perms e.rules }

unfoldable pub rm_rule : Emulator → DeviceRule → Result Error Emulator
rm_rule e rule = elim (find_hole e.rules rule (partial_metas rule.meta)) [
  | none ↦ ok (subtract e rule)
  | some m ↦ err (punched_hole rule m)
]

abbrev pub wrap_err {ℓ} : {A : Type ℓ} → Context → Result Error A → Result Error A
wrap_err c (ok a) = ok a
wrap_err c (err e) = err (wrapped c e)

-- `allow` and `deny` with a rule that is not the wildcard
unfoldable pub allow_exception : Emulator → DeviceRule → Result Error Emulator
allow_exception e rule =
    if e.default_allow
    then wrap_err remove_deny (rm_rule e rule)
    else wrap_err add_allow (ok (add_rule e rule))

unfoldable pub deny_exception : Emulator → DeviceRule → Result Error Emulator
deny_exception e rule =
    if e.default_allow
    then wrap_err add_deny (ok (add_rule e rule))
    else wrap_err remove_allow (rm_rule e rule)

unfoldable pub allow : Emulator → Option DeviceRule → Result Error Emulator
unfolding allow_exception
allow e none = ok (record { default_allow = true; rules = [] })
allow e (some rule) =
    if rule.meta.node == wildcard_device
    then ok (record { default_allow = true; rules = [] })
    else allow_exception e rule

unfoldable pub deny : Emulator → Option DeviceRule → Result Error Emulator
unfolding deny_exception
deny e none = ok (record { default_allow = false; rules = [] })
deny e (some rule) =
    if rule.meta.node == wildcard_device
    then ok (record { default_allow = false; rules = [] })
    else deny_exception e rule

-- `innerRule` of `Apply`
unfoldable pub inner_rule : Rule → Option DeviceRule
inner_rule rule =
    if rule.type == wildcard_device
    then none
    else some (record {
      meta = record { node = rule.type; major = rule.major; minor = rule.minor };
      perms = rule.permissions;
    })

unfoldable pub apply : Emulator → Rule → Result Error Emulator
unfolding allow deny inner_rule can_cgroup
apply e rule =
    if not (can_cgroup rule.type)
    then err non_cgroup_type
    else if rule.allow
    then allow e (inner_rule rule)
    else deny e (inner_rule rule)

-- the loop over `Apply` of the emulator's callers
unfoldable pub apply_all : Emulator → List Rule → Result Error Emulator
apply_all e [] = ok e
apply_all e (r ∷ rs) = do e' ← apply e r; apply_all e' rs

abbrev pub as_rule : Bool → DeviceMeta → Permissions → Rule
as_rule action m p = record {
  type = m.node;
  major = m.major;
  minor = m.minor;
  permissions = p;
  allow = action;
}

-- the "disruptive" rule that sets the default
abbrev pub reset_rule : Bool → Rule
reset_rule action = record {
  type = b'a';
  major = wildcard;
  minor = wildcard;
  permissions = b'r' ∷ b'w' ∷ b'm' ∷ [];
  allow = action;
}

-- one round of the loops of `Transition`: the permissions of an entry that `other` lacks
abbrev pub rule_for_change : Bool → DeviceRules → DeviceRule → List Rule
rule_for_change action other rule =
    let perms = difference rule.perms (get other rule.meta) in
    if not (is_empty perms) then as_rule action rule.meta perms ∷ [] else []

unfoldable pub rules_for_changes : Bool → DeviceRules → List DeviceRule → List Rule
rules_for_changes action other [] = []
rules_for_changes action other (r ∷ rs) =
    rule_for_change action other r ++ rules_for_changes action other rs

abbrev pub bool_eq : Bool → Bool → Bool
bool_eq true b = b
bool_eq false b = not b

-- `Transition`; its error is always nil
unfoldable pub transition : Emulator → Emulator → List Rule
unfolding is_blacklist
transition source target =
    let disruptive =
      is_blacklist source || not (bool_eq source.default_allow target.default_allow) in
    let old_rules : DeviceRules = (if disruptive then [] else source.rules) in
    (if disruptive then reset_rule target.default_allow ∷ [] else [])
    ++ (rules_for_changes target.default_allow target.rules (ordered_entries old_rules)
        ++ rules_for_changes (not target.default_allow) old_rules (ordered_entries target.rules))

abbrev pub deny_all : Emulator
deny_all = record { default_allow = false; rules = [] }

-- `Rules`
unfoldable pub minimal_rules : Emulator → List Rule
minimal_rules e = transition deny_all e
