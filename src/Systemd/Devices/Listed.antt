-- ===== src/Systemd/Devices/Listed.antt =====
-- The list that the loop of `generateDeviceProperties` of cgroups/systemd/common.go makes.
use libcontainer.Prelude.{
  Bool, true, false, ◌&&◌, not, List, [], ◌∷◌, Option, none, some, any, bytes_eq, bytes_eq_iff,
  if◌then◌else◌, ok, ◌≡◌, ◌≢◌, inl, inr, refl, sym, subst, arith, All, Bool-cases,
}
use libcontainer.Prelude.Int.{ℤ}
use libcontainer.Text.{Bytes}
use libcontainer.Devices.{Rule, is_empty}
use libcontainer.Devices.Permissions.{difference-nil, is_empty_iff}
use libcontainer.Emulator.{
  DeviceMeta, DeviceRule, DeviceRules, meta_eq, get, as_rule, rule_for_change, rules_for_changes,
}
use libcontainer.Emulator.Table.{meta_eq_iff}
use libcontainer.Emulator.Apply.{IsCgroupNode, IsEntry}
use libcontainer.Systemd.{DeviceAllowEntry}
use libcontainer.Systemd.Devices.{Host, allow_list, entry_for, with_entry}
use libcontainer.Systemd.Devices.Paths.{
  is_single, path_of, takes_path, Names, FindsGroups, PathFound, path_found,
}

-- The list has an entry with a path and permissions.
abbrev pub lists : Bytes → Bytes → List DeviceAllowEntry → Bool
lists path perms = any (λ x. bytes_eq x.path path && bytes_eq x.perms perms)

-- An entry allows what the table allows for a device or for all devices of a kind.
abbrev pub IsAllowed : Host → DeviceRules → DeviceAllowEntry → Type 0
IsAllowed h rs x = (m : DeviceMeta) × (get rs m ≡ x.perms) × (x.perms ≢ []) × Names h m x.path

-- Each device of the table with an own path that systemd takes is in the list.
abbrev pub CoversSingle : Host → ℤ → DeviceRules → List DeviceAllowEntry → Type 0
CoversSingle h version rs list =
    (m : DeviceMeta)
    → get rs m ≢ []
    → is_single m ≡ true
    → takes_path h version m ≡ true
    → lists (path_of m) (get rs m) list ≡ true

lists_head :
    (path perms : Bytes) (rest : List DeviceAllowEntry)
    → lists path perms (record { path = path; perms = perms } ∷ rest) ≡ true
lists_head path perms rest =
    rw ((bytes_eq_iff path path).1 refl, (bytes_eq_iff perms perms).1 refl) refl

change :
    (r : DeviceRule)
    → IsEntry r
    → rule_for_change true [] r
      ≡ (if not (is_empty r.perms) then as_rule true r.meta r.perms ∷ [] else [])
unfolding get
change r i = rw (difference-nil r.perms i.canonical) refl

-- One round of the loop on a rule that the emulator printed.
allow_list-cons :
    (h : Host) (version : ℤ) (m : DeviceMeta) (p : Bytes) (rules : List Rule)
    (f : PathFound h version m p) (more : List DeviceAllowEntry)
    → IsCgroupNode m.node
    → allow_list h version rules ≡ ok more
    → allow_list h version (as_rule true m p ∷ rules)
      ≡ ok (with_entry (as_rule true m p) f.path more)
unfolding allow_list
allow_list-cons h version m p rules f more (inl node) e = rw (f.found, e, node) refl
allow_list-cons h version m p rules f more (inr node) e = rw (f.found, e, node) refl

pub record Listed (h : Host) (version : ℤ) (all es : DeviceRules) (rules : List Rule) : Type 0 where
  pub list : List DeviceAllowEntry
  pub made : allow_list h version rules ≡ ok list
  pub sound : All (IsAllowed h all) list
  pub covers : CoversSingle h version es list

-- An item without permissions gives no rule.
covers_skip :
    (h : Host) (version : ℤ) (r : DeviceRule) (rs : DeviceRules) (list : List DeviceAllowEntry)
    → is_empty r.perms ≡ true
    → CoversSingle h version rs list
    → CoversSingle h version (r ∷ rs) list
unfolding get
covers_skip h version r rs list empty c m ne s t =
    ground (arith, ne, (is_empty_iff r.perms).0 empty, c m, s, t)

not_empty : (p : Bytes) → is_empty p ≡ false → p ≢ []
not_empty p e z = ground (arith, is_empty_iff p, e, z)

covers_here :
    (h : Host) (version : ℤ) (r : DeviceRule) (list : List DeviceAllowEntry)
    (f : PathFound h version r.meta r.perms)
    → is_single r.meta ≡ true
    → takes_path h version r.meta ≡ true
    → lists (path_of r.meta) r.perms (with_entry (as_rule true r.meta r.perms) f.path list) ≡ true
covers_here h version r list f s t = rw (f.there s t) (lists_head (path_of r.meta) r.perms list)

lists_later :
    (path perms : Bytes) (rule : Rule) (o : Option Bytes) (list : List DeviceAllowEntry)
    → lists path perms list ≡ true
    → lists path perms (with_entry rule o list) ≡ true
lists_later path perms rule none list e = e
lists_later path perms rule (some x) list e = ground (arith, e)

with_entry-All :
    (P : DeviceAllowEntry → Type 0) (rule : Rule) (o : Option Bytes) (list : List DeviceAllowEntry)
    → ((s : Bytes) → o ≡ some s → P (entry_for s rule))
    → All P list
    → All P (with_entry rule o list)
with_entry-All P rule none list f a = a
with_entry-All P rule (some s) list f a = (f s refl, a)

covers_add :
    (h : Host) (version : ℤ) (r : DeviceRule) (rs : DeviceRules) (list : List DeviceAllowEntry)
    (f : PathFound h version r.meta r.perms)
    → CoversSingle h version rs list
    → CoversSingle h version (r ∷ rs) (with_entry (as_rule true r.meta r.perms) f.path list)
unfolding get
covers_add h version r rs list f c m ne s t = elim (Bool-cases (meta_eq r.meta m)) [
  | inl e ↦
      let same = (meta_eq_iff r.meta m).0 e in
      rw e (
        subst
          (λ k.
            lists (path_of k) r.perms (with_entry (as_rule true r.meta r.perms) f.path list) ≡ true)
          same
          (covers_here h version r list f (subst (λ k. is_single k ≡ true) (sym same) s)
            (subst (λ k. takes_path h version k ≡ true) (sym same) t)))
  | inr e ↦ rw e (
      lists_later (path_of m) (get rs m) (as_rule true r.meta r.perms) f.path list
        (c m (rw e at ne) s t))
]

module _ (h : Host) (version : ℤ) (finds : FindsGroups h) (all : DeviceRules) where
  skipped :
      (r : DeviceRule) (rs : DeviceRules)
      → is_empty r.perms ≡ true
      → Listed h version all rs (rules_for_changes true [] rs)
      → Listed h version all (r ∷ rs) (rules_for_changes true [] rs)
  skipped r rs empty l = record {
    list = l.list;
    made = l.made;
    sound = l.sound;
    covers = covers_skip h version r rs l.list empty l.covers;
  }

  added :
      (r : DeviceRule) (rs : DeviceRules)
      → IsEntry r
      → get all r.meta ≡ r.perms
      → is_empty r.perms ≡ false
      → Listed h version all rs (rules_for_changes true [] rs)
      → Listed h version all (r ∷ rs) (as_rule true r.meta r.perms ∷ rules_for_changes true [] rs)
  added r rs i own ne l =
      let f = path_found h version r.meta r.perms i.node finds in
      record {
        list = with_entry (as_rule true r.meta r.perms) f.path l.list;
        made =
            allow_list-cons h version r.meta r.perms (rules_for_changes true [] rs) f l.list i.node
              l.made;
        sound =
            with_entry-All (IsAllowed h all) (as_rule true r.meta r.perms) f.path l.list
              (λ s e. (r.meta, own, λ z. absurd (not_empty r.perms ne z), f.names s e)) l.sound;
        covers = covers_add h version r rs l.list f l.covers;
      }

  pub listed :
      (es : DeviceRules)
      → All IsEntry es
      → All (λ r. get all r.meta ≡ r.perms) es
      → Listed h version all es (rules_for_changes true [] es)
  unfolding rules_for_changes allow_list get
  listed [] i own = record { list = []; made = refl; sound = tt; covers = λ m ne. absurd (ne refl) }
  listed (r ∷ rs) i own = elim (Bool-cases (is_empty r.perms)) [
    | inl empty ↦ rw (change r i.0, empty) (skipped r rs empty (listed rs i.1 own.1))
    | inr some_perms ↦
        rw (change r i.0, some_perms) (added r rs i.0 own.0 some_perms (listed rs i.1 own.1))
  ]
