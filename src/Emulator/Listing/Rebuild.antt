-- ===== src/Emulator/Listing/Rebuild.antt =====
-- A white-list cgroup rebuilt from its listing, one printed rule to a line.
use libcontainer.Prelude.{
  true, false, List, [], ◌∷◌, some, ◌≡◌, ◌≢◌, refl, sym, ◌∙◌, arith, All, Result, ok, err, ◌>>=◌,
  map,
}
use libcontainer.Text.{Bytes}
use libcontainer.Devices.{Permissions, union}
use libcontainer.Devices.Permissions.{nil-union, union-nil, union-IsCanonical, nil-IsCanonical}
use libcontainer.Emulator.{
  DeviceMeta, DeviceRule, DeviceRules, Error, Emulator, get, add_rule, allow, wrap_err, as_rule,
  deny_all, add_list,
}
use libcontainer.Emulator.Table.{meta_eq_iff, has, IsUnique, get-not_has}
use libcontainer.Emulator.Apply.{IsCgroupNode, IsEntry, get-IsCanonical, get-add_rule}
use libcontainer.Emulator.Loops.{
  Shows, Yields, Yields-Shows, Canonical, add_rule-default, add_rule-Canonical,
}
use libcontainer.Emulator.Listing.{allow_lines, emulator_from_list, cgroup_string}
use libcontainer.Emulator.Listing.RoundTrip.{IsDeviceNumber, parse_line-cgroup_string}

-- An entry that a listing can show.
pub record IsListed (r : DeviceRule) : Type 0 where
  pub is_entry : IsEntry r
  pub major_fits : IsDeviceNumber r.meta.major
  pub minor_fits : IsDeviceNumber r.meta.minor
  pub some_access : r.perms ≢ []

-- The lines of "devices.list" for a table.
abbrev pub listing : DeviceRules → List Bytes
listing = map (λ r. cgroup_string (as_rule true r.meta r.perms))

abbrev listed : DeviceRules → Emulator → DeviceMeta → Permissions
listed es e m = union (get es m) (get e.rules m)

listed_step :
    (r : DeviceRule) (rs : DeviceRules) (e : Emulator) (m : DeviceMeta)
    → has rs r.meta ≡ false
    → listed rs (add_rule e r) m ≡ listed (r ∷ rs) e m
unfolding get
listed_step r rs e m u = ground (
  arith,
  get-not_has rs r.meta u,
  meta_eq_iff r.meta m,
  get-add_rule e r m,
  nil-union (union r.perms (get e.rules m)) (union-IsCanonical _ _),
)

allow_add :
    (e : Emulator) (r : DeviceRule)
    → e.default_allow ≡ false
    → IsCgroupNode r.meta.node
    → wrap_err add_list (allow e (some r)) ≡ ok (add_rule e r)
unfolding allow
allow_add e r h n = ground arith

allow_lines-listing :
    (es : DeviceRules) (e : Emulator)
    → e.default_allow ≡ false
    → IsUnique es
    → All IsListed es
    → Canonical e
    → Yields (allow_lines e (listing es)) (Shows false (listed es e))
unfolding allow_lines
allow_lines-listing [] e h u n c = record {
  default_is = h;
  shows = λ m. unfold get in sym (nil-union _ (c m));
}
allow_lines-listing (r ∷ rs) e h u n c =
    rw
      (
        parse_line-cgroup_string r.meta r.perms true n.0.is_entry.node n.0.major_fits n.0.minor_fits
            n.0.is_entry.canonical n.0.some_access,
        allow_add e r h n.0.is_entry.node,
      )
      (Yields-Shows _ false _ _
        (allow_lines-listing rs (add_rule e r) (add_rule-default e r ∙ h) u.1 n.1
          (add_rule-Canonical e r c))
        (λ m. listed_step r rs e m u.0))

listed-entries : (rs : DeviceRules) → All IsListed rs → All IsEntry rs
listed-entries [] a = tt
listed-entries (r ∷ rs) a = (a.0.is_entry, listed-entries rs a.1)

Yields-end :
    (x : Result Error Emulator) (P : Emulator → Type 0) → Yields x P → Yields (x >>= λ e. ok e) P
Yields-end (ok e) P h = h
Yields-end (err _) P h = h

-- `EmulatorFromList` reads a listing that prints each entry of a table once, with numbers of 32
-- bits or `*` and some access, without an error, and its result is in white-list mode with the
-- permissions of that table for every device.
pub emulator_from_list-listing :
    (es : DeviceRules)
    → IsUnique es
    → All IsListed es
    → Yields
        (emulator_from_list (record { lines = listing es; fails = false }))
        (Shows false (get es))
unfolding emulator_from_list get
emulator_from_list-listing es u n = Yields-end (allow_lines deny_all (listing es)) _ (
    Yields-Shows _ false _ _ (allow_lines-listing es deny_all refl u n (λ m. nil-IsCanonical))
      (λ m. union-nil (get es m) (get-IsCanonical es m (listed-entries es n))))
