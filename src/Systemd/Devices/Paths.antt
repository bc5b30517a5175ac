-- ===== src/Systemd/Devices/Paths.antt =====
-- The paths that `generateDeviceProperties` of cgroups/systemd/common.go gives to systemd, against the
-- devices that they stand for.
use libcontainer.Prelude.{
  ℕ, Bool, true, false, ◌&&◌, ◌||◌, not, [], ◌∷◌, ◌++◌, ◌==◌, Option, none, some, bytes_eq,
  if◌then◌else◌, ok, ◌≡◌, inl, inr, refl, sym, subst, ap, ◌∙◌, arith, Bool-cases,
}
use libcontainer.Prelude.Int.{ℤ, pos, eq_ℤ, ltb_ℤ}
use libcontainer.Text.{Bytes, codes, format_int}
use libcontainer.Devices.{wildcard, block_device}
use libcontainer.Emulator.{DeviceMeta, as_rule}
use libcontainer.Emulator.Apply.{IsCgroupNode}
use libcontainer.Systemd.Devices.{Host, find_device_group, entry_path}
use libcontainer.Systemd.Devices.Groups.{
  prefix_of, IsGroup, group_prefix_lem, find_device_group-IsGroup,
}

-- The numbers of one device, neither of which is `*`.
abbrev pub is_single : DeviceMeta → Bool
is_single m = not (eq_ℤ m.major wildcard) && not (eq_ℤ m.minor wildcard)

-- the path of the device by its numbers
abbrev pub path_of : DeviceMeta → Bytes
path_of m =
    (if m.node == block_device then codes "/dev/block/" else codes "/dev/char/")
    ++ (format_int m.major ++ b':' ∷ format_int m.minor)

-- systemd takes the path of a device since its version 240, and before if it is there.
abbrev pub takes_path : Host → ℤ → DeviceMeta → Bool
takes_path h version m = not (ltb_ℤ version (pos 240)) || h.path_exists (path_of m)

-- What a path of DeviceAllow stands for: every device of the type, a group that /proc/devices lists
-- for the type and the major number, or one device.
pub data Names (h : Host) (m : DeviceMeta) (path : Bytes) : Type 0 where
  all_of_type :
      eq_ℤ m.major wildcard ≡ true
      → eq_ℤ m.minor wildcard ≡ true
      → path ≡ prefix_of m.node ++ codes "*"
      → Names h m path
  group :
      eq_ℤ m.major wildcard ≡ false
      → eq_ℤ m.minor wildcard ≡ true
      → IsGroup h m.node m.major path
      → Names h m path
  single : is_single m ≡ true → path ≡ path_of m → Names h m path

-- The search for a group fails for no block or character device.
abbrev pub FindsGroups : Host → Type 0
FindsGroups h =
    (t : ℕ) (major : ℤ) → IsCgroupNode t → (name : Bytes) × (find_device_group h t major ≡ ok name)

-- The path of a rule is found without an error; it stands for the rule's devices, and the path of
-- one device that systemd takes is there.
pub record PathFound (h : Host) (version : ℤ) (m : DeviceMeta) (p : Bytes) : Type 0 where
  pub path : Option Bytes
  pub found : entry_path h version (as_rule true m p) ≡ ok path
  pub names : (s : Bytes) → path ≡ some s → Names h m s
  pub there : is_single m ≡ true → takes_path h version m ≡ true → path ≡ some (path_of m)

some-injective {ℓ} : {A : Type ℓ} (a b : A) → some a ≡ some b → a ≡ b
some-injective a b h = cc

module _ (h : Host) (version : ℤ) (m : DeviceMeta) (p : Bytes) (node : IsCgroupNode m.node) where
  every_path : eq_ℤ m.major wildcard ≡ true → eq_ℤ m.minor wildcard ≡ true → PathFound h version m p
  unfolding entry_path
  every_path a b = record {
    path = some (prefix_of m.node ++ codes "*");
    found = rw (a, b, group_prefix_lem m.node node) refl;
    names = λ s q. all_of_type a b (sym (some-injective _ s q));
    there = λ s. ground (arith, a);
  }

  ignored_path :
      eq_ℤ m.major wildcard ≡ true → eq_ℤ m.minor wildcard ≡ false → PathFound h version m p
  unfolding entry_path
  ignored_path a b = record {
    path = none;
    found = rw (a, b) refl;
    names = λ s q. ground arith;
    there = λ s. ground (arith, a);
  }

  group_path :
      FindsGroups h
      → eq_ℤ m.major wildcard ≡ false
      → eq_ℤ m.minor wildcard ≡ true
      → PathFound h version m p
  unfolding entry_path
  group_path finds a b =
      let (name, e) = finds m.node m.major node in
      record {
        path = if bytes_eq name [] then none else some name;
        found = rw (a, b, e) refl;
        names = λ s q.
            let (same, full) = taken name s q in
            group a b (find_device_group-IsGroup h m.node m.major s node (e ∙ ap ok same) full);
        there = λ s. ground (arith, b);
      }
    where
      taken :
          (name s : Bytes)
          → (if bytes_eq name [] then none else some name) ≡ some s
          → (name ≡ s) × (bytes_eq s [] ≡ false)
      taken name s q = elim (Bool-cases (bytes_eq name [])) [
        | inl e ↦ cc
        | inr e ↦
            let same = some-injective name s (rw e at q) in
            (same, subst (λ x. bytes_eq x [] ≡ false) same e)
      ]

  device_found :
      eq_ℤ m.major wildcard ≡ false → eq_ℤ m.minor wildcard ≡ false → PathFound h version m p
  unfolding entry_path
  device_found a b = record {
    path =
        if ltb_ℤ version (pos 240) && not (h.path_exists (path_of m))
        then none
        else some (path_of m);
    found = rw (a, b) refl;
    names = λ s q. single (rw (a, b) refl) (ground (arith, q));
    there = λ s t. ground (arith, t);
  }

  pub path_found : FindsGroups h → PathFound h version m p
  path_found finds = elim (Bool-cases (eq_ℤ m.major wildcard)) [
    | inl a ↦ elim (Bool-cases (eq_ℤ m.minor wildcard)) [
      | inl b ↦ every_path a b
      | inr b ↦ ignored_path a b
    ]
    | inr a ↦ elim (Bool-cases (eq_ℤ m.minor wildcard)) [
      | inl b ↦ group_path finds a b
      | inr b ↦ device_found a b
    ]
  ]
