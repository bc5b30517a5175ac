-- ===== src/Spec/Mounts.antt =====
-- The options of the mounts of a specification: `parseMountOptions` of specconv/spec_linux.go. The
-- constants of the kernel's headers are arguments; a set of flags is a number, as in the code.
pub mod Flags
pub mod Created
use libcontainer.Prelude.{
  ℕ, Bool, true, false, ◌||◌, not, List, [], ◌∷◌, ◌++◌, Option, none, some, any, ◌==◌, bytes_eq,
  bit_and, bit_or, bit_xor, if◌then◌else◌,
}
use libcontainer.Text.{Bytes, codes, has_prefix}

-- MS_… of mount(2)
pub record MountConstants : Type 0 where
  pub posixacl : ℕ
  pub synchronous : ℕ
  pub noatime : ℕ
  pub bind_mount : ℕ
  pub nodev : ℕ
  pub nodiratime : ℕ
  pub dirsync : ℕ
  pub noexec : ℕ
  pub i_version : ℕ
  pub lazytime : ℕ
  pub silent : ℕ
  pub mandlock : ℕ
  pub relatime : ℕ
  pub strictatime : ℕ
  pub nosuid : ℕ
  pub nosymfollow : ℕ
  pub rec_mount : ℕ
  pub remount : ℕ
  pub rdonly : ℕ
  pub private_mount : ℕ
  pub slave : ℕ
  pub shared : ℕ
  pub unbindable : ℕ

-- MOUNT_ATTR_… of mount_setattr(2), and the mask MOUNT_ATTR__ATIME
pub record AttrConstants : Type 0 where
  pub attr_rdonly : ℕ
  pub attr_nosuid : ℕ
  pub attr_nodev : ℕ
  pub attr_noexec : ℕ
  pub attr_nodiratime : ℕ
  pub attr_relatime : ℕ
  pub attr_noatime : ℕ
  pub attr_strictatime : ℕ
  pub attr_nosymfollow : ℕ
  pub attr_atime : ℕ

-- a value of the tables: whether the flag is cleared, and the flag
pub record Flag : Type 0 where
  pub clear : Bool
  pub flag : ℕ

abbrev pub sets : ℕ → Flag
sets f = record { clear = false; flag = f }

abbrev pub clears : ℕ → Flag
clears f = record { clear = true; flag = f }

unfoldable pub find {ℓ} : {A : Type ℓ} → List (Bytes × A) → Bytes → Option A
find [] o = none
find ((k, a) ∷ table) o = let rest = find table o in if bytes_eq k o then some a else rest

-- `configs.EXT_COPYUP`
abbrev pub ext_copyup : ℕ
ext_copyup = 1

abbrev pub extension_flags : List (Bytes × Flag)
extension_flags = (codes "tmpcopyup", sets ext_copyup) ∷ []

-- what an option is
pub data Kind : Type 0 where
  mount_flag recursive extension : Flag → Kind
  propagation : ℕ → Kind
  plain : Kind

-- the variables of `parseMountOptions`; `attr_set` and `attr_clr` are of the recursive attributes
pub record Options : Type 0 where
  pub flags : ℕ
  pub propagation_flags : List ℕ
  pub attr_set : ℕ
  pub attr_clr : ℕ
  pub extensions : ℕ
  pub values : List Bytes

abbrev pub no_options : Options
no_options = record {
  flags = 0;
  propagation_flags = [];
  attr_set = 0;
  attr_clr = 0;
  extensions = 0;
  values = [];
}

-- `m &= ^f` or `m |= f`
abbrev pub with_flag : ℕ → Flag → ℕ
with_flag m f = if f.clear then bit_xor m (bit_and m f.flag) else bit_or m f.flag

-- `configs.Mount`, and its fields from the options
pub record Mount : Type 0 where
  pub source : Bytes
  pub destination : Bytes
  pub device : Bytes
  pub flags : ℕ
  pub propagation_flags : List ℕ
  pub values : Bytes
  pub rec_attr : Option (ℕ × ℕ)
  pub extensions : ℕ

-- `strings.Join` with a comma
abbrev pub join_values : List Bytes → Bytes
join_values [] = []
join_values (v ∷ []) = v
join_values (v ∷ u ∷ vs) = v ++ b',' ∷ join_values (u ∷ vs)

module _ (c : MountConstants) (a : AttrConstants) where
  abbrev pub mount_flags : List (Bytes × Flag)
  mount_flags =
      (codes "acl", sets c.posixacl)
      ∷ (codes "async", clears c.synchronous)
      ∷ (codes "atime", clears c.noatime)
      ∷ (codes "bind", sets c.bind_mount)
      ∷ (codes "defaults", sets 0)
      ∷ (codes "dev", clears c.nodev)
      ∷ (codes "diratime", clears c.nodiratime)
      ∷ (codes "dirsync", sets c.dirsync)
      ∷ (codes "exec", clears c.noexec)
      ∷ (codes "iversion", sets c.i_version)
      ∷ (codes "lazytime", sets c.lazytime)
      ∷ (codes "loud", clears c.silent)
      ∷ (codes "mand", sets c.mandlock)
      ∷ (codes "noacl", clears c.posixacl)
      ∷ (codes "noatime", sets c.noatime)
      ∷ (codes "nodev", sets c.nodev)
      ∷ (codes "nodiratime", sets c.nodiratime)
      ∷ (codes "noexec", sets c.noexec)
      ∷ (codes "noiversion", clears c.i_version)
      ∷ (codes "nolazytime", clears c.lazytime)
      ∷ (codes "nomand", clears c.mandlock)
      ∷ (codes "norelatime", clears c.relatime)
      ∷ (codes "nostrictatime", clears c.strictatime)
      ∷ (codes "nosuid", sets c.nosuid)
      ∷ (codes "nosymfollow", sets c.nosymfollow)
      ∷ (codes "rbind", sets (bit_or c.bind_mount c.rec_mount))
      ∷ (codes "relatime", sets c.relatime)
      ∷ (codes "remount", sets c.remount)
      ∷ (codes "ro", sets c.rdonly)
      ∷ (codes "rw", clears c.rdonly)
      ∷ (codes "silent", sets c.silent)
      ∷ (codes "strictatime", sets c.strictatime)
      ∷ (codes "suid", clears c.nosuid)
      ∷ (codes "sync", sets c.synchronous)
      ∷ (codes "symfollow", clears c.nosymfollow)
      ∷ []

  abbrev pub mount_propagation_mapping : List (Bytes × ℕ)
  mount_propagation_mapping =
      (codes "rprivate", bit_or c.private_mount c.rec_mount)
      ∷ (codes "private", c.private_mount)
      ∷ (codes "rslave", bit_or c.slave c.rec_mount)
      ∷ (codes "slave", c.slave)
      ∷ (codes "rshared", bit_or c.shared c.rec_mount)
      ∷ (codes "shared", c.shared)
      ∷ (codes "runbindable", bit_or c.unbindable c.rec_mount)
      ∷ (codes "unbindable", c.unbindable)
      ∷ ([], 0)
      ∷ []

  abbrev pub rec_attr_flags : List (Bytes × Flag)
  rec_attr_flags =
      (codes "rro", sets a.attr_rdonly)
      ∷ (codes "rrw", clears a.attr_rdonly)
      ∷ (codes "rnosuid", sets a.attr_nosuid)
      ∷ (codes "rsuid", clears a.attr_nosuid)
      ∷ (codes "rnodev", sets a.attr_nodev)
      ∷ (codes "rdev", clears a.attr_nodev)
      ∷ (codes "rnoexec", sets a.attr_noexec)
      ∷ (codes "rexec", clears a.attr_noexec)
      ∷ (codes "rnodiratime", sets a.attr_nodiratime)
      ∷ (codes "rdiratime", clears a.attr_nodiratime)
      ∷ (codes "rrelatime", sets a.attr_relatime)
      ∷ (codes "rnorelatime", clears a.attr_relatime)
      ∷ (codes "rnoatime", sets a.attr_noatime)
      ∷ (codes "ratime", clears a.attr_noatime)
      ∷ (codes "rstrictatime", sets a.attr_strictatime)
      ∷ (codes "rnostrictatime", clears a.attr_strictatime)
      ∷ (codes "rnosymfollow", sets a.attr_nosymfollow)
      ∷ (codes "rsymfollow", clears a.attr_nosymfollow)
      ∷ []

  -- a flag that the platform has
  abbrev pub nonzero : Option Flag → (Flag → Kind) → Kind → Kind
  nonzero none there other = other
  nonzero (some f) there other = if not (f.flag == 0) then there f else other

  abbrev pub nonzero_propagation : Option ℕ → Kind → Kind
  nonzero_propagation none other = other
  nonzero_propagation (some f) other = if not (f == 0) then propagation f else other

  abbrev pub recursive_or : Option Flag → Kind → Kind
  recursive_or none other = other
  recursive_or (some f) other = recursive f

  -- the tests of the loop of `parseMountOptions`
  unfoldable pub kind_of : Bytes → Kind
  kind_of o = nonzero (find mount_flags o) mount_flag (
      nonzero_propagation (find mount_propagation_mapping o)
        (recursive_or (find rec_attr_flags o) (nonzero (find extension_flags o) extension plain)))

  abbrev pub set_attr : Options → Flag → Options
  set_attr m f = if f.clear then record m { attr_clr = bit_or m.attr_clr f.flag } else record m {
    attr_set = bit_or m.attr_set f.flag;
    attr_clr =
        if bit_and f.flag a.attr_atime == f.flag
        then bit_or m.attr_clr a.attr_atime
        else m.attr_clr;
  }

  -- the body of the loop
  abbrev pub take_option : Options → Bytes → Kind → Options
  take_option m o (mount_flag f) = record m { flags = with_flag m.flags f }
  take_option m o (propagation f) = record m { propagation_flags = m.propagation_flags ++ f ∷ [] }
  take_option m o (recursive f) = set_attr m f
  take_option m o (extension f) = record m { extensions = with_flag m.extensions f }
  take_option m o plain = record m { values = m.values ++ o ∷ [] }

  unfoldable pub take_options : Options → List Bytes → Options
  take_options m [] = m
  take_options m (o ∷ options) = take_options (take_option m o (kind_of o)) options

  abbrev pub attr_of : ℕ → ℕ → Option (ℕ × ℕ)
  attr_of s r = if not (s == 0) || not (r == 0) then some (s, r) else none

  abbrev pub mount_of : Options → Mount
  mount_of m = record {
    source = [];
    destination = [];
    device = [];
    flags = m.flags;
    propagation_flags = m.propagation_flags;
    values = join_values m.values;
    rec_attr = attr_of m.attr_set m.attr_clr;
    extensions = m.extensions;
  }

  -- `parseMountOptions`
  unfoldable pub parse_mount_options : List Bytes → Mount
  parse_mount_options options = mount_of (take_options no_options options)
