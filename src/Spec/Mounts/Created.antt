-- ===== src/Spec/Mounts/Created.antt =====
-- The mounts of a specification: `createLibcontainerMount` of specconv/spec_linux.go.
-- `filepath.Join` is an argument.
pub mod Clean
use libcontainer.Prelude.{
  Bool, ◌||◌, not, List, [], ◌∷◌, Option, none, some, any, ◌==◌, bit_and, if◌then◌else◌,
}
use libcontainer.Text.{Bytes, codes, has_prefix}
use libcontainer.Spec.Mounts.{MountConstants, AttrConstants, Mount, parse_mount_options}

module _ (c : MountConstants) (a : AttrConstants) where
  -- `filepath.IsAbs` on Unix
  abbrev pub is_abs : Bytes → Bool
  is_abs s = has_prefix s (codes "/")

  abbrev pub is_bind : Mount → Bool
  is_bind m = not (bit_and m.flags c.bind_mount == 0)

  abbrev pub has_null : Bytes → Bool
  has_null s = any (λ x. x == 0) s

  abbrev pub checked_fields : Mount → Option Mount
  checked_fields m =
      if has_null m.source || has_null m.destination || has_null m.device then none else some m

  -- the source and the type of a bind mount
  abbrev pub bound : (Bytes → Bytes → Bytes) → Bytes → Mount → Mount
  bound join cwd m = record m {
    device = codes "bind";
    source = if not (is_abs m.source) then join cwd m.source else m.source;
  }

  -- `createLibcontainerMount`, with `filepath.Join`, the working directory, and the fields of the
  -- specification's mount; `none` is the error
  unfoldable pub create_mount :
      (Bytes → Bytes → Bytes) → Bytes → Bytes → Bytes → Bytes → List Bytes → Option Mount
  create_mount join cwd destination source type options =
      let m : Mount = record (parse_mount_options c a options) {
        destination = destination;
        source = source;
        device = type;
      } in
      checked_fields (if is_bind m then bound join cwd m else m)
