-- ===== src/Spec/Mounts/Created/Clean.antt =====
-- The mount that `createLibcontainerMount` of specconv/spec_linux.go returns.
use libcontainer.Prelude.{
  Bool, true, false, ◌||◌, not, List, Option, none, some, ◌==◌, bit_and, if◌then◌else◌, ◌≡◌, refl,
  sym, ap, ◌∙◌, subst, arith,
}
use libcontainer.Text.{Bytes, codes}
use libcontainer.Spec.Mounts.{MountConstants, AttrConstants, Mount, parse_mount_options}
use libcontainer.Spec.Mounts.Created.{
  is_abs, is_bind, has_null, checked_fields, bound, create_mount,
}

module _ (c : MountConstants) (a : AttrConstants) where
  -- The source, the destination and the type have no null byte.
  pub record IsClean (m : Mount) : Type 0 where
    pub source : has_null c a m.source ≡ false
    pub destination : has_null c a m.destination ≡ false
    pub device : has_null c a m.device ≡ false

  -- What the fields are, from those of the specification.
  pub record IsMount (join : Bytes → Bytes → Bytes) (cwd destination source type : Bytes)
      (options : List Bytes) (m : Mount) : Type 0 where
    pub same_flags : m.flags ≡ (parse_mount_options c a options).flags
    pub same_destination : m.destination ≡ destination
    pub bind_fields :
        is_bind c a m ≡ true
        → (m.device ≡ codes "bind")
          × (m.source ≡ (if is_abs c a source then source else join cwd source))
    pub other_fields : is_bind c a m ≡ false → (m.device ≡ type) × (m.source ≡ source)

  none_of_three :
      (x y z : Bool) (m n : Mount)
      → ◌≡◌ {A = Option Mount} (if x || y || z then none else some m) (some n)
      → (m ≡ n) × (x ≡ false) × (y ≡ false) × (z ≡ false)
  none_of_three true y z m n h = absurd cc
  none_of_three false true z m n h = absurd cc
  none_of_three false false true m n h = absurd cc
  none_of_three false false false m n h = (cc, refl, refl, refl)

  checked_lem : (m n : Mount) → checked_fields c a m ≡ some n → (m ≡ n) × IsClean m
  checked_lem m n h =
      let (e, s, d, t) =
        none_of_three (has_null c a m.source) (has_null c a m.destination) (has_null c a m.device) m
          n h in
      (e, record { source = s; destination = d; device = t })

  turn_if : (b : Bool) (x y : Bytes) → (if not b then x else y) ≡ (if b then y else x)
  turn_if true x y = refl
  turn_if false x y = refl

  module _ (join : Bytes → Bytes → Bytes) (cwd : Bytes) where
    -- What the mount is, from the one without the change for bind mounts.
    record FromFirst (first m : Mount) : Type 0 where
      flags : m.flags ≡ first.flags
      destination : m.destination ≡ first.destination
      bind_fields :
          is_bind c a first ≡ true
          → (m.device ≡ codes "bind")
            × (m.source ≡ (if is_abs c a first.source then first.source else join cwd first.source))
      other_fields :
          is_bind c a first ≡ false → (m.device ≡ first.device) × (m.source ≡ first.source)

    from_first :
        (b : Bool) (first m : Mount)
        → is_bind c a first ≡ b
        → checked_fields c a (if b then bound c a join cwd first else first) ≡ some m
        → IsClean m × FromFirst first m
    from_first true first m kind h =
        let (same, clean) = checked_lem (bound c a join cwd first) m h in
        subst (λ x. IsClean x × FromFirst first x) same
          (
            clean,
            record {
              flags = refl;
              destination = refl;
              bind_fields = λ e. (refl, turn_if (is_abs c a first.source) _ _);
              other_fields = λ e. ground (arith, e, kind);
            },
          )
    from_first false first m kind h =
        let (same, clean) = checked_lem first m h in
        subst (λ x. IsClean x × FromFirst first x) same
          (
            clean,
            record {
              flags = refl;
              destination = refl;
              bind_fields = λ e. ground (arith, e, kind);
              other_fields = λ e. (refl, refl);
            },
          )

  -- Where createLibcontainerMount succeeds, neither the source, the destination nor the type of the
  -- mount has a null byte (its data are not checked); the flags are those of the options and the
  -- destination is the given one; a bind mount has the type "bind", and its source is joined to the
  -- working directory if it was not absolute; another mount has the given type and source.
  pub create_mount-IsMount :
      (join : Bytes → Bytes → Bytes) (cwd destination source type : Bytes) (options : List Bytes)
      (m : Mount)
      → create_mount c a join cwd destination source type options ≡ some m
      → IsClean m × IsMount join cwd destination source type options m
  unfolding create_mount
  create_mount-IsMount join cwd destination source type options m h =
      let first : Mount = record (parse_mount_options c a options) {
        destination = destination;
        source = source;
        device = type;
      } in
      let (clean, f) = from_first join cwd (is_bind c a first) first m refl h in
      let same = ap (λ x. not (bit_and x c.bind_mount == 0)) f.flags in
      (
        clean,
        record {
          same_flags = f.flags;
          same_destination = f.destination;
          bind_fields = λ e. f.bind_fields (sym same ∙ e);
          other_fields = λ e. f.other_fields (sym same ∙ e);
        },
      )
