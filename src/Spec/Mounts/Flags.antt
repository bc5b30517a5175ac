-- ===== src/Spec/Mounts/Flags.antt =====
-- What `parseMountOptions` of specconv/spec_linux.go makes of a list of options, whatever the values
-- of the constants are.
use libcontainer.Prelude.{
  ℕ, Bool, false, ◌&&◌, ◌||◌, not, List, [], ◌∷◌, ◌++◌, Option, none, some, any, ◌==◌, bit_and,
  if◌then◌else◌, ◌≡◌,
}
use libcontainer.Prelude.Bits.{bit}
use libcontainer.Text.{Bytes}
use libcontainer.Spec.Mounts.{
  MountConstants, AttrConstants, Kind, mount_flag, recursive, extension, propagation, plain,
  Options, Mount, join_values, kind_of, attr_of,
}

-- What an option says of a bit of the flags.
abbrev pub says : ℕ → Kind → Option Bool
says i (mount_flag f) = if bit f.flag i then some (not f.clear) else none
says i (recursive f) = none
says i (extension f) = none
says i (propagation f) = none
says i plain = none

abbrev pub settled : Option Bool → Bool → Bool
settled none b = b
settled (some x) b = x

-- Whether an option sets a bit of the recursive attributes.
abbrev pub sets_attr : ℕ → Kind → Bool
sets_attr i (recursive f) = not f.clear && bit f.flag i
sets_attr i (mount_flag f) = false
sets_attr i (extension f) = false
sets_attr i (propagation f) = false
sets_attr i plain = false

-- Whether an option clears a bit of them: by itself, or as an access-time setting, which clears
-- the whole mask in front of what it sets.
abbrev pub clears_attr : AttrConstants → ℕ → Kind → Bool
clears_attr a i (recursive f) =
    if f.clear then bit f.flag i else bit_and f.flag a.attr_atime == f.flag && bit a.attr_atime i
clears_attr a i (mount_flag f) = false
clears_attr a i (extension f) = false
clears_attr a i (propagation f) = false
clears_attr a i plain = false

abbrev pub plain_value : Bytes → Kind → List Bytes → List Bytes
plain_value o plain rest = o ∷ rest
plain_value o (recursive f) rest = rest
plain_value o (mount_flag f) rest = rest
plain_value o (extension f) rest = rest
plain_value o (propagation f) rest = rest

abbrev pub propagated : Kind → List ℕ → List ℕ
propagated (propagation f) rest = f ∷ rest
propagated (recursive f) rest = rest
propagated (mount_flag f) rest = rest
propagated (extension f) rest = rest
propagated plain rest = rest

module _ (c : MountConstants) (a : AttrConstants) where
  -- What the last option that says something of a bit says of it.
  pub decided : ℕ → List Bytes → Option Bool
  decided i [] = none
  decided i (o ∷ options) = elim (decided i options) [
    | none ↦ says i (kind_of c a o)
    | some later ↦ some later
  ]

  pub plain_values : List Bytes → List Bytes
  plain_values [] = []
  plain_values (o ∷ options) = plain_value o (kind_of c a o) (plain_values options)

  pub propagations : List Bytes → List ℕ
  propagations [] = []
  propagations (o ∷ options) = propagated (kind_of c a o) (propagations options)

  -- One round.
  record Takes (m : Options) (o : Bytes) (k : Kind) (n : Options) : Type 0 where
    flags : (i : ℕ) → bit n.flags i ≡ settled (says i k) (bit m.flags i)
    attrs : (i : ℕ) → bit n.attr_set i ≡ (bit m.attr_set i || sets_attr i k)
    cleared : (i : ℕ) → bit n.attr_clr i ≡ (bit m.attr_clr i || clears_attr a i k)
    values : (rest : List Bytes) → n.values ++ rest ≡ m.values ++ plain_value o k rest
    spread :
        (rest : List ℕ) → n.propagation_flags ++ rest ≡ m.propagation_flags ++ propagated k rest

  -- The whole loop.
  record Taken (m : Options) (options : List Bytes) (n : Options) : Type 0 where
    flags : (i : ℕ) → bit n.flags i ≡ settled (decided i options) (bit m.flags i)
    attrs :
        (i : ℕ)
        → bit n.attr_set i ≡ (bit m.attr_set i || any (λ o. sets_attr i (kind_of c a o)) options)
    cleared :
        (i : ℕ)
        → bit n.attr_clr i
          ≡ (bit m.attr_clr i || any (λ o. clears_attr a i (kind_of c a o)) options)
    values : n.values ≡ m.values ++ plain_values options
    spread : n.propagation_flags ≡ m.propagation_flags ++ propagations options

  -- What the mount must be.
  pub record IsParsed (options : List Bytes) (m : Mount) : Type 0 where
    pub flags : (i : ℕ) → bit m.flags i ≡ settled (decided i options) false
    pub attrs :
        (s : ℕ) × (r : ℕ) × (m.rec_attr ≡ attr_of c a s r)
        × ((i : ℕ) → bit s i ≡ any (λ o. sets_attr i (kind_of c a o)) options)
        × ((i : ℕ) → bit r i ≡ any (λ o. clears_attr a i (kind_of c a o)) options)
    pub values : m.values ≡ join_values (plain_values options)
    pub spread : m.propagation_flags ≡ propagations options
