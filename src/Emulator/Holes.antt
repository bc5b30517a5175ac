-- ===== src/Emulator/Holes.antt =====
-- `rmRule` of cgroups/devices/devices_emulator.go on all its branches.
use libcontainer.Prelude.{
  List, [], ◌∷◌, some, none, ◌≡◌, ◌≢◌, refl, ◌⊎◌, inl, inr, arith, if◌then◌else◌, Option-cases, All,
  err, Bool, true, false, Option, not, subst,
}
use libcontainer.Devices.{difference, intersection, is_empty, wildcard}
use libcontainer.Devices.Permissions.{is_empty_iff}
use libcontainer.Emulator.{
  DeviceMeta, DeviceRule, DeviceRules, Emulator, get, meta_eq, partial_metas, find_hole, rm_rule,
  punched_hole,
}
use libcontainer.Emulator.Table.{meta_eq_iff}
use libcontainer.Emulator.Apply.{get-subtract}
use libcontainer.Emulator.Loops.{Yields, Shows, subtract-default}

-- The entry for `k`, which is not the rule's own, has a permission that the rule would remove.
abbrev pub IsHole : DeviceRules → DeviceRule → DeviceMeta → Type 0
IsHole rs r k = (r.meta ≢ k) × (intersection (get rs k) r.perms ≢ [])

find_hole-IsHole :
    (rs : DeviceRules) (r : DeviceRule) (ms : List DeviceMeta) (k : DeviceMeta)
    → find_hole rs r ms ≡ some k
    → IsHole rs r k
unfolding find_hole
find_hole-IsHole rs r [] k h = cc
find_hole-IsHole rs r (m ∷ ms) k h = ground (
  arith,
  find_hole-IsHole rs r ms k,
  meta_eq_iff r.meta m,
  is_empty_iff (intersection (get rs m) r.perms),
)

find_hole-none-IsHole :
    (rs : DeviceRules) (r : DeviceRule) (ms : List DeviceMeta)
    → find_hole rs r ms ≡ none
    → All (λ k. ¬ IsHole rs r k) ms
unfolding find_hole
find_hole-none-IsHole rs r [] h = tt
find_hole-none-IsHole rs r (m ∷ ms) h = (not_here, find_hole-none-IsHole rs r ms (ground arith))
  where
    not_here : ¬ IsHole rs r m
    not_here (differs, shares) =
        ground (arith, meta_eq_iff r.meta m, is_empty_iff (intersection (get rs m) r.perms))

-- The wildcard entries that cover a device: for each minor number of its major one, for its minor
-- number under each major one, and for every device of its type.
pub data IsRange (m : DeviceMeta) : DeviceMeta → Type 0 where
  every_major : IsRange m (record { node = m.node; major = wildcard; minor = m.minor })
  every_minor : IsRange m (record { node = m.node; major = m.major; minor = wildcard })
  every_device : IsRange m (record { node = m.node; major = wildcard; minor = wildcard })

here_or_later :
    (b c : Bool) (rest : Option DeviceMeta) (m k : DeviceMeta)
    → (if b then rest else if c then some m else rest) ≡ some k
    → (m ≡ k) ⊎ (rest ≡ some k)
here_or_later true c rest m k h = inr h
here_or_later false true rest m k h = inl cc
here_or_later false false rest m k h = inr h

find_hole-found :
    (P : DeviceMeta → Type 0) (rs : DeviceRules) (r : DeviceRule) (ms : List DeviceMeta)
    (k : DeviceMeta)
    → All P ms
    → find_hole rs r ms ≡ some k
    → P k
unfolding find_hole
find_hole-found P rs r [] k all h = absurd cc
find_hole-found P rs r (m ∷ ms) k all h =
    elim (here_or_later (meta_eq r.meta m) (not (is_empty (intersection (get rs m) r.perms)))
      (find_hole rs r ms) m k h) [
        | inl here ↦ subst P here all.0
        | inr later ↦ find_hole-found P rs r ms k all.1 later
      ]

none_in_range :
    (P : DeviceMeta → Type 0) (m k : DeviceMeta) → All P (partial_metas m) → IsRange m k → P k
none_in_range P m _ all every_major = all.0
none_in_range P m _ all every_minor = all.1.0
none_in_range P m _ all every_device = all.1.1.0

-- `rmRule` either refuses, and names a wildcard entry that covers the rule's device, is not the
-- rule's own and has a permission to be removed, or no wildcard entry that covers the device is such
-- and it takes the rule's permissions from that device and changes nothing else.
pub rm_rule_cases :
    (e : Emulator) (r : DeviceRule)
    → ((k : DeviceMeta) × (rm_rule e r ≡ err (punched_hole r k))
        × IsRange r.meta k
        × IsHole e.rules r k)
      ⊎ (((k : DeviceMeta) → IsRange r.meta k → ¬ IsHole e.rules r k)
          × Yields (rm_rule e r) (
              Shows e.default_allow (λ m.
                if meta_eq r.meta m then difference (get e.rules m) r.perms else get e.rules m)))
unfolding rm_rule
rm_rule_cases e r = elim (Option-cases (find_hole e.rules r (partial_metas r.meta))) [
  | inl h ↦ inr (
    (λ k.
        none_in_range (λ x. ¬ IsHole e.rules r x) r.meta k
          (find_hole-none-IsHole e.rules r (partial_metas r.meta) h)),
    rw (h, rm_rule) (record { default_is = subtract-default e r; shows = λ m. get-subtract e r m }),
  )
  | inr (k, h) ↦ inl (
    k,
    rw (h, rm_rule) refl,
    find_hole-found (IsRange r.meta) e.rules r (partial_metas r.meta) k
        (every_major, (every_minor, (every_device, tt))) h,
    find_hole-IsHole e.rules r (partial_metas r.meta) k h,
  )
]
