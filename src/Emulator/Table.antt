-- ===== src/Emulator/Table.antt =====
-- The map of cgroups/devices/devices_emulator.go read key by key, and its sorted entries.
use libcontainer.Prelude.{
  All, All-imp, All-both, Bool-cases, inl, inr, Bool, true, false, ◌||◌, [], ◌∷◌, ◌≡◌, refl, ◌↔◌,
  arith, if◌then◌else◌,
}
use libcontainer.Prelude.Int.{eq_ℤ_iff}
use libcontainer.Devices.{Permissions}
use libcontainer.Emulator.{
  DeviceMeta, DeviceRule, DeviceRules, meta_eq, before, get, put, delete, insert_entry,
  ordered_entries,
}

pub meta_eq_iff : (a b : DeviceMeta) → (meta_eq a b ≡ true) ↔ (a ≡ b)
meta_eq_iff a b = ground (arith, eq_ℤ_iff a.major b.major, eq_ℤ_iff a.minor b.minor)

pub get-put :
    (k m : DeviceMeta) (p : Permissions) (rs : DeviceRules)
    → get (put k p rs) m ≡ (if meta_eq k m then p else get rs m)
unfolding get put
get-put k m p [] = refl
get-put k m p (r ∷ rs) =
    ground (arith, meta_eq_iff k m, meta_eq_iff r.meta k, meta_eq_iff r.meta m, get-put k m p rs)

pub get-delete :
    (k m : DeviceMeta) (rs : DeviceRules)
    → get (delete k rs) m ≡ (if meta_eq k m then [] else get rs m)
unfolding get delete
get-delete k m [] = ground arith
get-delete k m (r ∷ rs) =
    ground (arith, meta_eq_iff k m, meta_eq_iff r.meta k, meta_eq_iff r.meta m, get-delete k m rs)

-- whether a key has an entry
abbrev pub has : DeviceRules → DeviceMeta → Bool
has [] m = false
has (r ∷ rs) m = meta_eq r.meta m || has rs m

-- one entry for a key
abbrev pub IsUnique : DeviceRules → Type 0
IsUnique [] = Unit {0}
IsUnique (r ∷ rs) = (has rs r.meta ≡ false) × IsUnique rs

pub get-not_has : (rs : DeviceRules) (m : DeviceMeta) → has rs m ≡ false → get rs m ≡ []
unfolding get
get-not_has [] m h = refl
get-not_has (r ∷ rs) m h = ground (arith, get-not_has rs m)

has-insert :
    (r : DeviceRule) (rs : DeviceRules) (m : DeviceMeta)
    → has (insert_entry r rs) m ≡ (meta_eq r.meta m || has rs m)
unfolding insert_entry
has-insert r [] m = refl
has-insert r (x ∷ xs) m = ground (arith, has-insert r xs m)

get-insert :
    (r : DeviceRule) (rs : DeviceRules) (m : DeviceMeta)
    → has rs r.meta ≡ false
    → get (insert_entry r rs) m ≡ (if meta_eq r.meta m then r.perms else get rs m)
unfolding insert_entry get
get-insert r [] m h = refl
get-insert r (x ∷ xs) m h = ground (
  arith,
  get-insert r xs m,
  meta_eq_iff r.meta m,
  meta_eq_iff x.meta m,
  meta_eq_iff x.meta r.meta,
)

insert-IsUnique :
    (r : DeviceRule) (rs : DeviceRules)
    → has rs r.meta ≡ false
    → IsUnique rs
    → IsUnique (insert_entry r rs)
unfolding insert_entry
insert-IsUnique r [] h u = (refl, tt)
insert-IsUnique r (x ∷ xs) h u = ground (
  arith,
  insert-IsUnique r xs,
  has-insert r xs x.meta,
  meta_eq_iff r.meta x.meta,
  meta_eq_iff x.meta r.meta,
)

pub has-ordered_entries :
    (rs : DeviceRules) (m : DeviceMeta) → has (ordered_entries rs) m ≡ has rs m
unfolding ordered_entries
has-ordered_entries [] m = refl
has-ordered_entries (r ∷ rs) m =
    ground (arith, has-insert r (ordered_entries rs) m, has-ordered_entries rs m)

-- Sorting the entries changes no value.
pub get-ordered_entries :
    (rs : DeviceRules) (m : DeviceMeta) → IsUnique rs → get (ordered_entries rs) m ≡ get rs m
unfolding ordered_entries get
get-ordered_entries [] m u = refl
get-ordered_entries (r ∷ rs) m u = ground (
  arith,
  get-insert r (ordered_entries rs) m,
  has-ordered_entries rs r.meta,
  get-ordered_entries rs m,
)

pub ordered_entries-IsUnique : (rs : DeviceRules) → IsUnique rs → IsUnique (ordered_entries rs)
unfolding ordered_entries
ordered_entries-IsUnique [] u = tt
ordered_entries-IsUnique (r ∷ rs) u =
    insert-IsUnique r (ordered_entries rs) (ground (arith, has-ordered_entries rs r.meta))
      (ordered_entries-IsUnique rs u.1)

module _ (P : DeviceRule → Type 0) where
  insert-All : (r : DeviceRule) (rs : DeviceRules) → P r → All P rs → All P (insert_entry r rs)
  unfolding insert_entry
  insert-All r [] h a = (h, tt)
  insert-All r (x ∷ xs) h a = elim (Bool-cases (before x.meta r.meta)) [
    | inl e ↦ rw e (a.0, insert-All r xs h a.1)
    | inr e ↦ rw e (h, a)
  ]

  pub ordered_entries-All : (rs : DeviceRules) → All P rs → All P (ordered_entries rs)
  unfolding ordered_entries
  ordered_entries-All [] a = tt
  ordered_entries-All (r ∷ rs) a =
      insert-All r (ordered_entries rs) a.0 (ordered_entries-All rs a.1)

all_has : (es : DeviceRules) → All (λ r. has es r.meta ≡ true) es
all_has [] = tt
all_has (r ∷ rs) = (
  rw ((meta_eq_iff r.meta r.meta).1 refl) refl,
  All-imp (λ x. has rs x.meta ≡ true) (λ x. has (r ∷ rs) x.meta ≡ true) (λ x a. ground (arith, a))
      rs (all_has rs),
)

-- Each item of a table without doubles is what the table gives for it.
pub own_value : (es : DeviceRules) → IsUnique es → All (λ r. get es r.meta ≡ r.perms) es
unfolding get
own_value [] u = tt
own_value (r ∷ rs) u = (
  rw ((meta_eq_iff r.meta r.meta).1 refl) refl,
  All-imp (λ x. (get rs x.meta ≡ x.perms) × (has rs x.meta ≡ true))
      (λ x. get (r ∷ rs) x.meta ≡ x.perms)
      (λ x a. ground (arith, a.0, a.1, u.0, meta_eq_iff r.meta x.meta)) rs
      (All-both (λ x. get rs x.meta ≡ x.perms) (λ x. has rs x.meta ≡ true) rs (own_value rs u.1)
        (all_has rs)),
)
