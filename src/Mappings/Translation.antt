-- ===== src/Mappings/Translation.antt =====
-- The translation of ids of configs/config_linux.go, over numbers that do not wrap around.
use libcontainer.Prelude.{
  ℕ, ◌+◌, ◌-◌, ◌^◌, ◌≤◌, ◌<◌, ◌≡◌, refl, true, ◌&&◌, List, [], ◌∷◌, Option, none, some, ltb, leb,
  All, if◌then◌else◌, Result, ok, err, arith, Bool-cases, Option-cases, sym, inl, inr,
}
use libcontainer.Namespaces.{contains, new_user}
use libcontainer.Mappings.{
  IdMapping, Config, Error, no_uid_map, no_user_map, no_gid_map, no_group_map, host_id_from_mapping,
  host_uid, host_gid, mapped_id, covers, add_i64, sub_i64,
}

-- Neither range leaves the numbers of int64 that are not negative.
abbrev pub IsInRange : IdMapping → Type 0
IsInRange m =
    (m.container_id < 2 ^ 63) × (m.container_id + m.size ≤ 2 ^ 63) × (m.host_id + m.size ≤ 2 ^ 63)

-- the translation by the first mapping with the id
pub translate : List IdMapping → ℕ → Option ℕ
translate [] id = none
translate (m ∷ ms) id =
    if leb m.container_id id && ltb id (m.container_id + m.size)
    then some (m.host_id + (id - m.container_id))
    else translate ms id

covers_lem :
    (m : IdMapping) (id : ℕ)
    → IsInRange m
    → id < 2 ^ 63
    → covers m id ≡ (leb m.container_id id && ltb id (m.container_id + m.size))
covers_lem m id h lt = ground arith

offset_lem :
    (m : IdMapping) (id : ℕ)
    → IsInRange m
    → id < 2 ^ 63
    → covers m id ≡ true
    → (add_i64 m.host_id (sub_i64 id m.container_id) ≡ m.host_id + (id - m.container_id))
      × (m.host_id + (id - m.container_id) < 2 ^ 63)
offset_lem m id h lt e = ground arith

host_id_from_mapping-translate :
    (ms : List IdMapping) (id : ℕ)
    → All IsInRange ms
    → id < 2 ^ 63
    → host_id_from_mapping id ms ≡ translate ms id
unfolding host_id_from_mapping translate
host_id_from_mapping-translate [] id h lt = refl
host_id_from_mapping-translate (m ∷ ms) id h lt = elim (Bool-cases (covers m id)) [
  | inl e ↦ rw (e, sym (covers_lem m id h.0 lt), e, (offset_lem m id h.0 lt e).0)
  | inr e ↦ rw (e, sym (covers_lem m id h.0 lt), e, host_id_from_mapping-translate ms id h.1 lt)
]

translate_bound :
    (ms : List IdMapping) (id host : ℕ)
    → All IsInRange ms
    → id < 2 ^ 63
    → translate ms id ≡ some host
    → host < 2 ^ 63
unfolding translate
translate_bound [] id host h lt e = ground arith
translate_bound (m ∷ ms) id host h lt e = ground (arith, translate_bound ms id host h.1 lt)

-- The answer for a mapped id.
abbrev pub answer : Error → Option ℕ → Result Error ℕ
answer e none = err e
answer e (some host) = ok host

mapped_id-answer :
    (e f : Error) (ms : List IdMapping) (id : ℕ)
    → All IsInRange ms
    → id < 2 ^ 63
    → mapped_id e f id (some ms) ≡ answer f (translate ms id)
mapped_id-answer e f ms id h lt = elim (Option-cases (translate ms id)) [
  | inl t ↦ rw (host_id_from_mapping-translate ms id h lt, t)
  | inr (host, t) ↦
      rw (host_id_from_mapping-translate ms id h lt, t)
        (ground (arith, translate_bound ms id host h lt t))
]

-- With a user namespace and both lists of mappings, whose ranges do not leave the numbers of int64
-- that are not negative, an id is translated by the first mapping whose range has it, and if there
-- is none the call fails; without a user namespace each id stands for itself.
pub host_ids_translate :
    (c : Config) (us gs : List IdMapping) (id : ℕ)
    → c.uid_mappings ≡ some us
    → c.gid_mappings ≡ some gs
    → All IsInRange us
    → All IsInRange gs
    → id < 2 ^ 63
    → (host_uid c id
        ≡ (if contains c.namespaces new_user then answer no_user_map (translate us id) else ok id))
      × (host_gid c id ≡ (
          if contains c.namespaces new_user then answer no_group_map (translate gs id) else ok id))
unfolding host_uid host_gid
host_ids_translate c us gs id u g hu hg lt = (
  rw (u, mapped_id-answer no_uid_map no_user_map us id hu lt),
  rw (g, mapped_id-answer no_gid_map no_group_map gs id hg lt),
)
