-- ===== src/Namespaces/Laws.antt =====
-- The list of namespaces of configs/namespaces_linux.go as a map from types to paths.
use libcontainer.Prelude.{
  true, false, List, [], ◌∷◌, if◌then◌else◌, bytes_eq, ◌≡◌, refl, arith, ◌&&◌, ◌||◌, not, ap,
  Bool-cases, inl, inr, sym, subst, ◌∙◌, bytes_eq_iff,
}
use libcontainer.Text.{Bytes}
use libcontainer.Namespaces.{
  Namespace, index, add, remove, contains, path_of, path_at, set_path, remove_at,
}

contains-cons :
    (ns : Namespace) (n : List Namespace) (t : Bytes)
    → contains (ns ∷ n) t ≡ (if bytes_eq ns.type t then true else contains n t)
unfolding contains index
contains-cons ns n t = ground (arith)

path_of-cons :
    (ns : Namespace) (n : List Namespace) (t : Bytes)
    → path_of (ns ∷ n) t ≡ (if bytes_eq ns.type t then ns.path else path_of n t)
unfolding path_of index path_at
path_of-cons ns n t = ground (arith)

add-cons :
    (ns : Namespace) (n : List Namespace) (t p : Bytes)
    → add (ns ∷ n) t p ≡ (if bytes_eq ns.type t then record ns { path = p } ∷ n else ns ∷ add n t p)
unfolding add index set_path
add-cons ns n t p = ground (arith)

remove-cons :
    (ns : Namespace) (n : List Namespace) (t : Bytes)
    → remove (ns ∷ n) t
      ≡ (if bytes_eq ns.type t then (n, true) else (ns ∷ (remove n t).0, (remove n t).1))
unfolding remove index remove_at
remove-cons ns n t = ground (arith)

-- Each type stands once.
abbrev pub IsUnique : List Namespace → Type 0
IsUnique [] = Unit
IsUnique (ns ∷ n) = (contains n ns.type ≡ false) × IsUnique n

add-nil :
    (t p u : Bytes)
    → (contains (add [] t p) u ≡ (bytes_eq t u || contains [] u))
      × (path_of (add [] t p) u ≡ (if bytes_eq t u then p else path_of [] u))
unfolding contains path_of add index path_at
add-nil t p u = ground arith

same_head :
    (ns : Namespace) (t u : Bytes) → bytes_eq ns.type t ≡ true → bytes_eq ns.type u ≡ bytes_eq t u
same_head ns t u e = ap (λ x. bytes_eq x u) ((bytes_eq_iff ns.type t).0 e)

other_head :
    (ns : Namespace) (t u : Bytes)
    → bytes_eq ns.type t ≡ false
    → bytes_eq t u ≡ true
    → bytes_eq ns.type u ≡ false
other_head ns t u e same = rw (sym ((bytes_eq_iff t u).0 same)) e

other_type : (ns : Namespace) (t : Bytes) → bytes_eq ns.type t ≡ false → bytes_eq t ns.type ≡ false
other_type ns t e = ground (arith, (bytes_eq_iff t ns.type).0, (bytes_eq_iff ns.type t).1)

-- `Add` sets the path of one type, which is then in the list, and leaves each other type as it was.
pub add-lookup :
    (n : List Namespace) (t p u : Bytes)
    → (contains (add n t p) u ≡ (bytes_eq t u || contains n u))
      × (path_of (add n t p) u ≡ (if bytes_eq t u then p else path_of n u))
add-lookup [] t p u = add-nil t p u
add-lookup (ns ∷ n) t p u = elim (Bool-cases (bytes_eq ns.type t)) [
  | inl e ↦
      rw (add-cons ns n t p, e)
        (rw
          (
            contains-cons (record ns { path = p }) n u,
            path_of-cons (record ns { path = p }) n u,
            contains-cons ns n u,
            path_of-cons ns n u,
            same_head ns t u e,
          )
          (ground arith))
  | inr e ↦
      rw (add-cons ns n t p, e)
        (rw
          (
            contains-cons ns (add n t p) u,
            path_of-cons ns (add n t p) u,
            contains-cons ns n u,
            path_of-cons ns n u,
          )
          (ground (arith, add-lookup n t p u, other_head ns t u e)))
]

add_nil-IsUnique : (t p : Bytes) → IsUnique (add [] t p)
unfolding add index contains
add_nil-IsUnique t p = (refl, tt)

-- `Add` keeps the types unique.
pub add-IsUnique : (n : List Namespace) (t p : Bytes) → IsUnique n → IsUnique (add n t p)
add-IsUnique [] t p h = add_nil-IsUnique t p
add-IsUnique (ns ∷ n) t p h = elim (Bool-cases (bytes_eq ns.type t)) [
  | inl e ↦ rw (add-cons ns n t p, e) h
  | inr e ↦
      rw (add-cons ns n t p, e)
        (ground (arith, (add-lookup n t p ns.type).0, add-IsUnique n t p h.1, h, other_type ns t e))
]

remove-nil :
    (t u : Bytes)
    → ((remove [] t).1 ≡ contains [] t)
      × (contains (remove [] t).0 u ≡ (not (bytes_eq t u) && contains [] u))
      × (path_of (remove [] t).0 u ≡ (if bytes_eq t u then [] else path_of [] u))
unfolding remove contains path_of index
remove-nil t u = ground arith

path_of_absent : (n : List Namespace) (t : Bytes) → contains n t ≡ false → path_of n t ≡ []
unfolding contains path_of
path_of_absent n t h = ground arith

-- The head's type, removed, is not in the rest.
absent_behind :
    (ns : Namespace) (n : List Namespace) (t u : Bytes)
    → contains n ns.type ≡ false
    → bytes_eq ns.type t ≡ true
    → bytes_eq t u ≡ true
    → contains n u ≡ false
absent_behind ns n t u h e same =
    subst (λ x. contains n x ≡ false) ((bytes_eq_iff ns.type t).0 e ∙ (bytes_eq_iff t u).0 same) h

-- `Remove` tells whether the type was in the list, takes it from a list where each type stands
-- once, and leaves each other type as it was.
pub remove-lookup :
    (n : List Namespace) (t u : Bytes)
    → IsUnique n
    → ((remove n t).1 ≡ contains n t)
      × (contains (remove n t).0 u ≡ (not (bytes_eq t u) && contains n u))
      × (path_of (remove n t).0 u ≡ (if bytes_eq t u then [] else path_of n u))
remove-lookup [] t u h = remove-nil t u
remove-lookup (ns ∷ n) t u h = elim (Bool-cases (bytes_eq ns.type t)) [
  | inl e ↦
      rw (remove-cons ns n t, e)
        (rw (contains-cons ns n t, contains-cons ns n u, path_of-cons ns n u, e, same_head ns t u e)
          (ground (arith, absent_behind ns n t u h.0 e, path_of_absent n u)))
  | inr e ↦
      rw (remove-cons ns n t, e)
        (rw
          (
            contains-cons ns n t,
            e,
            contains-cons ns (remove n t).0 u,
            path_of-cons ns (remove n t).0 u,
            contains-cons ns n u,
            path_of-cons ns n u,
          )
          (ground (arith, remove-lookup n t u h.1, other_head ns t u e)))
]

remove_nil-IsUnique : (t : Bytes) → IsUnique (remove [] t).0
unfolding remove index
remove_nil-IsUnique t = tt

-- `Remove` keeps the types unique.
pub remove-IsUnique : (n : List Namespace) (t : Bytes) → IsUnique n → IsUnique (remove n t).0
remove-IsUnique [] t h = remove_nil-IsUnique t
remove-IsUnique (ns ∷ n) t h = elim (Bool-cases (bytes_eq ns.type t)) [
  | inl e ↦ rw (remove-cons ns n t, e) h.1
  | inr e ↦
      rw (remove-cons ns n t, e)
        (ground (arith, remove-lookup n t ns.type h.1, remove-IsUnique n t h.1, h))
]

-- `Add` and `Remove` of any types, one after the other.
pub data Change : Type 0 where
  added : Bytes → Bytes → Change
  removed : Bytes → Change

pub changed : List Namespace → List Change → List Namespace
changed n [] = n
changed n (added t p ∷ cs) = changed (add n t p) cs
changed n (removed t ∷ cs) = changed (remove n t).0 cs

changed-IsUnique_from :
    (n : List Namespace) (cs : List Change) → IsUnique n → IsUnique (changed n cs)
unfolding changed
changed-IsUnique_from n [] h = h
changed-IsUnique_from n (added t p ∷ cs) h =
    changed-IsUnique_from (add n t p) cs (add-IsUnique n t p h)
changed-IsUnique_from n (removed t ∷ cs) h =
    changed-IsUnique_from (remove n t).0 cs (remove-IsUnique n t h)

-- A list of namespaces made from nothing by `Add` and `Remove`, in any order, has each type at most
-- once.
pub changed-IsUnique : (cs : List Change) → IsUnique (changed [] cs)
changed-IsUnique cs = changed-IsUnique_from [] cs tt
