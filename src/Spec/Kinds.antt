-- ===== src/Spec/Kinds.antt =====
-- The namespaces of a specification: the loop of `CreateLibcontainerConfig` of
-- specconv/spec_linux.go over them.
use libcontainer.Prelude.{
  false, List, [], ◌∷◌, ◌++◌, append_assoc, append-nil, Option, none, some, bytes_eq, if◌then◌else◌,
  Result, ok, err, ◌>>=◌, ok_step, ok-injective, err_ne_ok, subst, ◌≡◌, refl, sym, ap, ◌∙◌, arith,
  Bool-cases, inl, inr,
}
use libcontainer.Text.{Bytes, codes}
use libcontainer.Namespaces.{
  Namespace, new_pid, new_net, new_ns, new_user, new_ipc, new_uts, new_cgroup, contains, add,
}
use libcontainer.Namespaces.Laws.{IsUnique, add-IsUnique}
use libcontainer.Spec.{Error, unknown_namespace, duplicate_namespace, SpecNamespace}

-- `namespaceMapping`
unfoldable pub namespace_mapping : Bytes → Option Bytes
namespace_mapping t =
    if bytes_eq t (codes "pid")
    then some new_pid
    else if bytes_eq t (codes "network")
    then some new_net
    else if bytes_eq t (codes "mount")
    then some new_ns
    else if bytes_eq t (codes "user")
    then some new_user
    else if bytes_eq t (codes "ipc")
    then some new_ipc
    else if bytes_eq t (codes "uts")
    then some new_uts
    else if bytes_eq t (codes "cgroup")
    then some new_cgroup
    else none

-- one round, with the type that the mapping has
unfoldable pub add_mapped :
    List Namespace → SpecNamespace → Option Bytes → Result Error (List Namespace)
add_mapped n ns none = err unknown_namespace
add_mapped n ns (some t) = if contains n t then err duplicate_namespace else ok (add n t ns.path)

unfoldable pub add_namespaces : List Namespace → List SpecNamespace → Result Error (List Namespace)
unfolding add_mapped namespace_mapping
add_namespaces n [] = ok n
add_namespaces n (ns ∷ rest) =
    add_mapped n ns (namespace_mapping ns.type) >>= λ next. add_namespaces next rest

-- Each namespace of the specification stands for one of the configuration, in the same order.
pub data Stand : List SpecNamespace → List Namespace → Type 0 where
  stand_nil : Stand [] []
  stand_cons :
      {s : SpecNamespace} {t : Bytes} {ss : List SpecNamespace} {ns : List Namespace}
      → namespace_mapping s.type ≡ some t
      → Stand ss ns
      → Stand (s ∷ ss) (record { type = t; path = s.path } ∷ ns)

add_absent :
    (n : List Namespace) (t p : Bytes)
    → contains n t ≡ false
    → add n t p ≡ n ++ record { type = t; path = p } ∷ []
unfolding add contains
add_absent n t p h = ground arith

-- What one round that succeeds has done.
add_mapped_ok :
    (n next : List Namespace) (ns : SpecNamespace) (o : Option Bytes)
    → add_mapped n ns o ≡ ok next
    → (t : Bytes) × (o ≡ some t)
      × (next ≡ n ++ record { type = t; path = ns.path } ∷ [])
      × (next ≡ add n t ns.path)
unfolding add_mapped
add_mapped_ok n next ns none h = absurd (err_ne_ok _ _ h)
add_mapped_ok n next ns (some t) h = elim (Bool-cases (contains n t)) [
  | inl e ↦ absurd (err_ne_ok _ _ (rw e at h))
  | inr e ↦
      let same = sym (ok-injective _ next (rw e at h)) in
      (t, refl, same ∙ add_absent n t ns.path e, same)
]

add_namespaces_from :
    (ss : List SpecNamespace) (n r : List Namespace)
    → IsUnique n
    → add_namespaces n ss ≡ ok r
    → (new : List Namespace) × (r ≡ n ++ new) × Stand ss new × IsUnique r
unfolding add_namespaces
add_namespaces_from [] n r u h =
    let same = ok-injective n r h in
    ([], sym same ∙ sym (append-nil n), stand_nil, subst IsUnique same u)
add_namespaces_from (s ∷ ss) n r u h =
    let (next, first, rest) = ok_step (add_mapped n s (namespace_mapping s.type)) _ h in
    let (t, found, grown, is_add) = add_mapped_ok n next s (namespace_mapping s.type) first in
    let (new, whole, stand, unique) =
      add_namespaces_from ss next r (subst IsUnique (sym is_add) (add-IsUnique n t s.path u))
        rest in
    (
      record { type = t; path = s.path } ∷ new,
      whole ∙ ap (λ x. x ++ new) grown ∙ append_assoc n _ new,
      stand_cons found stand,
      unique,
    )

-- Where the loop succeeds, the configuration has the namespaces of the specification in the same
-- order, each with the type that the table has for it and with its path, and no type twice.
pub add_namespaces-IsUnique :
    (ss : List SpecNamespace) (r : List Namespace)
    → add_namespaces [] ss ≡ ok r
    → Stand ss r × IsUnique r
add_namespaces-IsUnique ss r h =
    let (new, whole, stand, unique) = add_namespaces_from ss [] r tt h in
    (subst (Stand ss) (sym whole) stand, unique)
