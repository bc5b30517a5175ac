-- ===== src/Namespaces.antt =====
-- configs/namespaces_linux.go: the list of namespaces of a configuration. A type is a string; the
-- methods change the list in place, so `add` and `remove` return the new one. Which namespaces the
-- kernel has (IsNamespaceSupported) is left out.
pub mod Laws
use libcontainer.Prelude.{
  ℕ, zero, suc, Bool, true, false, List, [], ◌∷◌, ◌++◌, Option, none, some, if◌then◌else◌, bytes_eq,
}
use libcontainer.Prelude.Int.{ℤ}
use libcontainer.Text.{Bytes, codes, format_int}

abbrev pub new_net : Bytes
new_net = codes "NEWNET"

abbrev pub new_pid : Bytes
new_pid = codes "NEWPID"

abbrev pub new_ns : Bytes
new_ns = codes "NEWNS"

abbrev pub new_uts : Bytes
new_uts = codes "NEWUTS"

abbrev pub new_ipc : Bytes
new_ipc = codes "NEWIPC"

abbrev pub new_user : Bytes
new_user = codes "NEWUSER"

abbrev pub new_cgroup : Bytes
new_cgroup = codes "NEWCGROUP"

-- `NsName`
unfoldable pub ns_name : Bytes → Bytes
ns_name ns =
    if bytes_eq ns new_net
    then codes "net"
    else if bytes_eq ns new_ns
    then codes "mnt"
    else if bytes_eq ns new_pid
    then codes "pid"
    else if bytes_eq ns new_ipc
    then codes "ipc"
    else if bytes_eq ns new_user
    then codes "user"
    else if bytes_eq ns new_uts
    then codes "uts"
    else if bytes_eq ns new_cgroup
    then codes "cgroup"
    else []

abbrev pub namespace_types : List Bytes
namespace_types = new_user ∷ new_ipc ∷ new_uts ∷ new_net ∷ new_pid ∷ new_ns ∷ new_cgroup ∷ []

pub record Namespace : Type 0 where
  pub type : Bytes
  pub path : Bytes

unfoldable pub get_path : Namespace → ℤ → Bytes
get_path n pid = codes "/proc/" ++ (format_int pid ++ (codes "/ns/" ++ ns_name n.type))

abbrev pub next_index : Option ℕ → Option ℕ
next_index none = none
next_index (some i) = some (suc i)

-- `index`, with `none` for -1
unfoldable pub index : List Namespace → Bytes → Option ℕ
index [] t = none
index (ns ∷ rest) t =
    let later = next_index (index rest t) in if bytes_eq ns.type t then some zero else later

unfoldable pub remove_at : List Namespace → ℕ → List Namespace
remove_at [] i = []
remove_at (ns ∷ rest) zero = rest
remove_at (ns ∷ rest) (suc i) = ns ∷ remove_at rest i

unfoldable pub set_path : List Namespace → ℕ → Bytes → List Namespace
set_path [] i path = []
set_path (ns ∷ rest) zero path = record ns { path = path } ∷ rest
set_path (ns ∷ rest) (suc i) path = ns ∷ set_path rest i path

unfoldable pub path_at : List Namespace → ℕ → Bytes
path_at [] i = []
path_at (ns ∷ rest) zero = ns.path
path_at (ns ∷ rest) (suc i) = path_at rest i

-- `Remove`: the list that it leaves, and its result
unfoldable pub remove : List Namespace → Bytes → List Namespace × Bool
remove n t = elim (index n t) [ none ↦ (n, false) | some i ↦ (remove_at n i, true) ]

unfoldable pub add : List Namespace → Bytes → Bytes → List Namespace
add n t path = elim (index n t) [
  | none ↦ n ++ record { type = t; path = path } ∷ []
  | some i ↦ set_path n i path
]

unfoldable pub contains : List Namespace → Bytes → Bool
contains n t = elim (index n t) [ none ↦ false | some i ↦ true ]

unfoldable pub path_of : List Namespace → Bytes → Bytes
path_of n t = elim (index n t) [ none ↦ [] | some i ↦ path_at n i ]
