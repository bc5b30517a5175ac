-- ===== src/Cgroups.antt =====
-- cgroups/utils.go: the removal of control groups and the write of a process id. A group is a tree of
-- groups; what the kernel does is an interface, and no other program changes the tree within a call.
pub mod Removal
pub mod Listing
use libcontainer.Prelude.{
  ℕ, zero, suc, Bool, true, false, not, List, [], ◌∷◌, Option, none, some, if◌then◌else◌, ◌≡◌,
  bytes_eq, Result, ok, err,
}
use libcontainer.Prelude.Int.{ℤ, negsuc, eq_ℤ}
use libcontainer.Text.{Bytes}

-- a group with a number of its own, and the groups under it
mutual
  pub data Group : Type 0 where
    group : ℕ → Children → Group

  pub data Children : Type 0 where
    no_children : Children
    child : Group → Children → Children

-- `rmdir`, whether it succeeds. The kernel removes a group exactly if it has no process (it is not
-- busy) and no groups under it.
pub record Kernel : Type 0 where
  pub busy : ℕ → Bool
  pub rmdir : Group → Bool
  pub rmdir_leaf : (i : ℕ) → rmdir (group i no_children) ≡ not (busy i)
  pub rmdir_parent : (i : ℕ) (g : Group) (gs : Children) → rmdir (group i (child g gs)) ≡ false

-- What a removal leaves, and whether its error is nil.
pub record Removed : Type 0 where
  pub left : Option Group
  pub good : Bool

-- the groups under one that are left, and whether there was no error
pub record RemovedChildren : Type 0 where
  pub left : Children
  pub good : Bool

abbrev pub gone : Removed
gone = record { left = none; good = true }

abbrev pub kept : Group → Removed
kept g = record { left = some g; good = false }

abbrev pub with_child : Option Group → Children → Children
with_child none gs = gs
with_child (some g) gs = child g gs

-- behind one child: the loop goes on, or it is left with the children that it did not reach
abbrev pub next_child : Removed → Children → RemovedChildren → RemovedChildren
next_child r unreached rest =
    if r.good
    then record { left = with_child r.left rest.left; good = rest.good }
    else record { left = with_child r.left unreached; good = false }

module _ (k : Kernel) where
  -- the last `rmdir` of `RemovePath`
  abbrev pub rmdir_last : ℕ → RemovedChildren → Removed
  rmdir_last i r =
      if r.good
      then (if k.rmdir (group i r.left) then gone else kept (group i r.left))
      else kept (group i r.left)

  unfoldable mutual
    -- `RemovePath`
    pub remove_path : Group → Removed
    remove_path (group i gs) =
        let slow = rmdir_last i (remove_children gs) in if k.rmdir (group i gs) then gone else slow

    -- its loop over the directories
    pub remove_children : Children → RemovedChildren
    remove_children no_children = record { left = no_children; good = true }
    remove_children (child g gs) = next_child (remove_path g) gs (remove_children gs)

-- `paths`: the name of a subsystem and its group
abbrev pub Paths : Type 0
Paths = List (Bytes × Group)

abbrev pub keep_path : Bytes → Option Group → Paths → Paths
keep_path s none rest = rest
keep_path s (some g) rest = (s, g) ∷ rest

-- one round of `RemovePaths` over the map, in any order; a path that is gone is deleted
unfoldable pub remove_round : Kernel → Paths → Paths
remove_round k [] = []
remove_round k ((s, g) ∷ rest) = keep_path s (remove_path k g).left (remove_round k rest)

-- the loop of `RemovePaths`, with the kernel as it is in each round; the paths that are left
unfoldable pub remove_rounds : List Kernel → Paths → Result Paths (Unit {0})
remove_rounds [] paths = err paths
remove_rounds (k ∷ ks) paths = elim (remove_round k paths) [
  | [] ↦ ok tt
  | p ∷ ps ↦ remove_rounds ks (p ∷ ps)
]

-- `RemovePaths`: five rounds
unfoldable pub remove_paths : (ℕ → Kernel) → Paths → Result Paths (Unit {0})
remove_paths at paths = remove_rounds (at 0 ∷ at 1 ∷ at 2 ∷ at 3 ∷ at 4 ∷ []) paths

pub data WriteAnswer : Type 0 where
  written invalid_argument failed : WriteAnswer

pub data ProcError : Type 0 where
  no_directory open_failed write_failed still_invalid : ProcError

-- the loop of `WriteCgroupProc`, from the i-th write
unfoldable pub write_tries : (ℕ → WriteAnswer) → ℕ → ℕ → Result ProcError (Unit {0})
write_tries answer i zero = err still_invalid
write_tries answer i (suc tries) = elim (answer i) [
  | written ↦ ok tt
  | invalid_argument ↦ write_tries answer (suc i) tries
  | failed ↦ err write_failed
]

-- `WriteCgroupProc`: `opens` is whether the file can be opened, `answer` is that to the i-th write
unfoldable pub write_cgroup_proc :
    Bytes → ℤ → Bool → (ℕ → WriteAnswer) → Result ProcError (Unit {0})
write_cgroup_proc dir pid opens answer =
    if bytes_eq dir []
    then err no_directory
    else if eq_ℤ pid (negsuc 0)
    then ok tt
    else if not opens
    then err open_failed
    else write_tries answer 0 5
