-- ===== src/Cgroups/Removal.antt =====
-- What `RemovePath` and `RemovePaths` of cgroups/utils.go remove, and what they leave.
use libcontainer.Prelude.{
  ℕ, zero, Bool, true, false, List, [], ◌∷◌, ◌++◌, Option, none, some, if◌then◌else◌, ◌≡◌, ◌<◌, suc,
  refl, sym, ap, ◌∙◌, arith, Bool-cases, inl, inr, ok,
}
use libcontainer.Cgroups.{
  Group, group, Children, no_children, child, Kernel, Removed, RemovedChildren, gone, rmdir_last,
  next_child, remove_path, remove_children, Paths, remove_round, remove_rounds, remove_paths,
}

-- the busy groups of a tree, by their numbers
unfoldable mutual
  pub busy_in : (ℕ → Bool) → Group → List ℕ
  busy_in busy (group i gs) = (if busy i then i ∷ [] else []) ++ busy_under busy gs

  pub busy_under : (ℕ → Bool) → Children → List ℕ
  busy_under busy no_children = []
  busy_under busy (child g gs) = busy_in busy g ++ busy_under busy gs

abbrev pub busy_left : (ℕ → Bool) → Option Group → List ℕ
busy_left busy none = []
busy_left busy (some g) = busy_in busy g

abbrev pub is_none : {A : Type 0} → Option A → Bool
is_none none = true
is_none (some a) = false

abbrev pub no_items : List ℕ → Bool
no_items [] = true
no_items (i ∷ is) = false

-- A removal keeps each busy group, and leaves nothing, with no error, exactly if there was none.
pub record IsRemoval (busy : ℕ → Bool) (g : Group) (r : Removed) : Type 0 where
  pub keeps : busy_left busy r.left ≡ busy_in busy g
  pub gone_if : is_none r.left ≡ no_items (busy_in busy g)
  pub error_if : r.good ≡ no_items (busy_in busy g)

abbrev is_leaf : Children → Bool
is_leaf no_children = true
is_leaf (child g gs) = false

record IsRemovalUnder (busy : ℕ → Bool) (gs : Children) (r : RemovedChildren) : Type 0 where
  keeps : busy_under busy r.left ≡ busy_under busy gs
  gone_if : is_leaf r.left ≡ no_items (busy_under busy gs)
  error_if : r.good ≡ no_items (busy_under busy gs)

no_items_nil : (xs : List ℕ) → no_items xs ≡ true → xs ≡ []
no_items_nil [] h = refl
no_items_nil (x ∷ xs) h = ground (arith, h)

no_items-append :
    (xs ys : List ℕ) → no_items (xs ++ ys) ≡ (if no_items xs then no_items ys else false)
no_items-append [] ys = refl
no_items-append (x ∷ xs) ys = refl

nothing_under :
    {busy : ℕ → Bool} → IsRemovalUnder busy no_children (record { left = no_children; good = true })
unfolding busy_in
nothing_under = record { keeps = refl; gone_if = refl; error_if = refl }

module _ (k : Kernel) where
  -- The last `rmdir`, where no group is left under this one, and where one is.
  last_case :
      (i : ℕ) (gs left : Children) (good : Bool)
      → IsRemovalUnder k.busy gs (record { left = left; good = good })
      → IsRemoval k.busy (group i gs) (rmdir_last k i (record { left = left; good = good }))
  unfolding busy_in
  last_case i gs no_children good u =
      let nothing = no_items_nil (busy_under k.busy gs) (sym u.gone_if) in
      let is_good : good ≡ true = u.error_if ∙ sym u.gone_if in
      record {
        keeps = ground (arith, nothing, is_good, k.rmdir_leaf i);
        gone_if = ground (arith, nothing, is_good, k.rmdir_leaf i);
        error_if = ground (arith, nothing, is_good, k.rmdir_leaf i);
      }
  last_case i gs (child g cs) good u =
      let own : List ℕ = (if k.busy i then i ∷ [] else []) in
      let is_bad : good ≡ false = u.error_if ∙ sym u.gone_if in
      rw is_bad (record {
        keeps = ap (λ x. own ++ x) u.keeps;
        gone_if = rw (no_items-append own (busy_under k.busy gs)) (ground (arith, u.gone_if));
        error_if = rw (no_items-append own (busy_under k.busy gs)) (ground (arith, u.gone_if));
      })

  path_case :
      (i : ℕ) (gs : Children) (r : RemovedChildren)
      → IsRemovalUnder k.busy gs r
      → IsRemoval k.busy (group i gs) (if k.rmdir (group i gs) then gone else rmdir_last k i r)
  unfolding busy_in
  path_case i no_children r u = elim (Bool-cases (k.rmdir (group i no_children))) [
    | inl e ↦ rw e (record {
      keeps = ground (arith, e, k.rmdir_leaf i);
      gone_if = ground (arith, e, k.rmdir_leaf i);
      error_if = ground (arith, e, k.rmdir_leaf i);
    })
    | inr e ↦ rw e (last_case i no_children r.left r.good u)
  ]
  path_case i (child g gs) r u =
      rw (k.rmdir_parent i g gs) (last_case i (child g gs) r.left r.good u)

  children_case :
      (g : Group) (gs : Children) (left : Option Group) (good : Bool) (rest : RemovedChildren)
      → IsRemoval k.busy g (record { left = left; good = good })
      → IsRemovalUnder k.busy gs rest
      → IsRemovalUnder k.busy
          (child g gs)
          (next_child (record { left = left; good = good }) gs rest)
  unfolding busy_in
  children_case g gs none good rest u v =
      let nothing = no_items_nil (busy_in k.busy g) (sym u.gone_if) in
      let is_good : good ≡ true = u.error_if ∙ sym u.gone_if in
      rw is_good (record {
        keeps = v.keeps ∙ ap (λ x. x ++ busy_under k.busy gs) (sym nothing);
        gone_if = v.gone_if ∙ ap (λ x. no_items (x ++ busy_under k.busy gs)) (sym nothing);
        error_if = v.error_if ∙ ap (λ x. no_items (x ++ busy_under k.busy gs)) (sym nothing);
      })
  children_case g gs (some h) good rest u v =
      let is_bad : good ≡ false = u.error_if ∙ sym u.gone_if in
      rw is_bad (record {
        keeps = ap (λ x. x ++ busy_under k.busy gs) u.keeps;
        gone_if =
            rw (no_items-append (busy_in k.busy g) (busy_under k.busy gs), sym u.gone_if) refl;
        error_if =
            rw (no_items-append (busy_in k.busy g) (busy_under k.busy gs), sym u.gone_if) refl;
      })

  mutual
    unfolding remove_path

    remove_path_lem : (g : Group) → IsRemoval k.busy g (remove_path k g)
    remove_path_lem (group i gs) = path_case i gs (remove_children k gs) (remove_children_lem gs)

    remove_children_lem : (gs : Children) → IsRemovalUnder k.busy gs (remove_children k gs)
    remove_children_lem no_children = nothing_under
    remove_children_lem (child g gs) =
        children_case g gs (remove_path k g).left (remove_path k g).good (remove_children k gs)
          (remove_path_lem g) (remove_children_lem gs)

  -- RemovePath removes a group with all groups under it, and returns no error, if none of them has a
  -- process; else it returns an error and what it leaves has each group with a process that there
  -- was, in its order.
  pub remove_path-IsRemoval : (g : Group) → IsRemoval k.busy g (remove_path k g)
  remove_path-IsRemoval g = remove_path_lem g

-- No group has a process.
abbrev pub IsIdle : Kernel → Type 0
IsIdle k = (i : ℕ) → k.busy i ≡ false

module _ (k : Kernel) (idle : IsIdle k) where
  mutual
    unfolding busy_in

    idle-busy_in : (g : Group) → busy_in k.busy g ≡ []
    idle-busy_in (group i gs) = rw (idle i) (idle-busy_under gs)

    idle-busy_under : (gs : Children) → busy_under k.busy gs ≡ []
    idle-busy_under no_children = refl
    idle-busy_under (child g gs) = rw (idle-busy_in g) (idle-busy_under gs)

  no_group_left : (r : Option Group) → is_none r ≡ true → r ≡ none
  no_group_left none h = refl
  no_group_left (some g) h = ground (arith, h)

  -- An idle kernel removes each path in one round.
  idle_round : (ps : Paths) → remove_round k ps ≡ []
  unfolding remove_round
  idle_round [] = refl
  idle_round ((s, g) ∷ ps) =
      let gone = (remove_path-IsRemoval k g).gone_if ∙ ap no_items (idle-busy_in g) in
      rw (no_group_left (remove_path k g).left gone) (idle_round ps)

idle_rounds :
    (before : List Kernel) (k : Kernel) (after : List Kernel) (ps : Paths)
    → IsIdle k
    → remove_rounds (before ++ k ∷ after) ps ≡ ok tt
unfolding remove_rounds
idle_rounds [] k after ps idle = rw (remove_rounds, idle_round k idle ps) refl
idle_rounds (b ∷ before) k after ps idle =
    elim (remove_round b ps)
      as (λ qs.
        elim qs [ [] ↦ ok tt | p ∷ rest ↦ remove_rounds (before ++ k ∷ after) (p ∷ rest) ]
        ≡ ok tt) [ [] ↦ refl | q ∷ qs ↦ idle_rounds before k after (q ∷ qs) idle ]

-- RemovePaths removes every path, and returns no error, if in one of its five rounds no group has a
-- process, whatever the kernel's answers in the other rounds were.
pub remove_paths-idle :
    (at : ℕ → Kernel) (ps : Paths) (n : ℕ) → n < 5 → IsIdle (at n) → remove_paths at ps ≡ ok tt
unfolding remove_paths
remove_paths-idle at ps zero h idle = idle_rounds [] (at 0) _ ps idle
remove_paths-idle at ps (suc zero) h idle = idle_rounds (at 0 ∷ []) (at 1) _ ps idle
remove_paths-idle at ps (suc (suc zero)) h idle = idle_rounds (at 0 ∷ at 1 ∷ []) (at 2) _ ps idle
remove_paths-idle at ps (suc (suc (suc zero))) h idle =
    idle_rounds (at 0 ∷ at 1 ∷ at 2 ∷ []) (at 3) _ ps idle
remove_paths-idle at ps (suc (suc (suc (suc zero)))) h idle =
    idle_rounds (at 0 ∷ at 1 ∷ at 2 ∷ at 3 ∷ []) (at 4) _ ps idle
remove_paths-idle at ps (suc (suc (suc (suc (suc n))))) h idle = absurd (omega (arith, h))
