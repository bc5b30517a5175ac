-- ===== src/Systemd/Legacy/Paths/Searches.antt =====
-- The searches for mount points in `initPaths` of cgroups/systemd/v1.go, name by name.
use libcontainer.Prelude.{
  Bool, true, false, ◌||◌, List, [], ◌∷◌, Option, none, some, any, bytes_eq, bytes_eq_iff,
  if◌then◌else◌, Result, ok, err, ok_step, ok-injective, err_ne_ok, ◌≡◌, ◌≢◌, refl, sym, ◌∙◌, ap,
  subst, arith, Bool-cases, All, inl, inr,
}
use libcontainer.Text.{Bytes, codes}
use libcontainer.Cgroups.Listing.{Assignments, lookup}
use libcontainer.Systemd.Legacy.Paths.{
  MountAnswer, mounted, not_found, search_failed, Error, hierarchy_missing, Mounts,
  get_subsystem_path, add_path, subsystem_paths, add_hybrid, with_hybrid,
}

-- The path of an answer.
abbrev pub path_in : MountAnswer → Option Bytes
path_in (mounted path) = some path
path_in not_found = none
path_in search_failed = none

-- The path of a subsystem: below its mount point, if it is one of the controllers.
abbrev pub path_for : Mounts → Bytes → Bytes → List Bytes → Bytes → Option Bytes
path_for m slice unit names k =
    if any (λ s. bytes_eq s k) names then path_in (get_subsystem_path m slice unit k) else none

-- The choice in `path_for` where a name is in front.
choice_none :
    (b c : Bool) (x : Option Bytes)
    → (b ≡ true → x ≡ none)
    → (if c then x else none) ≡ (if b || c then x else none)
choice_none true true x h = refl
choice_none true false x h = sym (h refl)
choice_none false c x h = refl

choice_some :
    (b c : Bool) (x y : Option Bytes)
    → (b ≡ true → x ≡ y)
    → (if b then y else if c then x else none) ≡ (if b || c then x else none)
choice_some true c x y h = sym (h refl)
choice_some false c x y h = refl

module _ (m : Mounts) (slice unit : Bytes) where
  same_path :
      (s k : Bytes) (a : MountAnswer)
      → get_subsystem_path m slice unit s ≡ a
      → bytes_eq s k ≡ true
      → path_in (get_subsystem_path m slice unit k) ≡ path_in a
  same_path s k a e same =
      ap (λ x. path_in (get_subsystem_path m slice unit x)) (sym ((bytes_eq_iff s k).0 same))
      ∙ ap path_in e

  add_path_lem :
      (s k : Bytes) (names : List Bytes) (a : MountAnswer) (rest : Result Error Assignments)
      (paths : Assignments)
      → get_subsystem_path m slice unit s ≡ a
      → add_path m slice unit s a rest ≡ ok paths
      → ((q : Assignments) → rest ≡ ok q → lookup k q ≡ path_for m slice unit names k)
      → lookup k paths ≡ path_for m slice unit (s ∷ names) k
  unfolding lookup
  add_path_lem s k names (mounted path) rest paths e h v =
      let (q, made, front) = ok_step rest (λ x. ok ((s, path) ∷ x)) h in
      ap (λ x. lookup k x) (sym (ok-injective ((s, path) ∷ q) paths front))
      ∙ ap (λ x. if bytes_eq s k then some path else x) (v q made)
      ∙ choice_some (bytes_eq s k) (any (λ x. bytes_eq x k) names) _ _ (same_path s k _ e)
  add_path_lem s k names not_found rest paths e h v =
      elim (Bool-cases (bytes_eq s (codes "devices"))) [
        | inl d ↦ absurd (
            err_ne_ok _ paths
              (subst (λ b. (if b then err hierarchy_missing else rest) ≡ ok paths) d h))
        | inr d ↦
            v paths (subst (λ b. (if b then err hierarchy_missing else rest) ≡ ok paths) d h)
            ∙ choice_none (bytes_eq s k) (any (λ x. bytes_eq x k) names) _ (same_path s k _ e)
      ]
  add_path_lem s k names search_failed rest paths e h v = absurd (err_ne_ok _ paths h)

  pub subsystem_paths-lookup :
      (k : Bytes) (names : List Bytes) (paths : Assignments)
      → subsystem_paths m slice unit names ≡ ok paths
      → lookup k paths ≡ path_for m slice unit names k
  unfolding subsystem_paths lookup
  subsystem_paths-lookup k [] paths h = ap (λ x. lookup k x) (sym (ok-injective [] paths h))
  subsystem_paths-lookup k (s ∷ names) paths h =
      add_path_lem s k names (get_subsystem_path m slice unit s)
        (subsystem_paths m slice unit names) paths refl h (λ q. subsystem_paths-lookup k names q)

  -- The hybrid path changes no other one.
  pub with_hybrid-lookup :
      (k : Bytes) (paths whole : Assignments)
      → bytes_eq [] k ≡ false
      → with_hybrid m slice unit paths ≡ ok whole
      → lookup k whole ≡ lookup k paths
  unfolding lookup
  with_hybrid-lookup k paths whole ne h = hybrid m.is_hybrid (get_subsystem_path m slice unit []) h
    where
      hybrid :
          (b : Bool) (a : MountAnswer)
          → (if b then add_hybrid m slice unit a paths else ok paths) ≡ ok whole
          → lookup k whole ≡ lookup k paths
      hybrid true (mounted path) h =
          ap (λ x. lookup k x) (sym (ok-injective (([], path) ∷ paths) whole h)) ∙ rw ne refl
      hybrid true not_found h = absurd (err_ne_ok _ whole h)
      hybrid true search_failed h =
          ap (λ x. lookup k x) (sym (ok-injective (([], []) ∷ paths) whole h)) ∙ rw ne refl
      hybrid false a h = ap (λ x. lookup k x) (sym (ok-injective paths whole h))

  -- The answer for the devices hierarchy.
  abbrev pub HasDevices : Type 0
  HasDevices = (p : Bytes) × (get_subsystem_path m slice unit (codes "devices") ≡ mounted p)

  devices_step :
      (s : Bytes) (a : MountAnswer) (rest : Result Error Assignments) (paths : Assignments)
      → get_subsystem_path m slice unit s ≡ a
      → add_path m slice unit s a rest ≡ ok paths
      → (b : Bool) → (bytes_eq s (codes "devices") || b) ≡ true
      → (b ≡ true → (q : Assignments) → rest ≡ ok q → HasDevices)
      → HasDevices
  devices_step s (mounted path) rest paths e h b d later =
      let (q, made, front) = ok_step rest (λ x. ok ((s, path) ∷ x)) h in
      elim (Bool-cases (bytes_eq s (codes "devices"))) [
        | inl same ↦ (
          path,
          ap (λ x. get_subsystem_path m slice unit x)
                (sym ((bytes_eq_iff s (codes "devices")).0 same))
              ∙ e,
        )
        | inr other ↦ later (subst (λ x. (x || b) ≡ true) other d) q made
      ]
  devices_step s not_found rest paths e h b d later =
      elim (Bool-cases (bytes_eq s (codes "devices"))) [
        | inl same ↦ absurd (
            err_ne_ok _ paths
              (subst (λ x. (if x then err hierarchy_missing else rest) ≡ ok paths) same h))
        | inr other ↦
            later (subst (λ x. (x || b) ≡ true) other d) paths
              (subst (λ x. (if x then err hierarchy_missing else rest) ≡ ok paths) other h)
      ]
  devices_step s search_failed rest paths e h b d later = absurd (err_ne_ok _ paths h)

  pub subsystem_paths-devices :
      (names : List Bytes) (paths : Assignments)
      → subsystem_paths m slice unit names ≡ ok paths
      → any (λ x. bytes_eq x (codes "devices")) names ≡ true
      → HasDevices
  unfolding subsystem_paths
  subsystem_paths-devices [] paths h d = ground (arith, d)
  subsystem_paths-devices (s ∷ names) paths h d =
      devices_step s (get_subsystem_path m slice unit s) (subsystem_paths m slice unit names) paths
        refl h (any (λ x. bytes_eq x (codes "devices")) names) d
        (λ b q made. subsystem_paths-devices names q made b)

  -- No search has failed.
  abbrev pub Searched : Bytes → Type 0
  Searched s = get_subsystem_path m slice unit s ≢ search_failed

  step_of_search :
      (s : Bytes) (a : MountAnswer) (rest : Result Error Assignments) (paths : Assignments)
      → get_subsystem_path m slice unit s ≡ a
      → add_path m slice unit s a rest ≡ ok paths
      → Searched s × (q : Assignments) × (rest ≡ ok q)
  step_of_search s (mounted path) rest paths e h =
      let (q, made, front) = ok_step rest (λ x. ok ((s, path) ∷ x)) h in
      ((λ f. mounted_searched path (sym e ∙ f)), q, made)
    where
      mounted_searched : (p : Bytes) → mounted p ≢ search_failed
      mounted_searched p f = cc
  step_of_search s not_found rest paths e h =
      ((λ f. not_found_searched (sym e ∙ f)), paths, no_error (bytes_eq s (codes "devices")) h)
    where
      not_found_searched : not_found ≢ search_failed
      not_found_searched f = cc

      no_error :
          (b : Bool) → (if b then err hierarchy_missing else rest) ≡ ok paths → rest ≡ ok paths
      no_error true h = absurd (err_ne_ok _ paths h)
      no_error false h = h
  step_of_search s search_failed rest paths e h = absurd (err_ne_ok _ paths h)

  pub subsystem_paths-Searched :
      (names : List Bytes) (paths : Assignments)
      → subsystem_paths m slice unit names ≡ ok paths
      → All Searched names
  unfolding subsystem_paths
  subsystem_paths-Searched [] paths h = tt
  subsystem_paths-Searched (s ∷ names) paths h =
      let (own, q, made) =
        step_of_search s (get_subsystem_path m slice unit s) (subsystem_paths m slice unit names)
          paths refl h in
      (own, subsystem_paths-Searched names q made)

  -- The path under the empty name: none where the hierarchy is not hybrid, and else that of the
  -- hybrid mount point, or empty where the search for it failed.
  pub data HybridPath : Option Bytes → Type 0 where
    not_hybrid : m.is_hybrid ≡ false → HybridPath none
    hybrid_found :
        (p : Bytes)
        → m.is_hybrid ≡ true
        → get_subsystem_path m slice unit [] ≡ mounted p
        → HybridPath (some p)
    hybrid_unread :
        m.is_hybrid ≡ true
        → get_subsystem_path m slice unit [] ≡ search_failed
        → HybridPath (some [])

  pub with_hybrid-HybridPath :
      (paths whole : Assignments) (b : Bool) (a : MountAnswer)
      → m.is_hybrid ≡ b
      → get_subsystem_path m slice unit [] ≡ a
      → lookup [] paths ≡ none
      → (if b then add_hybrid m slice unit a paths else ok paths) ≡ ok whole
      → HybridPath (lookup [] whole)
  unfolding lookup
  with_hybrid-HybridPath paths whole true (mounted p) hb e none_there h =
      subst (λ x. HybridPath (lookup [] x)) (ok-injective (([], p) ∷ paths) whole h)
        (hybrid_found p hb e)
  with_hybrid-HybridPath paths whole true not_found hb e none_there h = absurd (err_ne_ok _ whole h)
  with_hybrid-HybridPath paths whole true search_failed hb e none_there h =
      subst (λ x. HybridPath (lookup [] x)) (ok-injective (([], []) ∷ paths) whole h)
        (hybrid_unread hb e)
  with_hybrid-HybridPath paths whole false a hb e none_there h =
      subst HybridPath (sym none_there ∙ ap (λ x. lookup [] x) (ok-injective paths whole h))
        (not_hybrid hb)
