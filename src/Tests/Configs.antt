-- ===== src/Tests/Configs.antt =====
-- Namespaces, mappings of ids and the freezer at concrete inputs.
use libcontainer.Prelude.{
  ℕ, zero, suc, ◌<◌, ◌==◌, List, [], ◌∷◌, some, ◌≡◌, refl, arith, ok, if◌then◌else◌,
}
use libcontainer.Text.{codes, trim_space}
use libcontainer.Namespaces.{Namespace, index, contains, new_net, new_pid, new_user}
use libcontainer.Namespaces.Laws.{changed-IsUnique, IsUnique, added, removed, changed}
use libcontainer.Mappings.{IdMapping, Config, host_uid, host_gid, no_user_map, no_group_map}
use libcontainer.Mappings.Translation.{host_ids_translate, translate, answer}
use libcontainer.Freezer.{Kernel, set, frozen, freezing}
use libcontainer.Freezer.Thawing.{set-last_written, set-succeeds, last_written, state_for, Reads}

abbrev two_namespaces : List Namespace
two_namespaces =
    record { type = new_net; path = codes "/run/netns/a" }
    ∷ record { type = new_pid; path = [] }
    ∷ []

two_namespaces-IsUnique : IsUnique two_namespaces
unfolding contains index
two_namespaces-IsUnique = (refl, (refl, tt))

changed-IsUnique_example :
    IsUnique (changed [] (added new_net [] ∷ added new_pid [] ∷ removed new_net ∷ []))
changed-IsUnique_example =
    changed-IsUnique (added new_net [] ∷ added new_pid [] ∷ removed new_net ∷ [])

abbrev mappings : List IdMapping
mappings =
    record { container_id = 0; host_id = 100000; size = 1000 }
    ∷ record { container_id = 1000; host_id = 1000; size = 1 }
    ∷ []

abbrev mapped_config : Config
mapped_config = record {
  namespaces = record { type = new_user; path = [] } ∷ [];
  uid_mappings = some mappings;
  gid_mappings = some mappings;
}

host_ids_translate_example :
    (host_uid mapped_config 1000 ≡ (
      if contains mapped_config.namespaces new_user
      then answer no_user_map (translate mappings 1000)
      else ok 1000))
    × (host_gid mapped_config 1000 ≡ (
        if contains mapped_config.namespaces new_user
        then answer no_group_map (translate mappings 1000)
        else ok 1000))
host_ids_translate_example =
    host_ids_translate mapped_config mappings mappings 1000 refl refl
      ((omega arith, omega arith, omega arith), ((omega arith, omega arith, omega arith), tt))
      ((omega arith, omega arith, omega arith), ((omega arith, omega arith, omega arith), tt))
      (omega arith)

abbrev prompt_kernel : Kernel
prompt_kernel = record {
  write_frozen = λ i. ok tt;
  write_thawed = ok tt;
  read_state = λ i. ok frozen;
}

set-last_written_example :
    last_written (codes "THAWED") (set prompt_kernel frozen).1
    ≡ state_for (set prompt_kernel frozen).0
set-last_written_example = set-last_written prompt_kernel (codes "THAWED")

-- FREEZING in the first round and then FROZEN, with the newlines of the kernel
abbrev slow_kernel : Kernel
slow_kernel = record {
  write_frozen = λ i. ok tt;
  write_thawed = ok tt;
  read_state = λ i. if i == 0 then ok (codes "FREEZING\n") else ok (codes "FROZEN\n");
}

slow_rounds : Reads freezing (slow_kernel.read_state 0) × Reads frozen (slow_kernel.read_state 1)
unfolding trim_space
slow_rounds = ((codes "FREEZING\n", refl, refl), (codes "FROZEN\n", refl, refl))

freezing_before : (j : ℕ) → j < 1 → Reads freezing (slow_kernel.read_state j)
freezing_before zero lt = slow_rounds.0
freezing_before (suc j) lt = absurd (omega arith)

set-succeeds_example : (set slow_kernel frozen).0 ≡ ok tt
set-succeeds_example =
    set-succeeds slow_kernel 1 (omega arith) (λ j le. refl) freezing_before slow_rounds.1
