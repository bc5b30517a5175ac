-- ===== src/Tests/Devices.antt =====
-- Device rules, the emulator and the filter at concrete inputs.
use libcontainer.Prelude.{
  true, false, List, [], ◌∷◌, some, ◌≡◌, refl, inl, inr, arith, ok, err, if◌then◌else◌, ◌⊎◌, ◌+◌,
  ◌*◌, ◌^◌,
}
use libcontainer.Prelude.Int.{pos}
use libcontainer.Text.{codes}
use libcontainer.Devices.{
  wildcard, is_empty, Rule, intersection, union, difference, to_set, from_set,
}
use libcontainer.Emulator.{
  DeviceMeta, Emulator, get, put, before, add_rule, find_hole, rm_rule, apply, apply_all,
  transition, minimal_rules, deny_all, as_rule, insert_entry, ordered_entries, rules_for_changes,
  meta_eq, punched_hole,
}
use libcontainer.Emulator.Apply.{IsValid, apply-IsValid}
use libcontainer.Emulator.Loops.{Yields, Shows, entry, HasNoRange}
use libcontainer.Emulator.Holes.{IsHole, IsRange, rm_rule_cases}
use libcontainer.Emulator.Transition.{apply_all-transition, apply_all-minimal_rules, ShowsTarget}
use libcontainer.Emulator.Listing.{parse_line, cgroup_string, emulator_from_list}
use libcontainer.Emulator.Listing.RoundTrip.{parse_line-cgroup_string}
use libcontainer.Emulator.Listing.Rebuild.{listing, emulator_from_list-listing}
use libcontainer.Filter.{Insn, device_filter}
use libcontainer.Filter.Machine.{DeviceContext, interpreter}
use libcontainer.Filter.Decision.{device_filter-granted, Answers}

abbrev null_device : DeviceMeta
null_device = record { node = b'c'; major = pos 1; minor = pos 3 }

abbrev disk : DeviceMeta
disk = record { node = b'b'; major = pos 8; minor = pos 0 }

abbrev all_disks : DeviceMeta
all_disks = record { node = b'b'; major = wildcard; minor = wildcard }

abbrev old_cgroup : Emulator
old_cgroup = record { default_allow = false; rules = entry null_device (codes "rw") ∷ [] }

abbrev new_cgroup : Emulator
new_cgroup = record {
  default_allow = false;
  rules = entry null_device (codes "rm") ∷ entry disk (codes "r") ∷ [];
}

old-IsValid : IsValid old_cgroup
unfolding to_set from_set
old-IsValid = record {
  unique = (refl, tt);
  entries = (record { node = inr refl; canonical = refl }, tt);
}

new-IsValid : IsValid new_cgroup
unfolding to_set from_set
new-IsValid = record {
  unique = (refl, (refl, tt));
  entries = (
    record { node = inr refl; canonical = refl },
    (record { node = inl refl; canonical = refl }, tt),
  );
}

old-HasNoRange : HasNoRange old_cgroup
unfolding get
old-HasNoRange m h = ground arith

transition_run :
    transition old_cgroup new_cgroup
    ≡ as_rule false null_device (codes "w")
      ∷ as_rule true null_device (codes "m")
      ∷ as_rule true disk (codes "r")
      ∷ []
unfolding transition ordered_entries insert_entry before rules_for_changes get difference to_set
    from_set is_empty
transition_run = refl

apply_all-transition_example :
    Yields (apply_all old_cgroup (transition old_cgroup new_cgroup)) (ShowsTarget new_cgroup)
apply_all-transition_example =
    apply_all-transition old_cgroup new_cgroup old-IsValid new-IsValid (inr (inr old-HasNoRange))

apply_all-minimal_rules_example :
    Yields (apply_all deny_all (minimal_rules new_cgroup)) (ShowsTarget new_cgroup)
apply_all-minimal_rules_example = apply_all-minimal_rules new_cgroup new-IsValid

apply-IsValid_example : IsValid (add_rule old_cgroup (entry disk (codes "r")))
unfolding apply
apply-IsValid_example = apply-IsValid old_cgroup _ (as_rule true disk (codes "r")) old-IsValid refl

disk_rules : Emulator
disk_rules = record { default_allow = false; rules = entry all_disks (codes "m") ∷ [] }

hole_run :
    rm_rule disk_rules (entry disk (codes "rm"))
    ≡ err (punched_hole (entry disk (codes "rm")) all_disks)
unfolding disk_rules rm_rule find_hole get intersection to_set from_set is_empty
hole_run = refl

rm_rule_cases_example :
    ((k : DeviceMeta) × (rm_rule disk_rules (entry disk (codes "rm"))
        ≡ err (punched_hole (entry disk (codes "rm")) k))
      × IsRange disk k
      × IsHole disk_rules.rules (entry disk (codes "rm")) k)
    ⊎ (((k : DeviceMeta) → IsRange disk k → ¬ IsHole disk_rules.rules (entry disk (codes "rm")) k)
        × Yields (rm_rule disk_rules (entry disk (codes "rm"))) (
            Shows disk_rules.default_allow (λ m.
              if meta_eq disk m
              then difference (get disk_rules.rules m) (codes "rm")
              else get disk_rules.rules m)))
rm_rule_cases_example = rm_rule_cases disk_rules (entry disk (codes "rm"))

parse_line-cgroup_string_example :
    parse_line (cgroup_string (as_rule true all_disks (codes "rw")))
    ≡ ok (some (entry all_disks (codes "rw")))
unfolding to_set from_set
parse_line-cgroup_string_example =
    parse_line-cgroup_string all_disks (codes "rw") true (inl refl) (inl refl) (inl refl) refl (cc)

printed_run : cgroup_string (as_rule true all_disks (codes "rw")) ≡ codes "b *:* rw"
unfolding cgroup_string
printed_run = refl

emulator_from_list-listing_example :
    Yields
      (emulator_from_list (record { lines = listing old_cgroup.rules; fails = false }))
      (Shows false (get old_cgroup.rules))
emulator_from_list-listing_example =
    emulator_from_list-listing old_cgroup.rules (refl, tt)
      (
        record {
          is_entry = old-IsValid.entries.0;
          major_fits = inr (1, refl, omega arith);
          minor_fits = inr (3, refl, omega arith);
          some_access = cc;
        },
        tt,
      )

abbrev disk_denied : List Rule
disk_denied =
    record {
      type = b'a';
      major = wildcard;
      minor = wildcard;
      permissions = codes "rwm";
      allow = true;
    }
    ∷ as_rule false disk (codes "w")
    ∷ []

abbrev after_denial : Emulator
after_denial = record { default_allow = true; rules = entry disk (codes "w") ∷ [] }

denial_run : apply_all deny_all disk_denied ≡ ok after_denial
unfolding apply_all apply add_rule get put union to_set from_set
denial_run = refl

-- a write to the disk
abbrev write_request : DeviceContext
write_request = record { access_type = 4 * 2 ^ 16 + 1; major = 8; minor = 0 }

device_filter-granted_example :
    (insts : List Insn) × (device_filter disk_denied ≡ ok insts)
    × Answers interpreter write_request false insts
unfolding is_empty
device_filter-granted_example =
    device_filter-granted interpreter write_request disk_denied after_denial denial_run
      (record { small_major = omega arith; small_minor = omega arith }, tt)
