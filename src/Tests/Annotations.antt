-- ===== src/Tests/Annotations.antt =====
-- The systemd properties and the namespaces of a specification at concrete inputs.
use libcontainer.Prelude.{ℕ, ◌≡◌, ◌≢◌, ◌↔◌, refl, List, [], ◌∷◌, ◌++◌, Option, none, some, ok, err}
use libcontainer.Text.{Bytes, codes, has_prefix}
use libcontainer.Namespaces.{index, contains}
use libcontainer.Spec.{Annotation, index_panic}
use libcontainer.Spec.{SpecNamespace, duplicate_namespace}
use libcontainer.Namespaces.{Namespace, new_ns, new_net, add}
use libcontainer.Namespaces.Laws.{IsUnique}
use libcontainer.Spec.Kinds.{add_namespaces, Stand, add_namespaces-IsUnique}
use libcontainer.Spec.Properties.{
  Variant, uint32, uint64, Property, init_systemd_props, property_of, key_prefix, sec_suffix,
  check_property_name, renamed, convert_sec_to_usec,
}
use libcontainer.Spec.Properties.Panics.{property_of_panics}

abbrev parse_one : Bytes → Option Variant
parse_one value = some (uint32 7)

abbrev no_floats : ℕ → ℕ
no_floats bits = 0

abbrev annotations : List Annotation
annotations =
    record { key = codes "org.systemd.property.TimeoutStopSec"; value = codes "uint32 7" }
    ∷ record { key = codes "other"; value = [] }
    ∷ []

abbrev properties : List Property
properties = record { name = codes "TimeoutStopUSec"; value = uint64 7000000 } ∷ []

init_systemd_props_run : init_systemd_props parse_one no_floats annotations ≡ ok properties
unfolding init_systemd_props property_of check_property_name has_prefix renamed convert_sec_to_usec
init_systemd_props_run = refl

abbrev bare : Annotation
bare = record { key = codes "org.systemd.property.Sec"; value = codes "uint32 7" }

property_of_panics_example :
    (property_of parse_one no_floats bare ≡ err index_panic)
    ↔ ((bare.key ≡ key_prefix ++ sec_suffix) × (parse_one bare.value ≢ none))
property_of_panics_example = property_of_panics parse_one no_floats bare

abbrev spec_namespaces : List SpecNamespace
spec_namespaces =
    record { type = codes "mount"; path = [] }
    ∷ record { type = codes "network"; path = codes "/run/netns/a" }
    ∷ []

abbrev config_namespaces : List Namespace
config_namespaces =
    record { type = new_ns; path = [] }
    ∷ record { type = new_net; path = codes "/run/netns/a" }
    ∷ []

add_namespaces_run : add_namespaces [] spec_namespaces ≡ ok config_namespaces
unfolding add_namespaces add contains index
add_namespaces_run = refl

add_namespaces_twice :
    add_namespaces config_namespaces (record { type = codes "mount"; path = [] } ∷ [])
    ≡ err duplicate_namespace
unfolding add_namespaces add contains index
add_namespaces_twice = refl

add_namespaces-IsUnique_example :
    Stand spec_namespaces config_namespaces × IsUnique config_namespaces
add_namespaces-IsUnique_example =
    add_namespaces-IsUnique spec_namespaces config_namespaces add_namespaces_run
