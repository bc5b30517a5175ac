-- ===== src/Systemd/Legacy.antt =====
-- cgroups/systemd/v1.go: `legacyManager`, the update of a group with its freezing. The files of the
-- group and D-Bus are an argument, on a state of its own; the calls that matter are kept as events.
pub mod Freezing
pub mod Paths
use libcontainer.Prelude.{
  ℕ, Bool, true, false, ◌&&◌, not, List, [], ◌∷◌, ◌++◌, Option, none, some, bytes_eq, if◌then◌else◌,
  Result, ok, err,
}
use libcontainer.Prelude.Int.{ℤ}
use libcontainer.Text.{Bytes, codes}
use libcontainer.Freezer.{frozen, thawed, undefined}
use libcontainer.Cgroups.Listing.{Assignments, lookup}
use libcontainer.Systemd.{Property}
use libcontainer.Systemd.Cpuset.{BigInt}
use libcontainer.Systemd.Devices.{Host}
use libcontainer.Systemd.Limits as Limits
use libcontainer.Systemd.Limits.{Resources, gen_v1_resources_properties}

-- the names of `legacySubsystems`
abbrev pub legacy_subsystems : List Bytes
legacy_subsystems =
    codes "cpuset"
    ∷ codes "devices"
    ∷ codes "memory"
    ∷ codes "cpu"
    ∷ codes "cpuacct"
    ∷ codes "pids"
    ∷ codes "blkio"
    ∷ codes "hugetlb"
    ∷ codes "perf_event"
    ∷ codes "freezer"
    ∷ codes "net_prio"
    ∷ codes "net_cls"
    ∷ codes "name=systemd"
    ∷ codes "rdma"
    ∷ codes "misc"
    ∷ []

-- `configs.Resources` of an update: whether it has a unified map, and its two fields on freezing
pub record Update : Type 0 where
  pub resources : Resources
  pub has_unified : Bool
  pub skip_freeze_on_set : Bool
  pub freezer : Bytes

pub data Error : Type 0 where
  no_unified state_unread freeze_refused update_refused controller_refused : Error
  bad_properties : Limits.Error → Error

-- whether a doFreeze succeeded, met no freezer, or failed
pub data FreezeAnswer : Type 0 where
  moved no_freezer freeze_failed : FreezeAnswer

pub data Event : Type 0 where
  freezer_to : Bytes → FreezeAnswer → Event
  unit_updated : Event
  controller_set : Bytes → Event

-- What the host does: two properties of the unit, the freezer's GetState and Set by a path,
-- setUnitProperties, and a controller's Set by its name and path.
pub record World (S : Type 0) : Type 0 where
  pub device_policy_auto : S → Bool
  pub device_allow_empty : S → Bool
  pub get_state : Bytes → S → Option Bytes
  pub set_state : Bytes → Bytes → S → Bool × S
  pub set_unit_properties : List Property → S → Bool × S
  pub set_controller : Bytes → Bytes → S → Bool × S

pub record Run (S : Type 0) : Type 0 where
  pub result : Result Error (Unit {0})
  pub state : S
  pub events : List Event

abbrev pub ended : {S : Type 0} → Result Error (Unit {0}) → S → Run S
ended r s = record { result = r; state = s; events = [] }

abbrev pub logged : {S : Type 0} → Event → Run S → Run S
logged e run = record run { events = e ∷ run.events }

-- the end of `freezeBeforeSet`: needsFreeze and needsThaw, from the state and the wanted state
abbrev pub needs : Option Bytes → Bytes → Option (Bool × Bool)
needs none wanted = none
needs (some state) wanted =
    if bytes_eq state frozen then some (false, false) else some (true, not (bytes_eq wanted frozen))

module _ {S : Type 0} (w : World S) (paths : Assignments) where
  abbrev pub freeze_answer : Bool × S → FreezeAnswer × S
  freeze_answer (good, s) = (if good then moved else freeze_failed, s)

  -- `doFreeze`
  abbrev pub do_freeze : Bytes → S → FreezeAnswer × S
  do_freeze state s = elim (lookup (codes "freezer") paths) [
    | none ↦ (no_freezer, s)
    | some path ↦ freeze_answer (w.set_state path state s)
  ]

  -- `GetFreezerState`
  abbrev pub get_freezer_state : S → Option Bytes
  get_freezer_state s = elim (lookup (codes "freezer") paths) [
    | none ↦ some undefined
    | some path ↦ w.get_state path s
  ]

  -- no freezing is asked for, or the unit has the default policy
  abbrev pub is_exempt : Update → S → Bool
  is_exempt r s =
      if r.resources.skip_devices
      then (if r.skip_freeze_on_set then true else w.device_policy_auto s && w.device_allow_empty s)
      else false

  -- `freezeBeforeSet`
  unfoldable pub freeze_before_set : Update → S → Option (Bool × Bool)
  freeze_before_set r s =
      if is_exempt r s then some (false, false) else needs (get_freezer_state s) r.freezer

  abbrev pub controller_then : Bytes → Bool × S → (S → Run S) → Run S
  controller_then name (good, s) rest =
      logged (controller_set name) (if good then rest s else ended (err controller_refused) s)

  abbrev pub if_there : Option Bytes → (Bytes → Run S) → Run S → Run S
  if_there none there skipped = skipped
  if_there (some path) there skipped = there path

  -- the loop over the controllers
  unfoldable pub set_controllers : List Bytes → S → Run S
  set_controllers [] s = ended (ok tt) s
  set_controllers (name ∷ names) s =
      let rest : S → Run S = λ t. set_controllers names t in
      if_there (lookup name paths)
        (λ path. controller_then name (w.set_controller name path s) rest) (rest s)

  abbrev pub after_update : Bool → S → Run S
  after_update good s =
      if good then set_controllers legacy_subsystems s else ended (err update_refused) s

  -- behind setUnitProperties
  abbrev pub thaw_then : Bool → Bool → S → Run S
  thaw_then needs_thaw good s =
      let thaw = do_freeze thawed s in
      if needs_thaw
      then logged (freezer_to thawed thaw.0) (after_update good thaw.1)
      else after_update good s

  abbrev pub update_unit : Bool → List Property → S → Run S
  update_unit needs_thaw props s =
      let sent = w.set_unit_properties props s in
      logged unit_updated (thaw_then needs_thaw sent.0 sent.1)

  -- behind a failed freeze
  abbrev pub thaw_again : Bool → S → Run S
  thaw_again needs_thaw s =
      let thaw = do_freeze thawed s in
      if needs_thaw
      then logged (freezer_to thawed thaw.0) (ended (err freeze_refused) thaw.1)
      else ended (err freeze_refused) s

  abbrev pub behind_freeze : Bool → List Property → FreezeAnswer × S → Run S
  behind_freeze needs_thaw props (moved, s) =
      logged (freezer_to frozen moved) (update_unit needs_thaw props s)
  behind_freeze needs_thaw props (no_freezer, s) =
      logged (freezer_to frozen no_freezer) (update_unit needs_thaw props s)
  behind_freeze needs_thaw props (freeze_failed, s) =
      logged (freezer_to frozen freeze_failed) (thaw_again needs_thaw s)

  abbrev pub with_needs : List Property → Option (Bool × Bool) → S → Run S
  with_needs props none s = ended (err state_unread) s
  with_needs props (some (true, needs_thaw)) s = behind_freeze needs_thaw props (do_freeze frozen s)
  with_needs props (some (false, needs_thaw)) s = update_unit needs_thaw props s

  abbrev pub with_properties : Result Limits.Error (List Property) → Update → S → Run S
  with_properties (err e) r s = ended (err (bad_properties e)) s
  with_properties (ok props) r s = with_needs props (freeze_before_set r s) s

  -- `Set`; `none` is nil
  unfoldable pub legacy_set : {B : Type 0} → BigInt B → Host → ℤ → Option Update → S → Run S
  legacy_set big host version none s = ended (ok tt) s
  legacy_set big host version (some r) s =
      if r.has_unified
      then ended (err no_unified) s
      else with_properties (gen_v1_resources_properties big host version r.resources) r s
