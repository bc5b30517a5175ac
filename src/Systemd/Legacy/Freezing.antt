-- ===== src/Systemd/Legacy/Freezing.antt =====
-- The freezing around the update of a unit, in `Set` of cgroups/systemd/v1.go.
use libcontainer.Prelude.{
  Bool, true, false, List, [], ◌∷◌, Option, none, some, bytes_eq, if◌then◌else◌, Result, ok, err,
  ◌≡◌, ◌≢◌, ◌⊎◌, inl, inr, refl, arith, Bool-cases,
}
use libcontainer.Prelude.Int.{ℤ}
use libcontainer.Text.{Bytes}
use libcontainer.Freezer.{frozen, thawed}
use libcontainer.Cgroups.Listing.{Assignments, lookup}
use libcontainer.Systemd.{Property}
use libcontainer.Systemd.Cpuset.{BigInt}
use libcontainer.Systemd.Devices.{Host}
use libcontainer.Systemd.Limits as Limits
use libcontainer.Systemd.Limits.{gen_v1_resources_properties}
use libcontainer.Systemd.Legacy.{
  Update, Error, FreezeAnswer, moved, no_freezer, freeze_failed, Event, freezer_to, unit_updated,
  controller_set, World, Run, legacy_subsystems, needs, do_freeze, get_freezer_state, is_exempt,
  freeze_before_set, controller_then, set_controllers, after_update, update_unit, ended, no_unified,
  if_there, behind_freeze, with_needs, with_properties, legacy_set,
}

-- What is known of the processes: they may run, they are frozen, or there is no freezer.
pub data Mode : Type 0 where
  running held unsupported : Mode

abbrev pub mode_of : Bytes → Mode
mode_of state = if bytes_eq state frozen then held else running

-- A failed call of the freezer may leave them running.
abbrev pub mode_after : Bytes → FreezeAnswer → Mode
mode_after state moved = mode_of state
mode_after state no_freezer = unsupported
mode_after state freeze_failed = running

-- Where the unit is updated, the processes are frozen or there is no freezer.
unfoldable pub UpdatesHeld : Mode → List Event → Type 0
UpdatesHeld m [] = Unit {0}
UpdatesHeld m (freezer_to state answer ∷ es) = UpdatesHeld (mode_after state answer) es
UpdatesHeld m (unit_updated ∷ es) = (m ≢ running) × UpdatesHeld m es
UpdatesHeld m (controller_set name ∷ es) = UpdatesHeld m es

-- The state that doFreeze was called with last. The controllers' own Set, that of the freezer too,
-- which follows the update, is a `controller_set` and is not counted.
unfoldable pub last_asked : List Event → Option Bytes
last_asked [] = none
last_asked (freezer_to state answer ∷ es) = elim (last_asked es) [
  | none ↦ some state
  | some later ↦ some later
]
last_asked (unit_updated ∷ es) = last_asked es
last_asked (controller_set name ∷ es) = last_asked es

record Kept (m : Mode) (es : List Event) (last : Option Bytes) : Type 0 where
  held : UpdatesHeld m es
  asked : last_asked es ≡ last

held_is_safe : held ≢ running
held_is_safe h = cc

unsupported_is_safe : unsupported ≢ running
unsupported_is_safe h = cc

nothing_kept : (m : Mode) → Kept m [] none
unfolding UpdatesHeld last_asked
nothing_kept m = record { held = tt; asked = refl }

asked_kept :
    (m : Mode) (state : Bytes) (a : FreezeAnswer) (es : List Event) (last : Option Bytes)
    → Kept (mode_after state a) es last
    → Kept m (freezer_to state a ∷ es) (elim last [ none ↦ some state | some later ↦ some later ])
unfolding UpdatesHeld last_asked
asked_kept m state a es last k = record { held = k.held; asked = rw (k.asked) refl }

update_kept :
    (m : Mode) (es : List Event) (last : Option Bytes)
    → m ≢ running
    → Kept m es last
    → Kept m (unit_updated ∷ es) last
unfolding UpdatesHeld last_asked
update_kept m es last safe k = record { held = (safe, k.held); asked = k.asked }

controller_kept :
    (m : Mode) (name : Bytes) (es : List Event)
    → Kept m es none
    → Kept m (controller_set name ∷ es) none
unfolding UpdatesHeld last_asked
controller_kept m name es k = record { held = k.held; asked = k.asked }

module _ {S : Type 0} (w : World S) (paths : Assignments) where
  controller_then_kept :
      (m : Mode) (name : Bytes) (a : Bool × S) (rest : S → Run S)
      → ((t : S) → Kept m (rest t).events none)
      → Kept m (controller_then w paths name a rest).events none
  controller_then_kept m name (true, t) rest h = controller_kept m name _ (h t)
  controller_then_kept m name (false, t) rest h = controller_kept m name [] (nothing_kept m)

  if_there_kept :
      (m : Mode) (found : Option Bytes) (there : Bytes → Run S) (skipped : Run S)
      → ((path : Bytes) → Kept m (there path).events none)
      → Kept m skipped.events none
      → Kept m (if_there w paths found there skipped).events none
  if_there_kept m none there skipped h k = k
  if_there_kept m (some path) there skipped h k = h path

  controllers_kept :
      (m : Mode) (names : List Bytes) (s : S) → Kept m (set_controllers w paths names s).events none
  unfolding set_controllers
  controllers_kept m [] s = nothing_kept m
  controllers_kept m (name ∷ names) s =
      let rest : S → Run S = λ t. set_controllers w paths names t in
      if_there_kept m (lookup name paths)
        (λ path. controller_then w paths name (w.set_controller name path s) rest) (rest s)
        (λ path.
          controller_then_kept m name (w.set_controller name path s) rest
            (λ t. controllers_kept m names t))
        (controllers_kept m names s)

  after_update_kept :
      (m : Mode) (good : Bool) (s : S) → Kept m (after_update w paths good s).events none
  after_update_kept m true s = controllers_kept m legacy_subsystems s
  after_update_kept m false s = nothing_kept m

  -- the last state that is asked for, from needsThaw
  abbrev last_of : Bool → Option Bytes
  last_of needs_thaw = if needs_thaw then some thawed else none

  update_unit_kept :
      (m : Mode) (needs_thaw : Bool) (props : List Property) (s : S)
      → m ≢ running
      → Kept m (update_unit w paths needs_thaw props s).events (last_of needs_thaw)
  update_unit_kept m true props s safe =
      update_kept m _ (some thawed) safe (asked_kept m thawed _ _ none (after_update_kept _ _ _))
  update_unit_kept m false props s safe = update_kept m _ none safe (after_update_kept m _ _)

  -- The last state behind a freeze.
  abbrev last_behind : Bool → Option Bytes
  last_behind needs_thaw = if needs_thaw then some thawed else some frozen

  behind_freeze_kept :
      (m : Mode) (needs_thaw : Bool) (props : List Property) (a : FreezeAnswer × S)
      → Kept m (behind_freeze w paths needs_thaw props a).events (last_behind needs_thaw)
  behind_freeze_kept m true props (moved, s) =
      asked_kept m frozen moved _ (some thawed) (update_unit_kept held true props s held_is_safe)
  behind_freeze_kept m false props (moved, s) =
      asked_kept m frozen moved _ none (update_unit_kept held false props s held_is_safe)
  behind_freeze_kept m true props (no_freezer, s) =
      asked_kept m frozen no_freezer _ (some thawed)
        (update_unit_kept unsupported true props s unsupported_is_safe)
  behind_freeze_kept m false props (no_freezer, s) =
      asked_kept m frozen no_freezer _ none
        (update_unit_kept unsupported false props s unsupported_is_safe)
  behind_freeze_kept m true props (freeze_failed, s) =
      asked_kept m frozen freeze_failed _ (some thawed)
        (asked_kept running thawed _ [] none (nothing_kept _))
  behind_freeze_kept m false props (freeze_failed, s) =
      asked_kept m frozen freeze_failed [] none (nothing_kept _)

  -- What a run of `Set` must be, from the freezer's state and the wanted one.
  pub record IsHeld (state wanted : Bytes) (run : Run S) : Type 0 where
    pub updates : UpdatesHeld (mode_of state) run.events
    pub stays : bytes_eq state frozen ≡ true → last_asked run.events ≡ none
    pub thaws :
        bytes_eq state frozen ≡ false
        → bytes_eq wanted frozen ≡ false
        → (run.events ≡ []) ⊎ (last_asked run.events ≡ some thawed)

  no_events :
      (state wanted : Bytes) (r : Result Error (Unit {0})) (s : S)
      → IsHeld state wanted (record { result = r; state = s; events = [] })
  unfolding UpdatesHeld last_asked
  no_events state wanted r s = record { updates = tt; stays = λ _. refl; thaws = λ _ _. inl refl }

  needs_lem :
      (state wanted : Bytes) (props : List Property) (s : S)
      → IsHeld state wanted (with_needs w paths props (needs (some state) wanted) s)
  needs_lem state wanted props s = elim (Bool-cases (bytes_eq state frozen)) [
    | inl e ↦
        let k = update_unit_kept held false props s held_is_safe in
        rw e (record {
          updates = rw e k.held;
          stays = λ _. k.asked;
          thaws = λ no _. ground (arith, no, e);
        })
    | inr e ↦
        let k = behind_freeze_kept running _ props (do_freeze w paths frozen s) in
        rw e (record {
          updates = rw e k.held;
          stays = λ yes. ground (arith, yes, e);
          thaws = λ _ thaw.
              inr (
                rw thaw (behind_freeze_kept running true props (do_freeze w paths frozen s)).asked);
        })
  ]

  properties_lem :
      (props : Result Limits.Error (List Property)) (r : Update) (state : Bytes) (s : S)
      → is_exempt w paths r s ≡ false
      → get_freezer_state w paths s ≡ some state
      → IsHeld state r.freezer (with_properties w paths props r s)
  unfolding freeze_before_set
  properties_lem (err e) r state s no_exempt known = no_events state r.freezer _ s
  properties_lem (ok props) r state s no_exempt known =
      rw (no_exempt, known) (needs_lem state r.freezer props s)

  unified_lem :
      (unified : Bool) (state wanted : Bytes) (s : S) (run : Run S)
      → IsHeld state wanted run
      → IsHeld state wanted (if unified then ended (err no_unified) s else run)
  unified_lem true state wanted s run h = no_events state wanted _ s
  unified_lem false state wanted s run h = h

  -- If the update is not exempt and the state of the freezer can be read, Set updates the unit only
  -- while the processes are frozen, or where there is no freezer. It makes no call of doFreeze if the
  -- group was frozen before; if it was not, and is not to be, then the last call of doFreeze is with
  -- THAWED, or Set returned before it did anything. What the controllers' own Set, that of the freezer
  -- too, does after the update is not part of this.
  pub legacy_set-IsHeld :
      {B : Type 0} (big : BigInt B) (host : Host) (version : ℤ) (r : Update) (state : Bytes) (s : S)
      → is_exempt w paths r s ≡ false
      → get_freezer_state w paths s ≡ some state
      → IsHeld state r.freezer (legacy_set w paths big host version (some r) s)
  unfolding legacy_set
  legacy_set-IsHeld big host version r state s no_exempt known =
      unified_lem r.has_unified state r.freezer s _ (
        properties_lem (gen_v1_resources_properties big host version r.resources) r state s
          no_exempt known)
