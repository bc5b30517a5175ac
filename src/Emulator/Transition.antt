-- ===== src/Emulator/Transition.antt =====
-- `Transition` and `Rules` of cgroups/devices/devices_emulator.go: what the cgroup is after the
-- rules are applied in order.
use libcontainer.Prelude.{
  Bool, true, false, not, [], ◌∷◌, ◌++◌, ◌≡◌, refl, sym, ◌∙◌, ◌⊎◌, inl, inr, arith, subst,
  Bool-cases, ok,
}
use libcontainer.Devices.{difference}
use libcontainer.Devices.Permissions.{
  difference-IsCanonical, nil-difference, difference_self, is_empty_iff, union_dropped_gained,
}
use libcontainer.Emulator.{
  DeviceMeta, DeviceRules, Emulator, get, apply, apply_all, reset_rule, rules_for_changes,
  transition, minimal_rules, deny_all, ordered_entries,
}
use libcontainer.Emulator.Table.{
  meta_eq_iff, IsUnique, has, get-ordered_entries, ordered_entries-IsUnique, ordered_entries-All,
}
use libcontainer.Emulator.Apply.{IsEntry, IsValid, get-IsCanonical, reset-IsValid}
use libcontainer.Emulator.Loops.{
  Shows, Yields, Yields-Shows, Yields-append, HasNoRange, removed, adds_lem, removes_lem,
}

-- From an emulator that shows what is left of the old table, the second loop leads to the target.
gains :
    (t : Emulator) (old : DeviceRules) (e : Emulator) (d : Bool)
    → IsValid t
    → Shows d (λ m. difference (get old m) (difference (get old m) (get t.rules m))) e
    → Yields
        (apply_all e (rules_for_changes (not d) old (ordered_entries t.rules)))
        (Shows d (get t.rules))
gains t old e d v s =
    Yields-Shows _ _ _ _
      (adds_lem (ordered_entries t.rules) old d e s.default_is
        (ordered_entries-IsUnique t.rules v.unique) (ordered_entries-All IsEntry t.rules v.entries)
        (λ m. rw s.shows (difference-IsCanonical _ _)))
      (λ m.
        rw (get-ordered_entries t.rules m v.unique, s.shows)
          (union_dropped_gained (get t.rules m) (get old m) (get-IsCanonical t.rules m v.entries)))

apply_reset :
    (e : Emulator) (b : Bool)
    → apply e (reset_rule b) ≡ ok (record { default_allow = b; rules = [] })
unfolding apply
apply_reset e true = refl
apply_reset e false = refl

transition_reset :
    (s t : Emulator)
    → (s.default_allow ≡ true) ⊎ (t.default_allow ≡ true)
    → transition s t
      ≡ reset_rule t.default_allow
        ∷ rules_for_changes (not t.default_allow) [] (ordered_entries t.rules)
unfolding transition ordered_entries rules_for_changes
transition_reset s t h = ground arith

transition_plain :
    (s t : Emulator)
    → s.default_allow ≡ false
    → t.default_allow ≡ false
    → transition s t
      ≡ rules_for_changes false t.rules (ordered_entries s.rules)
        ++ rules_for_changes true s.rules (ordered_entries t.rules)
unfolding transition
transition_plain s t h k = ground arith

-- The rules that make an emulator in white-list mode from nothing.
pub minimal_rules_plain :
    (t : Emulator)
    → t.default_allow ≡ false
    → minimal_rules t ≡ rules_for_changes true [] (ordered_entries t.rules)
unfolding minimal_rules ordered_entries rules_for_changes
minimal_rules_plain t h = transition_plain deny_all t refl h

-- The state that a list of rules must lead to.
abbrev pub ShowsTarget : Emulator → Emulator → Type 0
ShowsTarget t = Shows t.default_allow (get t.rules)

disruptive :
    (s t : Emulator)
    → IsValid t
    → (s.default_allow ≡ true) ⊎ (t.default_allow ≡ true)
    → Yields (apply_all s (transition s t)) (ShowsTarget t)
unfolding apply_all
disruptive s t v h =
    rw (transition_reset s t h, apply_reset s t.default_allow)
      (gains t [] (record { default_allow = t.default_allow; rules = [] }) t.default_allow v
        (record { default_is = refl; shows = λ m. unfold get in sym (nil-difference _) }))

gradual :
    (s t : Emulator)
    → IsValid s
    → IsValid t
    → s.default_allow ≡ false
    → t.default_allow ≡ false
    → HasNoRange s
    → Yields (apply_all s (transition s t)) (ShowsTarget t)
gradual s t u v h k w =
    subst (λ b. Yields (apply_all s (transition s t)) (Shows b (get t.rules))) (sym k)
      (rw (transition_plain s t h k) (
        Yields-append _ _ s (Shows false (removed t.rules (ordered_entries s.rules) s))
          (Shows false (get t.rules))
          (removes_lem (ordered_entries s.rules) t.rules s h
            (ordered_entries-IsUnique s.rules u.unique)
            (ordered_entries-All IsEntry s.rules u.entries)
            (λ m. get-IsCanonical s.rules m u.entries) w)
          (λ e sh. gains t s.rules e false v (record {
            default_is = sh.default_is;
            shows = λ m. sh.shows m ∙ rw (get-ordered_entries s.rules m u.unique);
          }))))

-- Applying the rules of `Transition` in order never fails, and leaves the emulator with the
-- target's default and with the target's permissions for every device, if the source or the
-- target is in black-list mode or the source holds no rule for a range of devices.
pub apply_all-transition :
    (s t : Emulator)
    → IsValid s
    → IsValid t
    → (s.default_allow ≡ true) ⊎ ((t.default_allow ≡ true) ⊎ HasNoRange s)
    → Yields (apply_all s (transition s t)) (ShowsTarget t)
apply_all-transition s t u v (inl h) = disruptive s t v (inl h)
apply_all-transition s t u v (inr (inl h)) = disruptive s t v (inr h)
apply_all-transition s t u v (inr (inr w)) = elim (Bool-cases s.default_allow) [
  | inl h ↦ disruptive s t v (inl h)
  | inr h ↦ elim (Bool-cases t.default_allow) [
    | inl k ↦ disruptive s t v (inr k)
    | inr k ↦ gradual s t u v h k w
  ]
]

-- `Rules` rebuilds a valid emulator from an empty deny-all one.
pub apply_all-minimal_rules :
    (t : Emulator) → IsValid t → Yields (apply_all deny_all (minimal_rules t)) (ShowsTarget t)
unfolding minimal_rules
apply_all-minimal_rules t v =
    apply_all-transition deny_all t (reset-IsValid false) v (inr (inr (λ m w. unfold get in refl)))

unchanged :
    (action : Bool) (other es : DeviceRules)
    → IsUnique es
    → ((m : DeviceMeta) → has es m ≡ true → get es m ≡ get other m)
    → rules_for_changes action other es ≡ []
unfolding rules_for_changes get
unchanged action other [] u h = refl
unchanged action other (r ∷ rs) u h = ground (
  arith,
  same,
  difference_self r.perms,
  is_empty_iff (difference r.perms r.perms),
  unchanged action other rs u.1 rest,
)
  where
    same : r.perms ≡ get other r.meta
    same = ground (arith, h r.meta, meta_eq_iff r.meta r.meta)

    rest : (m : DeviceMeta) → has rs m ≡ true → get rs m ≡ get other m
    rest m k = ground (arith, h m, u.0, meta_eq_iff r.meta m)

-- In white-list mode, a source that already gives each device the target's permissions gets no
-- rule at all.
pub transition_same :
    (s t : Emulator)
    → IsValid s
    → IsValid t
    → s.default_allow ≡ false
    → t.default_allow ≡ false
    → ((m : DeviceMeta) → get s.rules m ≡ get t.rules m)
    → transition s t ≡ []
transition_same s t u v h k same = rw (
  transition_plain s t h k,
  unchanged false t.rules (ordered_entries s.rules) (ordered_entries-IsUnique s.rules u.unique)
      (λ m _. get-ordered_entries s.rules m u.unique ∙ same m),
  unchanged true s.rules (ordered_entries t.rules) (ordered_entries-IsUnique t.rules v.unique)
      (λ m _. get-ordered_entries t.rules m v.unique ∙ sym (same m)),
)
