-- ===== src/Emulator/Loops.antt =====
-- The two loops of `Transition` of cgroups/devices/devices_emulator.go: what an emulator is after
-- the rules that they print are applied in order.
use libcontainer.Prelude.{
  Bool, true, false, not, List, [], ◌∷◌, ◌++◌, ◌≡◌, refl, sym, ◌∙◌, ◌⊎◌, inl, inr, arith,
  Bool-cases, All, none, Result, ok, err, ◌>>=◌, ap,
}
use mathlib.Core.Path.{fun_ext}
use libcontainer.Devices.{Permissions, union, difference, intersection, is_empty, wildcard, Rule}
use libcontainer.Devices.Permissions.{
  IsCanonical, union-IsCanonical, difference-IsCanonical, is_empty_iff, nil-intersection, nil-union,
  nil-difference, difference-nil,
}
use libcontainer.Emulator.{
  DeviceMeta, DeviceRule, DeviceRules, Error, Emulator, get, add_rule, partial_metas, find_hole,
  subtract, rm_rule, apply, apply_all, as_rule, rules_for_changes,
}
use libcontainer.Emulator.Table.{meta_eq_iff, has, IsUnique, get-not_has}
use libcontainer.Emulator.Apply.{IsCgroupNode, IsEntry, get-add_rule, get-subtract}

-- The emulator has default `d`, and each device has the permissions that `f` gives it.
pub record Shows (d : Bool) (f : DeviceMeta → Permissions) (e : Emulator) : Type 0 where
  pub default_is : e.default_allow ≡ d
  pub shows : (m : DeviceMeta) → get e.rules m ≡ f m

-- There is a result with no error, and it has the property.
abbrev pub Yields : Result Error Emulator → (Emulator → Type 0) → Type 0
Yields (ok e) P = P e
Yields (err _) P = ⊥

pub Yields-Shows :
    (x : Result Error Emulator) (d : Bool) (f g : DeviceMeta → Permissions)
    → Yields x (Shows d f)
    → ((m : DeviceMeta) → f m ≡ g m)
    → Yields x (Shows d g)
Yields-Shows (ok e) d f g s h = record { default_is = s.default_is; shows = λ m. s.shows m ∙ h m }
Yields-Shows (err _) d f g s h = s

abbrev pub entry : DeviceMeta → Permissions → DeviceRule
entry m p = record { meta = m; perms = p }

apply_add :
    (e : Emulator) (d : Bool) (m : DeviceMeta) (p : Permissions)
    → e.default_allow ≡ d
    → IsCgroupNode m.node
    → apply e (as_rule (not d) m p) ≡ ok (add_rule e (entry m p))
unfolding apply
apply_add e true m p h n = ground arith
apply_add e false m p h n = ground arith

find_hole-none :
    (rs : DeviceRules) (r : DeviceRule) (ms : List DeviceMeta)
    → All (λ m. get rs m ≡ []) ms
    → find_hole rs r ms ≡ none
unfolding find_hole
find_hole-none rs r [] h = refl
find_hole-none rs r (m ∷ ms) h = ground (
  arith,
  find_hole-none rs r ms h.1,
  nil-intersection r.perms,
  is_empty_iff (intersection (get rs m) r.perms),
)

apply_remove :
    (e : Emulator) (m : DeviceMeta) (p : Permissions)
    → e.default_allow ≡ false
    → IsCgroupNode m.node
    → All (λ k. get e.rules k ≡ []) (partial_metas m)
    → apply e (as_rule false m p) ≡ ok (subtract e (entry m p))
unfolding apply rm_rule
apply_remove e m p h n w = ground (arith, find_hole-none e.rules (entry m p) (partial_metas m) w)

pub add_rule-default :
    (e : Emulator) (r : DeviceRule) → (add_rule e r).default_allow ≡ e.default_allow
unfolding add_rule
add_rule-default e r = refl

pub subtract-default :
    (e : Emulator) (r : DeviceRule) → (subtract e r).default_allow ≡ e.default_allow
unfolding subtract
subtract-default e r = ground arith

-- The value that the second loop of `Transition` leaves for a device.
abbrev pub added : DeviceRules → DeviceRules → Emulator → DeviceMeta → Permissions
added old es e m = union (difference (get es m) (get old m)) (get e.rules m)

-- The value that its first loop leaves.
abbrev pub removed : DeviceRules → DeviceRules → Emulator → DeviceMeta → Permissions
removed new es e m = difference (get e.rules m) (difference (get es m) (get new m))

abbrev pub Canonical : Emulator → Type 0
Canonical e = (m : DeviceMeta) → IsCanonical (get e.rules m)

added_skip :
    (old : DeviceRules) (r : DeviceRule) (rs : DeviceRules) (e : Emulator) (m : DeviceMeta)
    → has rs r.meta ≡ false
    → difference r.perms (get old r.meta) ≡ []
    → added old rs e m ≡ added old (r ∷ rs) e m
unfolding get
added_skip old r rs e m u h =
    ground (arith, get-not_has rs r.meta u, meta_eq_iff r.meta m, nil-difference (get old r.meta))

added_step :
    (old : DeviceRules) (r : DeviceRule) (rs : DeviceRules) (e : Emulator) (m : DeviceMeta)
    → has rs r.meta ≡ false
    → added old rs (add_rule e (entry r.meta (difference r.perms (get old r.meta)))) m
      ≡ added old (r ∷ rs) e m
unfolding get
added_step old r rs e m u = ground (
  arith,
  get-not_has rs r.meta u,
  meta_eq_iff r.meta m,
  nil-difference (get old r.meta),
  get-add_rule e (entry r.meta (difference r.perms (get old r.meta))) m,
  nil-union (union (difference r.perms (get old r.meta)) (get e.rules m)) (union-IsCanonical _ _),
)

pub add_rule-Canonical : (e : Emulator) (r : DeviceRule) → Canonical e → Canonical (add_rule e r)
add_rule-Canonical e r c m =
    ground (arith, get-add_rule e r m, union-IsCanonical r.perms (get e.rules m), c m)

-- The second loop succeeds from every emulator whose default is the target's.
pub adds_lem :
    (es old : DeviceRules) (d : Bool) (e : Emulator)
    → e.default_allow ≡ d
    → IsUnique es
    → All IsEntry es
    → Canonical e
    → Yields (apply_all e (rules_for_changes (not d) old es)) (Shows d (added old es e))
unfolding apply_all rules_for_changes get
adds_lem [] old d e h u n c = record {
  default_is = h;
  shows = λ m. rw nil-difference (sym (nil-union _ (c m)));
}
adds_lem (r ∷ rs) old d e h u n c =
    let p = difference r.perms (get old r.meta) in
    let e1 = add_rule e (entry r.meta p) in
    elim (Bool-cases (is_empty p)) [
      | inl none_gained ↦ rw none_gained (
          Yields-Shows _ d _ _ (adds_lem rs old d e h u.1 n.1 c)
            (λ m. added_skip old r rs e m u.0 ((is_empty_iff _).0 none_gained)))
      | inr gained ↦
          rw (gained, apply_add e d r.meta p h n.0.node)
            (Yields-Shows _ d _ _
              (adds_lem rs old d e1 (add_rule-default e (entry r.meta p) ∙ h) u.1 n.1
                (add_rule-Canonical e (entry r.meta p) c))
              (λ m. added_step old r rs e m u.0))
    ]

-- A rule for a range of devices, with `*` for a number.
abbrev pub IsWild : DeviceMeta → Type 0
IsWild m = (m.major ≡ wildcard) ⊎ (m.minor ≡ wildcard)

-- The table has no permission for a range of devices.
abbrev pub HasNoRange : Emulator → Type 0
HasNoRange e = (m : DeviceMeta) → IsWild m → get e.rules m ≡ []

subtract-HasNoRange : (e : Emulator) (r : DeviceRule) → HasNoRange e → HasNoRange (subtract e r)
subtract-HasNoRange e r w m h = ground (arith, get-subtract e r m, w m h, nil-difference r.perms)

subtract-Canonical : (e : Emulator) (r : DeviceRule) → Canonical e → Canonical (subtract e r)
subtract-Canonical e r c m =
    ground (arith, get-subtract e r m, difference-IsCanonical (get e.rules m) r.perms, c m)

removed_skip :
    (new : DeviceRules) (r : DeviceRule) (rs : DeviceRules) (e : Emulator) (m : DeviceMeta)
    → has rs r.meta ≡ false
    → difference r.perms (get new r.meta) ≡ []
    → removed new rs e m ≡ removed new (r ∷ rs) e m
unfolding get
removed_skip new r rs e m u h =
    ground (arith, get-not_has rs r.meta u, meta_eq_iff r.meta m, nil-difference (get new r.meta))

removed_step :
    (new : DeviceRules) (r : DeviceRule) (rs : DeviceRules) (e : Emulator) (m : DeviceMeta)
    → has rs r.meta ≡ false
    → removed new rs (subtract e (entry r.meta (difference r.perms (get new r.meta)))) m
      ≡ removed new (r ∷ rs) e m
unfolding get
removed_step new r rs e m u =
    let p = difference r.perms (get new r.meta) in
    ground (
      arith,
      get-not_has rs r.meta u,
      meta_eq_iff r.meta m,
      nil-difference (get new r.meta),
      get-subtract e (entry r.meta p) m,
      difference-nil (difference (get e.rules m) p) (difference-IsCanonical _ _),
    )

-- The first loop succeeds in white-list mode if no rule is for a range of devices.
pub removes_lem :
    (es new : DeviceRules) (e : Emulator)
    → e.default_allow ≡ false
    → IsUnique es
    → All IsEntry es
    → Canonical e
    → HasNoRange e
    → Yields (apply_all e (rules_for_changes false new es)) (Shows false (removed new es e))
unfolding apply_all rules_for_changes get
removes_lem [] new e h u n c w = record {
  default_is = h;
  shows = λ m. rw nil-difference (sym (difference-nil _ (c m)));
}
removes_lem (r ∷ rs) new e h u n c w =
    let p = difference r.perms (get new r.meta) in
    let e1 = subtract e (entry r.meta p) in
    elim (Bool-cases (is_empty p)) [
      | inl none_dropped ↦ rw none_dropped (
          Yields-Shows _ false _ _ (removes_lem rs new e h u.1 n.1 c w)
            (λ m. removed_skip new r rs e m u.0 ((is_empty_iff _).0 none_dropped)))
      | inr dropped ↦
          rw
            (
              dropped,
              apply_remove e r.meta p h n.0.node
                  (w _ (inl refl), (w _ (inr refl), (w _ (inl refl), tt))),
            )
            (Yields-Shows _ false _ _
              (removes_lem rs new e1 (subtract-default e (entry r.meta p) ∙ h) u.1 n.1
                (subtract-Canonical e (entry r.meta p) c)
                (subtract-HasNoRange e (entry r.meta p) w))
              (λ m. removed_step new r rs e m u.0))
    ]

Yields-bind :
    (x : Result Error Emulator) (k : Emulator → Result Error Emulator) (P Q : Emulator → Type 0)
    → Yields x P
    → ((e : Emulator) → P e → Yields (k e) Q)
    → Yields (x >>= k) Q
Yields-bind (ok e) k P Q h f = f e h
Yields-bind (err _) k P Q h f = h

bind_assoc :
    (x : Result Error Emulator) (f g : Emulator → Result Error Emulator)
    → ((x >>= f) >>= g) ≡ (x >>= λ e. f e >>= g)
bind_assoc (ok e) f g = refl
bind_assoc (err _) f g = refl

apply_all-append :
    (xs ys : List Rule) (e : Emulator)
    → apply_all e (xs ++ ys) ≡ (apply_all e xs >>= λ e'. apply_all e' ys)
unfolding apply_all
apply_all-append [] ys e = refl
apply_all-append (x ∷ xs) ys e =
    ap (◌>>=◌ (apply e x)) (fun_ext (λ e'. apply_all-append xs ys e'))
    ∙ sym (bind_assoc (apply e x) _ _)

-- Rules applied after rules.
pub Yields-append :
    (xs ys : List Rule) (e : Emulator) (P Q : Emulator → Type 0)
    → Yields (apply_all e xs) P
    → ((e' : Emulator) → P e' → Yields (apply_all e' ys) Q)
    → Yields (apply_all e (xs ++ ys)) Q
Yields-append xs ys e P Q h k =
    rw (apply_all-append xs ys e) (Yields-bind (apply_all e xs) _ P Q h k)
