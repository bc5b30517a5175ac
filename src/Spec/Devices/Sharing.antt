-- ===== src/Spec/Devices/Sharing.antt =====
-- The objects of `AllowedDevices` of specconv/spec_linux.go are shared by all configurations that
-- one process makes.
use libcontainer.Prelude.{
  ◌∷◌, subst, ℕ, ◌<◌, ◌%◌, ◌^◌, ◌≡◌, refl, sym, ap, ◌∙◌, List, All, All-imp, All-both, ok, length,
  [], ◌++◌, some,
}
use libcontainer.Spec.{Heap, load, allowed_devices, Linux}
use libcontainer.Spec.Store.{IsAsWritten, HasDefaults, load-append}
use libcontainer.Spec.Devices.{Creation, keep_allowed, create_devices}
use libcontainer.Spec.Devices.Created.{
  create_devices-IsCreation, created-HasDefaults, keep_allowed-All,
}
use libcontainer.Spec.Owners.{set_owners}
use libcontainer.Spec.Owners.Roots.{owner_of, set_owners-owner, set_owners-field, length-set_owners}

-- Changes of owners leave the rules and the paths of the default devices as written.
pub set_owners-HasDefaults :
    (h : Heap) (ps : List ℕ) (uid gid : ℕ) → HasDefaults h → HasDefaults (set_owners h ps uid gid)
set_owners-HasDefaults h ps uid gid =
    All-imp (IsAsWritten h) (IsAsWritten (set_owners h ps uid gid))
      (λ p a. record {
        inside = rw (length-set_owners h ps uid gid) a.inside;
        rule = set_owners-field (λ d. d.rule) h ps uid gid p (λ d u g. refl) ∙ a.rule;
        path = set_owners-field (λ d. d.path) h ps uid gid p (λ d u g. refl) ∙ a.path;
      })
      allowed_devices

same_kept :
    (h k : Heap) (l l' : Linux) (ps : List ℕ)
    → l.devices ≡ l'.devices
    → All (λ p. (load k p).path ≡ (load h p).path) ps
    → keep_allowed k (some l') ps ≡ keep_allowed h (some l) ps
unfolding keep_allowed
same_kept h k l l' [] e a = refl
same_kept h k l l' (p ∷ ps) e a = rw (a.0, sym e, same_kept h k l l' ps e a.1) refl

-- the default devices that have a path, in the order of their pointers
abbrev pub default_nodes : Heap → Linux → List ℕ
default_nodes h l = (keep_allowed h (some l) allowed_devices).nodes

-- A configuration without a user namespace that is made after one with a user namespace, from a
-- specification with the same devices, starts with the same objects of default devices, and these
-- have the owner that was set for the first configuration.
pub create_devices-shares :
    (h : Heap) (l l' : Linux) (c c' : Creation) (uid gid : ℕ)
    → HasDefaults h
    → l.devices ≡ l'.devices
    → create_devices h (some l) [] ≡ ok c
    → create_devices (set_owners c.heap c.nodes uid gid) (some l') [] ≡ ok c'
    → (rest : List ℕ) × (c'.nodes ≡ default_nodes h l ++ rest)
      × All (λ p. owner_of (load c'.heap p) ≡ (uid % 2 ^ 32, gid % 2 ^ 32)) (default_nodes h l)
create_devices-shares h l l' c c' uid gid d same first second =
    let x = create_devices-IsCreation h (some l) [] c first in
    let y = create_devices-IsCreation between (some l') [] c' second in
    let d1 = created-HasDefaults h (some l) [] c x d in
    let d2 = set_owners-HasDefaults c.heap c.nodes uid gid d1 in
    let kept : keep_allowed between (some l') allowed_devices
        ≡ keep_allowed h (some l) allowed_devices =
      same_kept h between l l' allowed_devices same (
        All-imp (λ p. IsAsWritten between p × IsAsWritten h p)
          (λ p. (load between p).path ≡ (load h p).path) (λ p a. a.0.path ∙ sym a.1.path)
          allowed_devices (All-both (IsAsWritten between) (IsAsWritten h) allowed_devices d2 d)) in
    let nodes_are = y.nodes_are ∙ ap (λ k. k.nodes ++ y.pointers) kept in
    let inside =
      (keep_allowed-All (λ p. p < length c.heap) h (some l) allowed_devices
        (All-imp (IsAsWritten c.heap) (λ p. p < length c.heap) (λ p a. a.inside) allowed_devices
          d1)).1 in
    let owned =
      subst
        (λ ps.
          All (λ p. owner_of (load (set_owners c.heap ps uid gid) p) ≡ (uid % 2 ^ 32, gid % 2 ^ 32))
            (default_nodes h l))
        (sym x.nodes_are) (set_owners-owner c.heap (default_nodes h l) x.pointers uid gid inside) in
    (
      y.pointers,
      nodes_are,
      All-imp
          (λ p. (owner_of (load between p) ≡ (uid % 2 ^ 32, gid % 2 ^ 32)) × (p < length c.heap))
          (λ p. owner_of (load c'.heap p) ≡ (uid % 2 ^ 32, gid % 2 ^ 32))
          (λ p a. ap owner_of (loads p a.1) ∙ a.0) (default_nodes h l)
          (All-both _ _ (default_nodes h l) owned inside),
    )
  where
    between : Heap
    between = set_owners c.heap c.nodes uid gid

    loads : (p : ℕ) → p < length c.heap → load c'.heap p ≡ load between p
    loads p lt =
        let y = create_devices-IsCreation between (some l') [] c' second in
        rw (y.heap)
          (load-append between y.objects p (rw (length-set_owners c.heap c.nodes uid gid) lt))
