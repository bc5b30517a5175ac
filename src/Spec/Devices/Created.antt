-- ===== src/Spec/Devices/Created.antt =====
-- What `createDevices` of specconv/spec_linux.go leaves of the store and of the lists of pointers.
use libcontainer.Prelude.{
  ℕ, ◌≡◌, refl, sym, ap, ◌∙◌, List, [], ◌∷◌, ◌++◌, append-nil, append_assoc, length, Option, All,
  Bool-cases, inl, inr, ok, ok_step, ok-injective, subst, bytes_eq,
}
use libcontainer.Spec.{Heap, load, allowed_devices, SpecDevice, Linux}
use libcontainer.Spec.Store.{HasDefaults, append-HasDefaults}
use libcontainer.Spec.Devices.{
  Nodes, Creation, keep_allowed, is_redundant, new_device, add_spec_devices, spec_devices,
  create_devices,
}

-- New objects and pointers stand behind the old ones.
pub record Extends (old new : Nodes) : Type 0 where
  pub objects : Heap
  pub pointers : List ℕ
  pub heap : new.heap ≡ old.heap ++ objects
  pub nodes : new.nodes ≡ old.nodes ++ pointers

Extends-self : (n : Nodes) → Extends n n
Extends-self n = record {
  objects = [];
  pointers = [];
  heap = sym (append-nil n.heap);
  nodes = sym (append-nil n.nodes);
}

Extends-trans : (a b c : Nodes) → Extends a b → Extends b c → Extends a c
Extends-trans a b c x y = record {
  objects = x.objects ++ y.objects;
  pointers = x.pointers ++ y.pointers;
  heap = y.heap ∙ ap (λ h. h ++ y.objects) x.heap ∙ append_assoc a.heap x.objects y.objects;
  nodes = y.nodes ∙ ap (λ h. h ++ y.pointers) x.nodes ∙ append_assoc a.nodes x.pointers y.pointers;
}

add_spec_devices-Extends :
    (ds : List SpecDevice) (n n' : Nodes) → add_spec_devices n ds ≡ ok n' → Extends n n'
unfolding add_spec_devices
add_spec_devices-Extends [] n n' h = subst (Extends n) (ok-injective n n' h) (Extends-self n)
add_spec_devices-Extends (d ∷ ds) n n' h =
    let (device, _, rest) = ok_step (new_device d) _ h in
    let next : Nodes = record {
      heap = n.heap ++ device ∷ [];
      nodes = n.nodes ++ length n.heap ∷ [];
    } in
    Extends-trans n next n'
      (record { objects = device ∷ []; pointers = length n.heap ∷ []; heap = refl; nodes = refl })
      (add_spec_devices-Extends ds next n' rest)

-- The call keeps the default devices that the loop kept, and the objects that were in the store.
pub record IsCreation (h : Heap) (l : Option Linux) (nodes : List ℕ) (c : Creation) : Type 0 where
  pub objects : Heap
  pub pointers : List ℕ
  pub heap : c.heap ≡ h ++ objects
  pub nodes_are : c.nodes ≡ nodes ++ (keep_allowed h l allowed_devices).nodes ++ pointers
  pub defaults : c.defaults ≡ (keep_allowed h l allowed_devices).deduped

pub create_devices-IsCreation :
    (h : Heap) (l : Option Linux) (nodes : List ℕ) (c : Creation)
    → create_devices h l nodes ≡ ok c
    → IsCreation h l nodes c
unfolding create_devices
create_devices-IsCreation h l nodes c e =
    let kept = keep_allowed h l allowed_devices in
    let start : Nodes = record { heap = h; nodes = nodes ++ kept.nodes } in
    let (n, added, rest) = ok_step (add_spec_devices start (spec_devices l)) _ e in
    let x = add_spec_devices-Extends (spec_devices l) start n added in
    subst (IsCreation h l nodes) (ok-injective _ _ rest) (record {
      objects = x.objects;
      pointers = x.pointers;
      heap = x.heap;
      nodes_are = x.nodes;
      defaults = refl;
    })

pub created-HasDefaults :
    (h : Heap) (l : Option Linux) (nodes : List ℕ) (c : Creation)
    → IsCreation h l nodes c
    → HasDefaults h
    → HasDefaults c.heap
created-HasDefaults h l nodes c x d = rw (x.heap) (append-HasDefaults h x.objects d)

-- What holds of each default device holds of those that are kept.
pub keep_allowed-All {ℓ} :
    (P : ℕ → Type ℓ) (h : Heap) (l : Option Linux) (ps : List ℕ)
    → All P ps
    → All P (keep_allowed h l ps).deduped × All P (keep_allowed h l ps).nodes
unfolding keep_allowed
keep_allowed-All P h l [] a = (tt, tt)
keep_allowed-All P h l (p ∷ ps) a = elim (Bool-cases (is_redundant (load h p) l)) [
  | inl e ↦ rw e (keep_allowed-All P h l ps a.1)
  | inr e ↦
      let (ds, ns) = keep_allowed-All P h l ps a.1 in
      rw e (elim (Bool-cases (bytes_eq (load h p).path [])) [
        | inl q ↦ rw q ((a.0, ds), ns)
        | inr q ↦ rw q ((a.0, ds), (a.0, ns))
      ])
]
