-- ===== src/Spec/Store.antt =====
-- The store of device objects of specconv/spec_linux.go: what a new object and a change of owner
-- leave as it was.
use libcontainer.Prelude.{
  ℕ, zero, suc, ◌<◌, ◌≡◌, refl, [], ◌∷◌, ◌++◌, length, length-append, All, All-imp, arith,
}
use libcontainer.Spec.{Device, Heap, load, store, allowed_objects, allowed_devices}

pub load-append : (h k : Heap) (p : ℕ) → p < length h → load (h ++ k) p ≡ load h p
unfolding load
load-append [] k p lt = ground (arith, lt)
load-append (d ∷ h) k zero lt = refl
load-append (d ∷ h) k (suc p) lt = load-append h k p (omega (arith, lt))

pub load-store_same : (h : Heap) (p : ℕ) (d : Device) → p < length h → load (store h p d) p ≡ d
unfolding load store
load-store_same [] p d lt = ground (arith, lt)
load-store_same (x ∷ h) zero d lt = refl
load-store_same (x ∷ h) (suc p) d lt = load-store_same h p d (omega (arith, lt))

pub length-store : (h : Heap) (p : ℕ) (d : Device) → length (store h p d) ≡ length h
unfolding store
length-store [] p d = refl
length-store (x ∷ h) zero d = refl
length-store (x ∷ h) (suc p) d = omega (arith, length-store h p d)

-- A field that the new object has from the old one is the same everywhere.
pub load-store_field {ℓ} :
    {A : Type ℓ} (f : Device → A) (h : Heap) (p q : ℕ) (d : Device)
    → f d ≡ f (load h p)
    → f (load (store h p d) q) ≡ f (load h q)
unfolding load store
load-store_field f [] p q d e = refl
load-store_field f (x ∷ h) zero zero d e = e
load-store_field f (x ∷ h) zero (suc q) d e = refl
load-store_field f (x ∷ h) (suc p) zero d e = refl
load-store_field f (x ∷ h) (suc p) (suc q) d e = load-store_field f h p q d e

-- What holds of the new object and of the one that is read holds of what is read after the change.
pub load-store_prop {ℓ} :
    (P : Device → Type ℓ) (h : Heap) (p q : ℕ) (d : Device)
    → P d
    → P (load h q)
    → P (load (store h p d) q)
unfolding load store
load-store_prop P [] p q d new old = old
load-store_prop P (x ∷ h) zero zero d new old = new
load-store_prop P (x ∷ h) zero (suc q) d new old = old
load-store_prop P (x ∷ h) (suc p) zero d new old = old
load-store_prop P (x ∷ h) (suc p) (suc q) d new old = load-store_prop P h p q d new old

-- The object at a pointer is in the store, with the rule and the path of the program's text.
pub record IsAsWritten (h : Heap) (p : ℕ) : Type 0 where
  pub inside : p < length h
  pub rule : (load h p).rule ≡ (load allowed_objects p).rule
  pub path : (load h p).path ≡ (load allowed_objects p).path

-- So is each default device.
abbrev pub HasDefaults : Heap → Type 0
HasDefaults h = All (IsAsWritten h) allowed_devices

pub append-HasDefaults : (h k : Heap) → HasDefaults h → HasDefaults (h ++ k)
append-HasDefaults h k =
    All-imp (IsAsWritten h) (IsAsWritten (h ++ k))
      (λ p a. record {
        inside = omega (arith, a.inside, length-append h k);
        rule = rw (load-append h k p a.inside) a.rule;
        path = rw (load-append h k p a.inside) a.path;
      })
      allowed_devices

pub allowed_objects-HasDefaults : HasDefaults allowed_objects
unfolding load
allowed_objects-HasDefaults = (
  record { inside = omega arith; rule = refl; path = refl },
  (
    record { inside = omega arith; rule = refl; path = refl },
    (
      record { inside = omega arith; rule = refl; path = refl },
      (
        record { inside = omega arith; rule = refl; path = refl },
        (
          record { inside = omega arith; rule = refl; path = refl },
          (
            record { inside = omega arith; rule = refl; path = refl },
            (
              record { inside = omega arith; rule = refl; path = refl },
              (
                record { inside = omega arith; rule = refl; path = refl },
                (
                  record { inside = omega arith; rule = refl; path = refl },
                  (
                    record { inside = omega arith; rule = refl; path = refl },
                    (record { inside = omega arith; rule = refl; path = refl }, tt),
                  ),
                ),
              ),
            ),
          ),
        ),
      ),
    ),
  ),
)
