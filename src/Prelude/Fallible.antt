-- ===== src/Prelude/Fallible.antt =====
-- Go's pair of a value and an error, as a sum: `err` is a non-nil error.
use mathlib.Core.Path.{◌≡◌, refl}
use mathlib.Core.Logic.{◌≢◌, ◌⊎◌, inl, inr}

pub data Result {ℓ κ} (E : Type ℓ) (A : Type κ) : Type (ℓ ⊔ κ) where
  err : E → Result E A
  ok : A → Result E A

module _ {ℓ κ μ} {E : Type ℓ} {A : Type κ} {B : Type μ} where
  infixl 5 ◌>>=◌
  abbrev pub ◌>>=◌ : Result E A → (A → Result E B) → Result E B
  err failure >>= next = err failure
  ok value >>= next = next value

  -- What a step must have given if the whole gave a value.
  pub ok_step :
      (first : Result E A) (next : A → Result E B) {b : B}
      → (first >>= next) ≡ ok b
      → (value : A) × (first ≡ ok value) × (next value ≡ ok b)
  ok_step (err failure) next whole = cc
  ok_step (ok value) next whole = (value, refl, whole)

  -- Where an error of the whole came from.
  pub err_step :
      (first : Result E A) (next : A → Result E B) {e : E}
      → (first >>= next) ≡ err e
      → (first ≡ err e) ⊎ ((value : A) × (first ≡ ok value) × (next value ≡ err e))
  err_step (err failure) next whole = inl cc
  err_step (ok value) next whole = inr (value, refl, whole)

pub bind_assoc {ℓ κ μ ν} :
    {E : Type ℓ} {A : Type κ} {B : Type μ} {C : Type ν} (first : Result E A) (next : A → Result E B)
    (last : B → Result E C)
    → ((first >>= next) >>= last) ≡ (first >>= λ a. next a >>= last)
bind_assoc (err failure) next last = refl
bind_assoc (ok value) next last = refl

pub bind_cong {ℓ κ μ} :
    {E : Type ℓ} {A : Type κ} {B : Type μ} (first : Result E A) (next other : A → Result E B)
    → ((a : A) → next a ≡ other a)
    → (first >>= next) ≡ (first >>= other)
bind_cong (err failure) next other h = refl
bind_cong (ok value) next other h = h value

pub ok-injective {ℓ κ} :
    {E : Type ℓ} {A : Type κ} (a b : A) → ◌≡◌ {A = Result E A} (ok a) (ok b) → a ≡ b
ok-injective a b h = cc

pub err_ne_ok {ℓ κ} :
    {E : Type ℓ} {A : Type κ} (e : E) (a : A) → ◌≢◌ {A = Result E A} (err e) (ok a)
err_ne_ok e a h = cc
