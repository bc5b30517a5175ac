-- ===== src/Systemd/Limits/Rounding.antt =====
-- The rounding of `addCpuQuota` of cgroups/systemd/common.go.
use libcontainer.Prelude.{
  ℕ, zero, suc, ◌+◌, ◌-◌, ◌*◌, ◌/◌, ◌%◌, ◌^◌, ◌≤◌, ◌<◌, ◌≡◌, ◌≢◌, ◌⊎◌, inl, inr, ap, arith,
}
use native.Mathlib.Nat.{
  div-le_self, mul-le-mul_right, div-mul-le_self, lt-div-mul-add, mod-eq-sub-div-mul,
}
use libcontainer.Prelude.Int.{pos}
use libcontainer.Systemd.Limits.{per_second, rounded}

rounded_lem :
    (c : ℕ)
    → c + 10000 < 2 ^ 64
    → (rounded c % 10000 ≡ 0)
      × (c ≤ rounded c)
      × (rounded c < c + 10000)
      × (c % 10000 ≡ 0 → rounded c ≡ c)
      × (c % 10000 ≢ 0 → c + 1 ≤ rounded c)
rounded_lem c h = ground arith

add_one_mul : (c p : ℕ) → (c + 1) * p ≡ c * p + p
add_one_mul c p = grind arith

-- What the quota is for each second, before it is rounded.
abbrev pub exact : ℕ → ℕ → ℕ
exact q period = q * 1000000 / period

quotient_lem :
    (n p : ℕ)
    → 1 ≤ p
    → (n / p * p ≤ n) × (n < n / p * p + p) × (n / p ≤ n) × (n % p ≡ n - n / p * p)
quotient_lem n p h = (
  div-mul-le_self n p,
  lt-div-mul-add {a = n} {b = p} (omega arith),
  div-le_self n p,
  mod-eq-sub-div-mul n p,
)

per_second_lem :
    (q period : ℕ)
    → 1 ≤ q
    → 1 ≤ period
    → q * 1000000 + 10000 < 2 ^ 64
    → per_second (pos q) period ≡ rounded (exact q period)
unfolding per_second
per_second_lem zero period h k lt = elim h [ ]
per_second_lem (suc q) zero h k lt = elim k [ ]
per_second_lem (suc q) (suc p) h k lt = ground arith

-- A positive quota whose product with 1000000 leaves uint64 room is sent as a multiple of 10000,
-- not below the truncated quota for each second and less than 10000 above it. It grants the
-- quota, period by period, if the division by the period is exact or its truncation is no multiple
-- of 10000; and else it grants less than the quota.
pub per_second_rounds :
    (q period : ℕ)
    → 1 ≤ q
    → 1 ≤ period
    → q * 1000000 + 10000 < 2 ^ 64
    → (per_second (pos q) period % 10000 ≡ 0)
      × (exact q period ≤ per_second (pos q) period)
      × (per_second (pos q) period < exact q period + 10000)
      × ((q * 1000000 % period ≡ 0) ⊎ (exact q period % 10000 ≢ 0)
          → q * 1000000 ≤ per_second (pos q) period * period)
      × (q * 1000000 % period ≢ 0
          → exact q period % 10000 ≡ 0
          → per_second (pos q) period * period < q * 1000000)
per_second_rounds q period h k lt =
    let n = q * 1000000 in
    let f = quotient_lem n period k in
    let r = rounded_lem (exact q period) (omega (arith, f.2)) in
    rw (per_second_lem q period h k lt) (
      r.0,
      r.1,
      r.2,
      grants,
      λ inexact whole. omega (arith, f.0, f.3, inexact, ap (λ x. x * period) (r.3 whole)),
    )
  where
    grants :
        (q * 1000000 % period ≡ 0) ⊎ (exact q period % 10000 ≢ 0)
        → q * 1000000 ≤ rounded (exact q period) * period
    grants (inl e) =
        let f = quotient_lem (q * 1000000) period k in
        let r = rounded_lem (exact q period) (omega (arith, f.2)) in
        omega (
          arith,
          f.0,
          f.3,
          e,
          mul-le-mul_right {m = exact q period} {n = rounded (exact q period)} period r.1,
        )
    grants (inr e) =
        let f = quotient_lem (q * 1000000) period k in
        let r = rounded_lem (exact q period) (omega (arith, f.2)) in
        omega (
          arith,
          f.1,
          add_one_mul (exact q period) period,
          mul-le-mul_right {m = exact q period + 1} {n = rounded (exact q period)} period (r.4 e),
        )
