-- ===== src/Convert/Bounds.antt =====
-- Ranges and order of the conversions of cgroups/utils.go, and the swap limit on all branches.
use libcontainer.Prelude.{
  err_ne_ok, subst, Bool-cases, ltb, ℕ, zero, suc, ◌+◌, ◌-◌, ◌*◌, ◌/◌, ◌≤◌, ◌<◌, ◌≡◌, ◌≢◌, refl,
  false, ◌==◌, inl, inr, arith, ok, ok-injective, ap,
}
use libcontainer.Prelude.Int.{ℤ, pos, negsuc}
use libcontainer.Convert.{
  convert_cpu_shares, convert_blkio_weight, convert_memory_swap, no_memory_limit, invalid_memory,
  swap_below_memory,
}

cpu_shares_exact : (x : ℕ) → 2 ≤ x → x ≤ 262144 → convert_cpu_shares x ≡ 1 + (x - 2) * 9999 / 262142
unfolding convert_cpu_shares
cpu_shares_exact x lo hi = ground arith

blkio_weight_exact :
    (x : ℕ) → 10 ≤ x → x ≤ 1000 → convert_blkio_weight x ≡ 1 + (x - 10) * 9999 / 990
unfolding convert_blkio_weight
blkio_weight_exact x lo hi = ground arith

-- One CPU share, or fewer than ten of block IO weight but some, wraps round and gives more than
-- the largest weight.
convert_wraps :
    (x : ℕ) → 1 ≤ x → x < 10 → (10000 < convert_cpu_shares 1) × (10000 < convert_blkio_weight x)
unfolding convert_cpu_shares convert_blkio_weight
convert_wraps x lo hi = (ground arith, ground arith)

-- CPU shares from 2 to 262144 are converted to a weight from 1 to 10000, more
-- shares never to a smaller weight, and the ends of the one range to the ends of the other.
pub convert_cpu_shares_range :
    (x y : ℕ)
    → 2 ≤ x
    → x ≤ y
    → y ≤ 262144
    → (1 ≤ convert_cpu_shares x)
      × (convert_cpu_shares x ≤ convert_cpu_shares y)
      × (convert_cpu_shares y ≤ 10000)
      × (convert_cpu_shares 2 ≡ 1)
      × (convert_cpu_shares 262144 ≡ 10000)
convert_cpu_shares_range x y lo le hi = omega (
  arith,
  cpu_shares_exact x lo (omega arith),
  cpu_shares_exact y (omega arith) hi,
  cpu_shares_exact 2 (omega arith) (omega arith),
  cpu_shares_exact 262144 (omega arith) (omega arith),
)

-- Block IO weights from 10 to 1000 are converted to a weight from 1 to 10000,
-- a larger weight never to a smaller one, and the ends of the one range to the ends of the other.
pub convert_blkio_weight_range :
    (x y : ℕ)
    → 10 ≤ x
    → x ≤ y
    → y ≤ 1000
    → (1 ≤ convert_blkio_weight x)
      × (convert_blkio_weight x ≤ convert_blkio_weight y)
      × (convert_blkio_weight y ≤ 10000)
      × (convert_blkio_weight 10 ≡ 1)
      × (convert_blkio_weight 1000 ≡ 10000)
convert_blkio_weight_range x y lo le hi = omega (
  arith,
  blkio_weight_exact x lo (omega arith),
  blkio_weight_exact y (omega arith) hi,
  blkio_weight_exact 10 (omega arith) (omega arith),
  blkio_weight_exact 1000 (omega arith) (omega arith),
)

-- `y` is `(x - lo) * 9999 / span`, rounded down, above 1.
abbrev pub IsScaled : ℕ → ℕ → ℕ → ℕ → Type 0
IsScaled lo span x y =
    (1 ≤ y) × ((y - 1) * span ≤ (x - lo) * 9999) × ((x - lo) * 9999 < (y - 1) * span + span)

-- CPU shares from 2 to 262144, and block IO weights from 10 to 1000, are converted to the weight
-- from 1 to 10000 that divides its range in the same ratio, rounded down; and one CPU share, or a
-- block IO weight from 1 to 9, wraps round and gives more than the largest weight.
pub convert_bounds :
    (x w v : ℕ)
    → 2 ≤ x
    → x ≤ 262144
    → 10 ≤ w
    → w ≤ 1000
    → 1 ≤ v
    → v < 10
    → IsScaled 2 262142 x (convert_cpu_shares x)
      × (convert_cpu_shares x ≤ 10000)
      × IsScaled 10 990 w (convert_blkio_weight w)
      × (convert_blkio_weight w ≤ 10000)
      × (10000 < convert_cpu_shares 1)
      × (10000 < convert_blkio_weight v)
convert_bounds x w v xlo xhi wlo whi vlo vhi =
    rw (cpu_shares_exact x xlo xhi, blkio_weight_exact w wlo whi)
      (
        (omega arith, omega arith, omega arith),
        omega arith,
        (omega arith, omega arith, omega arith),
        omega arith,
        (convert_wraps v vlo vhi).0,
        (convert_wraps v vlo vhi).1,
      )

-- The swap limit of cgroup v2 for a limit of memory and swap together.
pub data IsSwapLimit (swap memory : ℤ) : ℤ → Type 0 where
  both_unlimited : memory ≡ negsuc 0 → swap ≡ pos 0 → IsSwapLimit swap memory (negsuc 0)
  unlimited : swap ≡ negsuc 0 → IsSwapLimit swap memory (negsuc 0)
  unset : swap ≡ pos 0 → memory ≢ negsuc 0 → IsSwapLimit swap memory (pos 0)
  rest :
      (m r : ℕ)
      → memory ≡ pos m
      → 0 < m
      → 0 < m + r
      → swap ≡ pos (m + r)
      → IsSwapLimit swap memory (pos r)

suc_not_zero : (n : ℕ) → (suc n == 0) ≡ false
suc_not_zero n = ground arith

not_below_zero : (n : ℕ) → ltb n 0 ≡ false
not_below_zero n = ground arith

both_set :
    (s m : ℕ) (r : ℤ) → convert_memory_swap (pos s) (pos m) ≡ ok r → IsSwapLimit (pos s) (pos m) r
unfolding convert_memory_swap
both_set zero m r h =
    subst (IsSwapLimit (pos zero) (pos m)) (ok-injective (pos zero) r h) (unset refl (λ e. cc))
both_set (suc s) zero r h = absurd (err_ne_ok no_memory_limit r (rw (suc_not_zero s) at h))
both_set (suc s) (suc m) r h = elim (Bool-cases (ltb (suc s) (suc m))) [
  | inl less ↦ absurd (
      err_ne_ok swap_below_memory r
        (rw (suc_not_zero s, suc_not_zero m, not_below_zero (suc m), less) at h))
  | inr enough ↦
      subst (IsSwapLimit (pos (suc s)) (pos (suc m)))
        (ok-injective (pos (suc s - suc m)) r
          (rw (suc_not_zero s, suc_not_zero m, not_below_zero (suc m), enough) at h))
        (rest (suc m) (suc s - suc m) refl (omega arith) (omega arith) (ap pos (grind arith)))
]

-- Where the conversion of a limit of memory and swap gives a limit, it is -1 if that limit is -1 or
-- if it is 0 with no limit of memory, 0 if it is 0 with any other, and else their
-- difference, which is not negative, with a limit of memory above 0.
pub convert_memory_swap_cases :
    (swap memory r : ℤ) → convert_memory_swap swap memory ≡ ok r → IsSwapLimit swap memory r
unfolding convert_memory_swap
convert_memory_swap_cases (pos s) (pos m) r h = both_set s m r h
convert_memory_swap_cases (pos zero) (negsuc zero) r h =
    subst (IsSwapLimit (pos zero) (negsuc zero)) (ok-injective (negsuc zero) r h)
      (both_unlimited refl refl)
convert_memory_swap_cases (pos zero) (negsuc (suc m)) r h =
    subst (IsSwapLimit (pos zero) (negsuc (suc m)))
      (ok-injective (pos zero) r (rw (suc_not_zero m) at h)) (unset refl (λ e. cc))
convert_memory_swap_cases (pos (suc s)) (negsuc zero) r h =
    absurd (err_ne_ok no_memory_limit r (rw (suc_not_zero s) at h))
convert_memory_swap_cases (pos (suc s)) (negsuc (suc m)) r h =
    absurd (err_ne_ok invalid_memory r (rw (suc_not_zero s, suc_not_zero m) at h))
convert_memory_swap_cases (negsuc zero) (pos m) r h =
    subst (IsSwapLimit (negsuc zero) (pos m)) (ok-injective (negsuc zero) r h) (unlimited refl)
convert_memory_swap_cases (negsuc zero) (negsuc zero) r h =
    subst (IsSwapLimit (negsuc zero) (negsuc zero)) (ok-injective (negsuc zero) r h)
      (unlimited refl)
convert_memory_swap_cases (negsuc zero) (negsuc (suc m)) r h =
    subst (IsSwapLimit (negsuc zero) (negsuc (suc m)))
      (ok-injective (negsuc zero) r (rw (suc_not_zero m) at h)) (unlimited refl)
convert_memory_swap_cases (negsuc (suc s)) (pos zero) r h =
    absurd (err_ne_ok no_memory_limit r (rw (suc_not_zero s) at h))
convert_memory_swap_cases (negsuc (suc s)) (pos (suc m)) r h = absurd (
    err_ne_ok swap_below_memory r
      (rw (suc_not_zero s, suc_not_zero m, not_below_zero (suc m)) at h))
convert_memory_swap_cases (negsuc (suc s)) (negsuc zero) r h =
    absurd (err_ne_ok no_memory_limit r (rw (suc_not_zero s) at h))
convert_memory_swap_cases (negsuc (suc s)) (negsuc (suc m)) r h =
    absurd (err_ne_ok invalid_memory r (rw (suc_not_zero s, suc_not_zero m) at h))
