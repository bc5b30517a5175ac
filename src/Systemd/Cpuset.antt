-- ===== src/Systemd/Cpuset.antt =====
-- cgroups/systemd/cpuset.go: `RangeToBits`. The integers of Go's math/big are an interface: a set
-- of bit positions, with the bytes of the number as an operation that is not looked into.
pub mod CpuMask
use libcontainer.Prelude.{
  ℕ, zero, suc, ◌+◌, ◌-◌, Bool, true, false, ◌||◌, List, [], ◌∷◌, ◌++◌, ltb, ◌==◌, ◌≡◌, length,
  if◌then◌else◌, Result, ok, err, ◌>>=◌,
}
use libcontainer.Text.{Bytes, NumError, parse_uint, split, trim_space}

-- `big.Int`: zero, `SetBit` to 1, the bit at a place, and `Bytes`
pub record BigInt (B : Type 0) : Type 0 where
  pub nothing : B
  pub set_bit : B → ℕ → B
  pub bit : B → ℕ → Bool
  pub bytes : B → Bytes
  pub bit_nothing : (i : ℕ) → bit nothing i ≡ false
  pub bit-set_bit : (b : B) (i j : ℕ) → bit (set_bit b i) j ≡ (i == j || bit b j)

pub data Error : Type 0 where
  invalid_number : NumError → Error
  invalid_range empty_value : Error

-- `strings.SplitN(r, "-", 2)`: the text up to the first "-", and what stands behind it, if any
unfoldable pub split_range : Bytes → Bytes × List Bytes
split_range [] = ([], [])
split_range (c ∷ r) =
    let rest = split_range r in if c == b'-' then ([], r ∷ []) else (c ∷ rest.0, rest.1)

abbrev pub number : Result NumError ℕ → Result Error ℕ
number (err e) = err (invalid_number e)
number (ok n) = ok n

abbrev pub reverse_onto : Bytes → Bytes → Bytes
reverse_onto [] done = done
reverse_onto (c ∷ s) done = reverse_onto s (c ∷ done)

module _ {B : Type 0} (big : BigInt B) where
  -- the loop from `start`, which runs `count` times
  unfoldable pub set_bits : B → ℕ → ℕ → B
  set_bits bits start zero = bits
  set_bits bits start (suc count) = set_bits (big.set_bit bits start) (start + 1) count

  abbrev pub set_span : B → ℕ → ℕ → Result Error B
  set_span bits start end =
      if ltb end start then err invalid_range else ok (set_bits bits start (end - start + 1))

  -- one element that is not empty, split at its "-"
  unfoldable pub add_item : B → Bytes × List Bytes → Result Error B
  unfolding set_bits
  add_item bits (first, []) = do val ← number (parse_uint 32 first); ok (big.set_bit bits val)
  add_item bits (first, last ∷ _) = do
    start ← number (parse_uint 32 first)
    end ← number (parse_uint 32 last)
    set_span bits start end

  -- the loop over the elements
  unfoldable pub add_ranges : B → List Bytes → Result Error B
  unfolding add_item split_range
  add_ranges bits [] = ok bits
  add_ranges bits (r ∷ rs) =
      if length (trim_space r) == 0
      then add_ranges bits rs
      else (add_item bits (split_range (trim_space r)) >>= λ next. add_ranges next rs)

  unfoldable pub range_to_bits : Bytes → Result Error Bytes
  unfolding add_ranges
  range_to_bits str = add_ranges big.nothing (split str b',') >>= λ bits.
      if length (big.bytes bits) == 0
      then err empty_value
      else ok (reverse_onto (big.bytes bits) [])
