-- ===== src/Tests/Systemd.antt =====
-- The mask of processors at a concrete text, over a set of positions as the big number, and the
-- limits of the unified map.
use libcontainer.Prelude.{
  ℕ, zero, suc, ◌/◌, ◌%◌, ◌^◌, ◌||◌, List, [], ◌∷◌, any, ◌==◌, ◌≡◌, refl, arith, inr, bit_or,
  length, if◌then◌else◌, ok, err, All,
}
use libcontainer.Text.{Bytes, codes, split, split_from, trim_space, parse_uint}
use libcontainer.Systemd.Cpuset.{BigInt, empty_value, range_to_bits, reverse_onto, split_range}
use libcontainer.Systemd.{new_prop, number}
use libcontainer.Systemd.Limits.{cpu_quota_properties, unified_property}
use libcontainer.Systemd.Limits.Unified.{cpu_max_text, unified_property-agrees}
use libcontainer.Prelude.Int.{pos}
use libcontainer.Text.{format_uint}
use libcontainer.Systemd.Cpuset.CpuMask.{IsElement, names, range_to_bits-bits}

abbrev value_of : List ℕ → ℕ
value_of [] = 0
value_of (i ∷ b) = bit_or (value_of b) (2 ^ i)

abbrev low_bytes : ℕ → ℕ → Bytes
low_bytes zero n = []
low_bytes (suc fuel) n =
    let rest = low_bytes fuel (n / 256) in if n == 0 then [] else n % 256 ∷ rest

positions_lem : (b : List ℕ) (i j : ℕ) → any (λ x. x == j) (i ∷ b) ≡ (i == j || any (λ x. x == j) b)
positions_lem b i j = refl

abbrev positions : BigInt (List ℕ)
positions = record {
  nothing = [];
  set_bit = λ b i. i ∷ b;
  bit = λ b j. any (λ x. x == j) b;
  bytes = λ b. reverse_onto (low_bytes 8 (value_of b)) [];
  bit_nothing = λ i. refl;
  bit-set_bit = positions_lem;
}

mask_run : range_to_bits positions (codes "1, 3-5,,9") ≡ ok (58 ∷ 2 ∷ [])
unfolding range_to_bits split_from trim_space parse_uint
mask_run = refl

elements : All IsElement (split (codes "1, 3-5") b',')
unfolding split_from trim_space split_range parse_uint
elements = (inr (1, refl), (inr (3, 5, refl, refl, omega arith), tt))

range_to_bits-bits_example :
    (bits : List ℕ) × (range_to_bits positions (codes "1, 3-5") ≡ (
      if length (positions.bytes bits) == 0
      then err empty_value
      else ok (reverse_onto (positions.bytes bits) [])))
    × ((i : ℕ) → positions.bit bits i ≡ any (names i) (split (codes "1, 3-5") b','))
range_to_bits-bits_example = range_to_bits-bits positions (codes "1, 3-5") elements

unified_property-agrees_example :
    (unified_property positions (pos 245) (codes "cpu.max", cpu_max_text 50000 100000)
      ≡ ok (cpu_quota_properties (pos 245) (pos 50000) 100000))
    × (unified_property positions (pos 245) (codes "memory.max", format_uint 4096)
        ≡ ok (new_prop (codes "MemoryMax") (number 4096) ∷ []))
unified_property-agrees_example =
    unified_property-agrees positions (pos 245) 50000 100000 4096 (omega arith) (omega arith)
      (omega arith)
