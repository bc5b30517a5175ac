-- ===== src/Systemd/Cpuset/CpuMask.antt =====
-- `RangeToBits` of cgroups/systemd/cpuset.go: which bits are in the mask.
use libcontainer.Prelude.{
  ℕ, zero, suc, ◌+◌, ◌-◌, ◌≤◌, Bool, true, false, ◌||◌, ◌&&◌, List, [], ◌∷◌, ltb, leb, ◌==◌, ◌≡◌,
  ◌⊎◌, All, refl, arith, length, if◌then◌else◌, Bool-cases, inl, inr, Result, ok, err, any,
}
use libcontainer.Text.{Bytes, NumError, parse_uint, split, trim_space}
use libcontainer.Systemd.Cpuset.{
  BigInt, split_range, reverse_onto, set_bits, add_item, add_ranges, range_to_bits, empty_value,
}

-- whether a number that is written in a text is what is asked for
abbrev pub holds_number : (ℕ → Bool) → Result NumError ℕ → Bool
holds_number p (err e) = false
holds_number p (ok n) = p n

-- whether an element names a processor: the number itself, or a range around it
abbrev pub names_in : ℕ → Bytes × List Bytes → Bool
names_in i (first, []) = holds_number (λ n. n == i) (parse_uint 32 first)
names_in i (first, last ∷ _) =
    holds_number (λ n. leb n i) (parse_uint 32 first)
    && holds_number (λ n. leb i n) (parse_uint 32 last)

abbrev pub names : ℕ → Bytes → Bool
names i r = names_in i (split_range (trim_space r))

-- A number, or a range from a number to one that is not below it.
abbrev pub IsItem : Bytes × List Bytes → Type 0
IsItem (first, []) = (n : ℕ) × (parse_uint 32 first ≡ ok n)
IsItem (first, last ∷ _) =
    (start : ℕ) × (end : ℕ) × (parse_uint 32 first ≡ ok start)
    × (parse_uint 32 last ≡ ok end)
    × (start ≤ end)

-- An element of a mask: nothing but spaces, or an item.
abbrev pub IsElement : Bytes → Type 0
IsElement r = (trim_space r ≡ []) ⊎ IsItem (split_range (trim_space r))

length-zero : (s : Bytes) → (length s == 0) ≡ true → s ≡ []
length-zero [] h = refl
length-zero (c ∷ s) h = ground arith

not_blank :
    (r : Bytes)
    → (length (trim_space r) == 0) ≡ false
    → IsElement r
    → IsItem (split_range (trim_space r))
not_blank r z (inl blank) = ground (arith, blank, z)
not_blank r z (inr item) = item

names_blank : (i : ℕ) → names_in i (split_range []) ≡ false
unfolding split_range parse_uint
names_blank i = refl

module _ {B : Type 0} (big : BigInt B) where
  bit-set_bits :
      (count : ℕ) (bits : B) (start i : ℕ)
      → big.bit (set_bits big bits start count) i
        ≡ (leb start i && ltb i (start + count) || big.bit bits i)
  unfolding set_bits
  bit-set_bits zero bits start i = ground arith
  bit-set_bits (suc count) bits start i = ground (
    arith,
    bit-set_bits count (big.set_bit bits start) (start + 1) i,
    big.bit-set_bit bits start i,
  )

  -- An item sets the bits that it names.
  add_item-bits :
      (bits : B) (item : Bytes × List Bytes)
      → IsItem item
      → (next : B) × (add_item big bits item ≡ ok next)
        × ((i : ℕ) → big.bit next i ≡ (names_in i item || big.bit bits i))
  unfolding add_item
  add_item-bits bits (first, []) (n, e) =
      (big.set_bit bits n, rw e refl, λ i. rw (e, big.bit-set_bit bits n i) refl)
  add_item-bits bits (first, last ∷ rest) (start, end, e, f, le) = (
    set_bits big bits start (end - start + 1),
    rw (e, f) (ground arith),
    λ i. rw (e, f, bit-set_bits (end - start + 1) bits start i) (ground arith),
  )

  add_ranges-bits :
      (rs : List Bytes) (bits : B)
      → All IsElement rs
      → (next : B) × (add_ranges big bits rs ≡ ok next)
        × ((i : ℕ) → big.bit next i ≡ (any (names i) rs || big.bit bits i))
  unfolding add_ranges
  add_ranges-bits [] bits a = (bits, refl, λ i. refl)
  add_ranges-bits (r ∷ rs) bits a = elim (Bool-cases (length (trim_space r) == 0)) [
    | inl z ↦
        let (next, e, f) = add_ranges-bits rs bits a.1 in
        (next, rw z e, λ i. rw (length-zero (trim_space r) z, names_blank i) (f i))
    | inr z ↦
        let (b1, e1, f1) = add_item-bits bits (split_range (trim_space r)) (not_blank r z a.0) in
        let (b2, e2, f2) = add_ranges-bits rs b1 a.1 in
        (b2, rw (z, e1) e2, λ i. rw (f2 i, f1 i) (ground arith))
  ]

  -- A list of elements that are all blank, numbers or ranges in order makes the mask with the bits
  -- of just the processors that one of them names; its bytes are given in reverse, and if there are
  -- none there is an error.
  pub range_to_bits-bits :
      (str : Bytes)
      → All IsElement (split str b',')
      → (bits : B) × (range_to_bits big str ≡ (
          if length (big.bytes bits) == 0
          then err empty_value
          else ok (reverse_onto (big.bytes bits) [])))
        × ((i : ℕ) → big.bit bits i ≡ any (names i) (split str b','))
  unfolding range_to_bits
  range_to_bits-bits str a =
      let (bits, e, f) = add_ranges-bits (split str b',') big.nothing a in
      (bits, rw e refl, λ i. rw (f i, big.bit_nothing i) (ground arith))
