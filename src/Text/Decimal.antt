-- ===== src/Text/Decimal.antt =====
-- Decimal text: what `format_uint` prints is digits, and `scan_uint` reads it back.
use libcontainer.Prelude.{
  ℕ, zero, suc, ◌+◌, ◌-◌, ◌/◌, ◌%◌, ◌^◌, ◌≤◌, ◌<◌, [], ◌∷◌, ◌≡◌, ◌≢◌, refl, inl, inr, arith, ltb,
  Bool-cases, All, ok,
}
use libcontainer.Text.{Bytes, scan_uint, parse_uint, write_digits, format_uint}

abbrev pub IsDigit : ℕ → Type 0
IsDigit c = (b'0' ≤ c) × (c ≤ b'9')

scan-write :
    (most f n : ℕ) (out : Bytes)
    → n < f
    → n ≤ most
    → scan_uint most (write_digits f n out) 0 ≡ scan_uint most out n
unfolding scan_uint write_digits
scan-write most zero n out h k = elim h [ ]
scan-write most (suc f) n out h k = elim (Bool-cases (ltb n 10)) [
  | inl short ↦ rw short (ground arith)
  | inr long ↦
      rw (long, scan-write most f (n / 10) ((b'0' + n % 10) ∷ out) (ground arith) (ground arith))
        (ground arith)
]

write-digits : (f n : ℕ) (out : Bytes) → All IsDigit out → All IsDigit (write_digits f n out)
unfolding write_digits
write-digits zero n out h = h
write-digits (suc f) n out h = elim (Bool-cases (ltb n 10)) [
  | inl short ↦ rw short ((ground arith, ground arith), h)
  | inr long ↦ rw long (write-digits f (n / 10) _ ((omega arith, omega arith), h))
]

write-ne-nil : (f n : ℕ) (c : ℕ) (out : Bytes) → write_digits f n (c ∷ out) ≢ []
unfolding write_digits
write-ne-nil zero n c out h = cc
write-ne-nil (suc f) n c out h = ground (arith, write-ne-nil f (n / 10) (b'0' + n % 10) (c ∷ out))

pub format-digits : (n : ℕ) → All IsDigit (format_uint n)
unfolding format_uint
format-digits n = write-digits (suc n) n [] tt

pub format-ne-nil : (n : ℕ) → format_uint n ≢ []
unfolding format_uint write_digits
format-ne-nil n h = ground (arith, write-ne-nil n (n / 10) (b'0' + n % 10) [])

parse_ne_nil : (bits : ℕ) (s : Bytes) → s ≢ [] → parse_uint bits s ≡ scan_uint (2 ^ bits - 1) s 0
unfolding parse_uint
parse_ne_nil bits [] h = absurd (h refl)
parse_ne_nil bits (c ∷ s) h = refl

-- A number that fits the bit size is read back from its decimal text.
pub parse-format : (bits n : ℕ) → n ≤ 2 ^ bits - 1 → parse_uint bits (format_uint n) ≡ ok n
parse-format bits n h =
    rw (parse_ne_nil bits _ (format-ne-nil n))
      (unfold format_uint scan_uint in scan-write (2 ^ bits - 1) (suc n) n [] (omega arith) h)
