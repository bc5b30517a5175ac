-- ===== src/Fscommon/Numbers.antt =====
-- The numbers and lines of cgroups/fscommon/utils.go, read back from their text.
use libcontainer.Prelude.{
  ℕ, suc, ◌+◌, ◌-◌, ◌^◌, ◌≤◌, ◌≡◌, refl, ap, ◌∙◌, arith, Bool, true, false, List, [], ◌∷◌, ◌++◌,
  ltb, ◌==◌, bytes_eq, if◌then◌else◌, Result, ok, err, All, All-imp, All-append, Bool-cases, inl,
  inr,
}
use libcontainer.Text.{
  Bytes, syntax, range, scan_uint, parse_uint, parse_int, signed, split, split_from, format_uint,
  format_int, has_prefix,
}
use libcontainer.Prelude.Int.{pos, negsuc}
use libcontainer.Text.Split.{IsPlain, split-word, split-last}
use libcontainer.Text.Decimal.{IsDigit, format-digits, parse-format}
use libcontainer.Fscommon.{Error, parse_uint_or_zero, value_in, get_value_by_key, parse_key_value}

parse_uint_or_zero-format : (n : ℕ) → n ≤ 2 ^ 64 - 1 → parse_uint_or_zero 64 (format_uint n) ≡ ok n
unfolding parse_uint_or_zero
parse_uint_or_zero-format n h = rw (parse-format 64 n h) refl

minus_syntax : (s : Bytes) → parse_uint 64 (b'-' ∷ s) ≡ err syntax
unfolding parse_uint scan_uint
minus_syntax s = refl

parse_int-negsuc :
    (n : ℕ)
    → n + 1 ≤ 2 ^ 64 - 1
    → parse_int 64 (b'-' ∷ format_uint (suc n))
      ≡ (if ltb n (2 ^ 63) then ok (negsuc n) else err range)
unfolding parse_int signed
parse_int-negsuc n h = rw (parse-format 64 (suc n) (omega arith)) refl

-- ParseUint of 64 bits reads back a number of 64 bits from its decimal text, and reads a negative
-- number whose size fits 64 bits as 0, also where it is below the least int64.
pub parse_uint_or_zero-format_int :
    (n : ℕ)
    → n + 1 ≤ 2 ^ 64 - 1
    → (parse_uint_or_zero 64 (format_int (pos n)) ≡ ok n)
      × (parse_uint_or_zero 64 (format_int (negsuc n)) ≡ ok 0)
unfolding parse_uint_or_zero format_int
parse_uint_or_zero-format_int n h = (
  rw (parse-format 64 n (omega arith)) refl,
  rw (minus_syntax (format_uint (suc n)), parse_int-negsuc n h)
      (elim (Bool-cases (ltb n (2 ^ 63))) [
        | inl e ↦ rw e refl
        | inr e ↦ unfold has_prefix in rw e refl
      ]),
)

-- an entry of a file, as the kernel writes it
pub record Entry : Type 0 where
  pub key : Bytes
  pub value : ℕ

abbrev pub write_line : Entry → Bytes
write_line e = e.key ++ b' ' ∷ format_uint e.value

abbrev pub write_file : List Entry → Bytes
write_file [] = []
write_file (e ∷ es) = write_line e ++ b'\n' ∷ write_file es

-- the value of the first entry with a key, and 0 if there is none
abbrev pub first_value : List Entry → Bytes → ℕ
first_value [] key = 0
first_value (e ∷ es) key = if bytes_eq e.key key then e.value else first_value es key

-- A key without spaces and line ends, and a value of 64 bits.
pub record IsEntry (e : Entry) : Type 0 where
  pub no_space : IsPlain b' ' e.key
  pub no_newline : IsPlain b'\n' e.key
  pub bound : e.value ≤ 2 ^ 64 - 1

format-IsPlain : (sep n : ℕ) → ltb sep 48 ≡ true → IsPlain sep (format_uint n)
format-IsPlain sep n h =
    All-imp IsDigit (λ c. (c == sep) ≡ false) (λ c d. ground (arith, d, h)) (format_uint n)
      (format-digits n)

-- A line that the kernel writes has two words.
split-write_line :
    (e : Entry) → IsEntry e → split (write_line e) b' ' ≡ e.key ∷ format_uint e.value ∷ []
split-write_line e h =
    split-word b' ' e.key (format_uint e.value) h.no_space
    ∙ ap (λ x. e.key ∷ x) (split-last b' ' (format_uint e.value) (format-IsPlain b' ' e.value refl))

line-IsPlain : (e : Entry) → IsEntry e → IsPlain b'\n' (write_line e)
line-IsPlain e h =
    All-append (λ c. (c == b'\n') ≡ false) e.key (b' ' ∷ format_uint e.value) h.no_newline
      (refl, format-IsPlain b'\n' e.value refl)

-- A key-value line is read back.
pub parse_key_value-write_line :
    (e : Entry) → IsEntry e → parse_key_value (write_line e) ≡ ok (e.key, e.value)
unfolding parse_key_value
parse_key_value-write_line e h =
    rw (split-write_line e h, parse_uint_or_zero-format e.value h.bound) refl

value_in-write_file :
    (es : List Entry) (key : Bytes)
    → All IsEntry es
    → value_in key (split (write_file es) b'\n') ≡ ok (first_value es key)
unfolding value_in split_from
value_in-write_file [] key h = refl
value_in-write_file (e ∷ es) key h =
    rw
      (
        split-word b'\n' (write_line e) (write_file es) (line-IsPlain e h.0),
        split-write_line e h.0,
        parse_uint_or_zero-format e.value h.0.bound,
        value_in-write_file es key h.1,
      )
      (choose (bytes_eq e.key key))
  where
    choose :
        (b : Bool)
        → ◌≡◌ {A = Result Error ℕ}
            (if b then ok e.value else ok (first_value es key))
            (ok (if b then e.value else first_value es key))
    choose true = refl
    choose false = refl

-- From a file of lines with a key, a space and a value, where no key has a space or a line end and
-- each value fits 64 bits, GetValueByKey gives the value of the first line with the key, and 0 if
-- there is none.
pub get_value_by_key-write_file :
    (es : List Entry) (key : Bytes)
    → All IsEntry es
    → get_value_by_key (ok (write_file es)) key ≡ ok (first_value es key)
unfolding get_value_by_key
get_value_by_key-write_file es key h = value_in-write_file es key h
