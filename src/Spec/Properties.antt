-- ===== src/Spec/Properties.antt =====
-- `checkPropertyName`, `convertSecToUSec` and `initSystemdProps` of specconv/spec_linux.go. The
-- parser of D-Bus and the conversion of a floating-point number are arguments. Go visits the
-- annotations in any order; they are a list here.
pub mod Names
pub mod Panics
use libcontainer.Prelude.{
  ℕ, suc, ◌+◌, ◌*◌, ◌-◌, ◌%◌, ◌^◌, Bool, true, false, ◌&&◌, ◌||◌, not, List, [], ◌∷◌, ◌++◌, Option,
  none, some, ltb, leb, ◌==◌, length, bytes_eq, if◌then◌else◌, Result, ok, err, ◌>>=◌, drop,
}
use libcontainer.Prelude.Int.{ℤ, pos, negsuc}
use libcontainer.Text.{Bytes, codes, has_prefix, trim_prefix, trim_suffix}
use libcontainer.Spec.{
  Error, short_property_name, odd_property_name, bad_property_value, not_a_number, index_panic,
  Annotation,
}

-- `dbus.Variant` by its signature: y, n, q, i, u, x, t, d, or any other
pub data Variant : Type 0 where
  byte uint16 uint32 uint64 double : ℕ → Variant
  int16 int32 int64 : ℤ → Variant
  other : Variant

pub record Property : Type 0 where
  pub name : Bytes
  pub value : Variant

abbrev pub is_letter : ℕ → Bool
is_letter ch = (leb b'A' ch && leb ch b'Z') || (leb b'a' ch && leb ch b'z')

unfoldable pub letters_only : Bytes → Bool
letters_only [] = true
letters_only (ch ∷ s) = is_letter ch && letters_only s

-- `checkPropertyName`; `ok true` is a nil error
unfoldable pub check_property_name : Bytes → Result Error Bool
unfolding letters_only
check_property_name s =
    if ltb (length s) 3
    then err short_property_name
    else if letters_only s
    then ok true
    else err odd_property_name

-- the conversion of a signed number to uint64
abbrev pub to_uint64 : ℤ → ℕ
to_uint64 (pos n) = n % 2 ^ 64
to_uint64 (negsuc n) = (2 ^ 64 - suc n) % 2 ^ 64

abbrev pub usec : ℕ → Variant
usec sec = uint64 (sec * 1000000 % 2 ^ 64)

-- `convertSecToUSec`; `float_usec` is `uint64(f * 1000000)` on the bits of a float64
unfoldable pub convert_sec_to_usec : (ℕ → ℕ) → Variant → Result Error Variant
convert_sec_to_usec float_usec (byte n) = ok (usec n)
convert_sec_to_usec float_usec (int16 z) = ok (usec (to_uint64 z))
convert_sec_to_usec float_usec (uint16 n) = ok (usec n)
convert_sec_to_usec float_usec (int32 z) = ok (usec (to_uint64 z))
convert_sec_to_usec float_usec (uint32 n) = ok (usec n)
convert_sec_to_usec float_usec (int64 z) = ok (usec (to_uint64 z))
convert_sec_to_usec float_usec (uint64 n) = ok (usec n)
convert_sec_to_usec float_usec (double bits) = ok (uint64 (float_usec bits))
convert_sec_to_usec float_usec other = err not_a_number

unfoldable pub last_byte : Bytes → Option ℕ
last_byte [] = none
last_byte (c ∷ []) = some c
last_byte (c ∷ d ∷ s) = last_byte (d ∷ s)

abbrev pub key_prefix : Bytes
key_prefix = codes "org.systemd.property."

abbrev pub sec_suffix : Bytes
sec_suffix = codes "Sec"

abbrev pub parsed : Option Variant → Result Error Variant
parsed none = err bad_property_value
parsed (some v) = ok v

abbrev pub with_property : Option Property → List Property → List Property
with_property none sp = sp
with_property (some p) sp = p ∷ sp

module _ (parse_variant : Bytes → Option Variant) (float_usec : ℕ → ℕ) where
  -- the part under a "Sec" suffix, with the byte before it
  unfoldable pub sec_property : Bytes → Bytes → Option ℕ → Variant → Result Error (Option Property)
  sec_property name trim_name none value = err index_panic
  sec_property name trim_name (some ch) value =
      let converted = convert_sec_to_usec float_usec value in
      if leb b'a' ch && leb ch b'z'
      then (converted >>= λ v. ok (some (record { name = trim_name ++ codes "USec"; value = v })))
      else ok (some (record { name = name; value = value }))

  -- the property of a name that was checked, and its value
  unfoldable pub renamed : Bytes → Variant → Result Error (Option Property)
  unfolding sec_property trim_suffix last_byte
  renamed name value =
      let trim_name = trim_suffix name sec_suffix in
      if ltb (length trim_name) (length name)
      then sec_property name trim_name (last_byte trim_name) value
      else ok (some (record { name = name; value = value }))

  -- one round of the loop of `initSystemdProps`; `none` where it goes on without a property
  unfoldable pub property_of : Annotation → Result Error (Option Property)
  unfolding renamed check_property_name
  property_of a =
      let name = trim_prefix a.key key_prefix in
      let result = do
        checked ← check_property_name name
        value ← parsed (parse_variant a.value)
        renamed name value
      in if length name == length a.key then ok none else result

  unfoldable pub init_systemd_props : List Annotation → Result Error (List Property)
  unfolding property_of
  init_systemd_props [] = ok []
  init_systemd_props (a ∷ rest) = do
    p ← property_of a
    sp ← init_systemd_props rest
    ok (with_property p sp)
