-- ===== src/Text.antt =====
-- Text as the list of its bytes, with the functions of Go's strings, bytes, strconv and bufio
-- packages that the modelled files call.
pub mod Decimal
pub mod Fields
pub mod Trim
pub mod Split
use Prim.Native.Char.{code}
use Prim.Native.String.{String}
use libcontainer.Prelude.{
  ℕ, zero, suc, ◌+◌, ◌-◌, ◌*◌, ◌/◌, ◌%◌, ◌^◌, Bool, true, false, ◌&&◌, ◌||◌, not, List, [], ◌∷◌,
  ◌++◌, ltb, leb, ◌==◌, if◌then◌else◌, bytes_eq, drop, length, Result, ok, err, ◌>>=◌, ◌≡◌, refl,
}
use libcontainer.Prelude.Int.{ℤ, pos, negsuc}

abbrev pub Bytes : Type 0
Bytes = List ℕ

-- the bytes of an ASCII literal
abbrev pub codes : String → Bytes
codes String.[] = []
codes (String.◌∷◌ c s) = code c ∷ codes s

-- An `io.Reader` under a `bufio.Scanner`: the lines it yields, and whether it ends by an error.
pub record Reader : Type 0 where
  pub lines : List Bytes
  pub fails : Bool

abbrev pub is_digit : ℕ → Bool
is_digit c = leb b'0' c && leb c b'9'

-- the errors of strconv
pub data NumError : Type 0 where
  syntax range : NumError

-- the loop of `strconv.ParseUint` in base 10; `most` is the largest value of the bit size
unfoldable pub scan_uint : ℕ → Bytes → ℕ → Result NumError ℕ
scan_uint most [] n = ok n
scan_uint most (c ∷ s) n =
    let rest = scan_uint most s (n * 10 + (c - b'0')) in
    if not (is_digit c)
    then err syntax
    else if ltb most (n * 10 + (c - b'0'))
    then err range
    else rest

-- `strconv.ParseUint(s, 10, bits)`
unfoldable pub parse_uint : ℕ → Bytes → Result NumError ℕ
unfolding scan_uint
parse_uint bits [] = err syntax
parse_uint bits (c ∷ s) = scan_uint (2 ^ bits - 1) (c ∷ s) 0

-- the range check of `strconv.ParseInt`, on the unsigned value
unfoldable pub signed : Bool → ℕ → ℕ → Result NumError ℤ
signed true bits zero = ok (pos 0)
signed true bits (suc n) = if ltb n (2 ^ (bits - 1)) then ok (negsuc n) else err range
signed false bits n = if ltb n (2 ^ (bits - 1)) then ok (pos n) else err range

-- `strconv.ParseInt(s, 10, bits)`; `strconv.Atoi` is this at 64 bits
unfoldable pub parse_int : ℕ → Bytes → Result NumError ℤ
unfolding parse_uint signed
parse_int bits [] = err syntax
parse_int bits (c ∷ s) =
    if c == b'-'
    then parse_uint bits s >>= signed true bits
    else if c == b'+'
    then parse_uint bits s >>= signed false bits
    else parse_uint bits (c ∷ s) >>= signed false bits

-- the digits of `n` in front of `out`
unfoldable pub write_digits : ℕ → ℕ → Bytes → Bytes
write_digits zero n out = out
write_digits (suc f) n out =
    let more = write_digits f (n / 10) ((b'0' + n % 10) ∷ out) in
    if ltb n 10 then (b'0' + n) ∷ out else more

-- `strconv.FormatUint(n, 10)`
unfoldable pub format_uint : ℕ → Bytes
unfolding write_digits
format_uint n = write_digits (suc n) n []

-- `strconv.FormatInt(n, 10)` and `strconv.Itoa`
unfoldable pub format_int : ℤ → Bytes
unfolding format_uint
format_int (pos n) = format_uint n
format_int (negsuc n) = b'-' ∷ format_uint (suc n)

-- a field read so far, unless it is empty
abbrev pub flush : Bytes → List Bytes → List Bytes
flush [] fs = fs
flush (c ∷ cs) fs = (c ∷ cs) ∷ fs

-- `strings.FieldsFunc` behind the start `cur` of a field
unfoldable pub fields_from : (ℕ → Bool) → Bytes → Bytes → List Bytes
fields_from sep cur [] = flush cur []
fields_from sep cur (c ∷ s) = elim (sep c) [
  | true ↦ flush cur (fields_from sep [] s)
  | false ↦ fields_from sep (cur ++ c ∷ []) s
]

abbrev pub fields_func : (ℕ → Bool) → Bytes → List Bytes
fields_func sep = fields_from sep []

-- `unicode.IsSpace` on ASCII
abbrev pub is_space : ℕ → Bool
is_space c = c == b' ' || (leb 9 c && leb c 13)

-- `bytes.Split` by one byte, behind the start `cur` of a part
unfoldable pub split_from : ℕ → Bytes → Bytes → List Bytes
split_from sep cur [] = cur ∷ []
split_from sep cur (c ∷ s) = elim (c == sep) [
  | true ↦ cur ∷ split_from sep [] s
  | false ↦ split_from sep (cur ++ c ∷ []) s
]

abbrev pub split : Bytes → ℕ → List Bytes
split s sep = split_from sep [] s

-- `bytes.TrimSpace`
unfoldable pub trim_left : Bytes → Bytes
trim_left [] = []
trim_left (c ∷ s) = let rest = trim_left s in if is_space c then rest else c ∷ s

unfoldable pub trim_right : Bytes → Bytes
trim_right [] = []
trim_right (c ∷ s) = elim (trim_right s) [
  | [] ↦ (if is_space c then [] else c ∷ [])
  | d ∷ ds ↦ c ∷ d ∷ ds
]

unfoldable pub trim_space : Bytes → Bytes
unfolding trim_left trim_right
trim_space s = trim_right (trim_left s)

-- `strings.HasPrefix`
unfoldable pub has_prefix : Bytes → Bytes → Bool
has_prefix s [] = true
has_prefix [] (p ∷ ps) = false
has_prefix (c ∷ s) (p ∷ ps) = c == p && has_prefix s ps

-- `strings.TrimPrefix`
abbrev pub trim_prefix : Bytes → Bytes → Bytes
trim_prefix s p = if has_prefix s p then drop (length p) s else s

-- `strings.TrimSuffix` by a suffix that is not empty
unfoldable pub trim_suffix : Bytes → Bytes → Bytes
trim_suffix [] suffix = []
trim_suffix (c ∷ s) suffix =
    let rest = trim_suffix s suffix in if bytes_eq (c ∷ s) suffix then [] else c ∷ rest

tests :
    (parse_int 64 (codes "-12") ≡ ok (negsuc 11))
    × (parse_uint 32 (codes "4294967296") ≡ err range)
    × (format_int (negsuc 119) ≡ codes "-120")
    × (fields_func is_space (codes " a  bc ") ≡ codes "a" ∷ codes "bc" ∷ [])
    × (split (codes "a::b") b':' ≡ codes "a" ∷ [] ∷ codes "b" ∷ [])
    × (trim_space (codes "  a b\n") ≡ codes "a b")
unfolding parse_int format_int fields_from split_from trim_space
tests = (refl, refl, refl, refl, refl, refl)
