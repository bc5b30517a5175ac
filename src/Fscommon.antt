-- ===== src/Fscommon.antt =====
-- cgroups/fscommon/utils.go: numbers and key-value lines of the files of a control group. What
-- `cgroups.ReadFile` gives is an argument. Of an error only what it is about is kept.
pub mod Numbers
use libcontainer.Prelude.{
  ℕ, zero, suc, ◌+◌, ◌-◌, ◌^◌, Bool, true, false, ◌&&◌, List, [], ◌∷◌, ◌++◌, ltb, ◌==◌, length,
  bytes_eq, if◌then◌else◌, Result, ok, err, ◌>>=◌,
}
use libcontainer.Prelude.Int.{ℤ, pos, negsuc}
use libcontainer.Text.{
  Bytes, codes, NumError, syntax, range, parse_uint, parse_int, split, trim_space, has_prefix,
}

pub data Error : Type 0 where
  read_failed not_key_value : Error
  invalid_number : NumError → Error

-- `ParseInt` gives the least value with its range error for a number below that
abbrev pub below_range : Bytes → NumError → Bool
below_range s syntax = false
below_range s range = has_prefix s (codes "-")

-- the part of `ParseUint` behind the error of the unsigned number
abbrev pub negative_as_zero : Bytes → NumError → Result NumError ℤ → Result NumError ℕ
negative_as_zero s e (ok (pos n)) = err e
negative_as_zero s e (ok (negsuc n)) = ok 0
negative_as_zero s e (err f) = if below_range s f then ok 0 else err e

abbrev pub or_negative : Bytes → Result NumError ℤ → Result NumError ℕ → Result NumError ℕ
or_negative s signed_value (ok n) = ok n
or_negative s signed_value (err e) = negative_as_zero s e signed_value

-- `ParseUint` in base 10
unfoldable pub parse_uint_or_zero : ℕ → Bytes → Result NumError ℕ
parse_uint_or_zero bits s = or_negative s (parse_int bits s) (parse_uint bits s)

abbrev pub number {ℓ} : {A : Type ℓ} → Result NumError A → Result Error A
number (ok a) = ok a
number (err e) = err (invalid_number e)

-- `ParseKeyValue`; three parts of `SplitN` are three or more of `Split`
abbrev pub key_value : List Bytes → Result Error (Bytes × ℕ)
key_value (key ∷ value ∷ []) = number (parse_uint_or_zero 64 value) >>= λ n. ok (key, n)
key_value _ = err not_key_value

unfoldable pub parse_key_value : Bytes → Result Error (Bytes × ℕ)
parse_key_value t = key_value (split t b' ')

-- one line of `GetValueByKey`, in front of what the later lines give
abbrev pub line_value : Bytes → List Bytes → Result Error ℕ → Result Error ℕ
line_value key (k ∷ value ∷ []) later =
    if bytes_eq k key then number (parse_uint_or_zero 64 value) else later
line_value key _ later = later

unfoldable pub value_in : Bytes → List Bytes → Result Error ℕ
value_in key [] = ok 0
value_in key (line ∷ rest) = line_value key (split line b' ') (value_in key rest)

unfoldable pub get_value_by_key : Result Error Bytes → Bytes → Result Error ℕ
unfolding value_in
get_value_by_key content key = content >>= λ text. value_in key (split text b'\n')

abbrev pub max_uint64 : ℕ
max_uint64 = 2 ^ 64 - 1

abbrev pub max_int64 : ℕ
max_int64 = 2 ^ 63 - 1

unfoldable pub get_cgroup_param_string : Result Error Bytes → Result Error Bytes
get_cgroup_param_string content = content >>= λ text. ok (trim_space text)

unfoldable pub get_cgroup_param_uint : Result Error Bytes → Result Error ℕ
unfolding get_cgroup_param_string
get_cgroup_param_uint content = get_cgroup_param_string content >>= λ contents.
    if bytes_eq (trim_space contents) (codes "max")
    then ok max_uint64
    else number (parse_uint_or_zero 64 (trim_space contents))

unfoldable pub get_cgroup_param_int : Result Error Bytes → Result Error ℤ
get_cgroup_param_int content = content >>= λ text.
    if bytes_eq (trim_space text) (codes "max")
    then ok (pos max_int64)
    else number (parse_int 64 (trim_space text))
