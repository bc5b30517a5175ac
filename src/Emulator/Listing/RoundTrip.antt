-- ===== src/Emulator/Listing/RoundTrip.antt =====
-- What `parseLine` reads from a printed rule, and what `EmulatorFromList` reads from a listing.
use libcontainer.Prelude.{
  ℕ, ◌^◌, ◌<◌, Bool, false, [], ◌∷◌, some, ◌≡◌, ◌≢◌, refl, ap, ◌∙◌, ◌⊎◌, inl, inr, arith, bytes_eq,
  All, ok, subst,
}
use libcontainer.Prelude.Int.{ℤ, pos}
use libcontainer.Text.{Bytes, codes, format_uint, fields_func}
use libcontainer.Text.Decimal.{IsDigit, format-digits, format-ne-nil, parse-format}
use libcontainer.Text.Fields.{Plain, fields-word, fields-last}
use libcontainer.Devices.{Permissions, to_set, from_set, wildcard}
use libcontainer.Devices.Permissions.{IsCanonical, is_valid_iff, is_empty_iff}
use libcontainer.Emulator.{DeviceMeta, Error, as_rule}
use libcontainer.Emulator.Apply.{IsCgroupNode}
use libcontainer.Emulator.Loops.{entry}
use libcontainer.Emulator.Listing.{
  is_separator, parse_node, parse_number, parse_access, parse_fields, parse_line, number_string,
  cgroup_string,
}

-- A device number that a rule can name: `*`, or 32 bits.
abbrev pub IsDeviceNumber : ℤ → Type 0
IsDeviceNumber n = (n ≡ wildcard) ⊎ ((k : ℕ) × (n ≡ pos k) × (k < 2 ^ 32))

digits-Plain : (s : Bytes) → All IsDigit s → Plain is_separator s
digits-Plain [] h = tt
digits-Plain (c ∷ s) h = (ground arith, digits-Plain s h.1)

number-Plain : (n : ℤ) → IsDeviceNumber n → Plain is_separator (number_string n)
unfolding number_string
number-Plain n (inl e) = rw e (refl, tt)
number-Plain n (inr (k, e, h)) = rw e (digits-Plain (format_uint k) (format-digits k))

number-ne-nil : (n : ℤ) → IsDeviceNumber n → number_string n ≢ []
unfolding number_string
number-ne-nil n (inl e) = rw e (λ h. cc)
number-ne-nil n (inr (k, e, h)) = rw e (format-ne-nil k)

star-not_digits : (s : Bytes) → All IsDigit s → bytes_eq s (codes "*") ≡ false
star-not_digits [] h = refl
star-not_digits (c ∷ s) h = ground arith

parse-number : (e : Error) (n : ℤ) → IsDeviceNumber n → parse_number e (number_string n) ≡ ok n
unfolding number_string parse_number
parse-number e n (inl h) = rw h refl
parse-number e n (inr (k, h, lt)) =
    rw (h, star-not_digits (format_uint k) (format-digits k), parse-format 32 k (omega arith))

from_set-Plain : (s : ℕ) → Plain is_separator (from_set s)
unfolding from_set
from_set-Plain s = ground arith

perms-Plain : (p : Permissions) → IsCanonical p → Plain is_separator p
perms-Plain p h = subst (Plain is_separator) h (from_set-Plain (to_set p))

parse-access : (p : Permissions) → IsCanonical p → p ≢ [] → parse_access p ≡ ok p
unfolding parse_access
parse-access p h ne = ground (arith, is_valid_iff p, is_empty_iff p)

fields-cgroup_string :
    (t : ℕ) (i j : ℤ) (p : Permissions) (action : Bool)
    → IsCgroupNode t
    → IsDeviceNumber i
    → IsDeviceNumber j
    → IsCanonical p
    → p ≢ []
    → fields_func is_separator
        (cgroup_string (as_rule action (record { node = t; major = i; minor = j }) p))
      ≡ (t ∷ []) ∷ number_string i ∷ number_string j ∷ p ∷ []
unfolding cgroup_string
fields-cgroup_string t i j p action ht hi hj hp ne =
    fields-word is_separator (t ∷ []) b' ' _ (node-Plain ht) (λ e. cc) refl
    ∙ ap (◌∷◌ (t ∷ [])) (
        fields-word is_separator (number_string i) b':' _ (number-Plain i hi) (number-ne-nil i hi)
          refl
        ∙ ap (◌∷◌ (number_string i)) (
            fields-word is_separator (number_string j) b' ' _ (number-Plain j hj)
              (number-ne-nil j hj) refl
            ∙ ap (◌∷◌ (number_string j)) (fields-last is_separator p (perms-Plain p hp) ne)))
  where
    node-Plain : IsCgroupNode t → Plain is_separator (t ∷ [])
    node-Plain h = ground arith

parse-node : (t : ℕ) → IsCgroupNode t → parse_node (t ∷ []) ≡ ok (some t)
unfolding parse_node
parse-node t h = ground arith

-- `parseLine` reads back what `CgroupString` prints, for a block or character device, numbers
-- that are `*` or of 32 bits, and permissions that are valid and not empty.
pub parse_line-cgroup_string :
    (m : DeviceMeta) (p : Permissions) (action : Bool)
    → IsCgroupNode m.node
    → IsDeviceNumber m.major
    → IsDeviceNumber m.minor
    → IsCanonical p
    → p ≢ []
    → parse_line (cgroup_string (as_rule action m p)) ≡ ok (some (entry m p))
unfolding parse_line
parse_line-cgroup_string m p action ht hi hj hp ne =
    rw (fields-cgroup_string m.node m.major m.minor p action ht hi hj hp ne) (
      unfold parse_fields in
      rw (
        parse-node m.node ht,
        parse-number _ m.major hi,
        parse-number _ m.minor hj,
        parse-access p hp ne,
      ))
