-- ===== src/Devices.antt =====
-- devices/device.go: device types, permission sets and cgroup device rules. A Go string is the
-- list of its bytes. Proofs about permission sets are in the child module.
pub mod Permissions
use libcontainer.Prelude.{
  ℕ, Bool, true, false, ◌&&◌, ◌||◌, List, [], ◌∷◌, ◌++◌, bit_and, bit_or, bit_xor, ◌==◌,
  if◌then◌else◌, bytes_eq,
}
use libcontainer.Prelude.Int.{ℤ, negsuc}

-- `Wildcard = -1`
abbrev pub wildcard : ℤ
wildcard = negsuc 0

abbrev pub Permissions : Type 0
Permissions = List ℕ

abbrev pub device_read : ℕ
device_read = 1

abbrev pub device_write : ℕ
device_write = 2

abbrev pub device_mknod : ℕ
device_mknod = 4

-- the switch of `toSet` for one character
abbrev perm_bit : ℕ → ℕ → ℕ
perm_bit set perm =
    if perm == b'r'
    then bit_or set device_read
    else if perm == b'w'
    then bit_or set device_write
    else if perm == b'm'
    then bit_or set device_mknod
    else set

to_set_from : ℕ → Permissions → ℕ
to_set_from set [] = set
to_set_from set (perm ∷ p) = to_set_from (perm_bit set perm) p

unfoldable pub to_set : Permissions → ℕ
unfolding to_set_from
to_set p = to_set_from 0 p

unfoldable pub from_set : ℕ → Permissions
from_set set =
    (if bit_and set device_read == device_read then b'r' ∷ [] else [])
    ++ ((if bit_and set device_write == device_write then b'w' ∷ [] else [])
        ++ (if bit_and set device_mknod == device_mknod then b'm' ∷ [] else []))

-- Go's `&^`
abbrev pub and_not : ℕ → ℕ → ℕ
and_not a b = bit_xor a (bit_and a b)

unfoldable pub union : Permissions → Permissions → Permissions
union p o = from_set (bit_or (to_set p) (to_set o))

unfoldable pub difference : Permissions → Permissions → Permissions
difference p o = from_set (and_not (to_set p) (to_set o))

unfoldable pub intersection : Permissions → Permissions → Permissions
intersection p o = from_set (bit_and (to_set p) (to_set o))

unfoldable pub is_empty : Permissions → Bool
is_empty p = bytes_eq p []

unfoldable pub is_valid : Permissions → Bool
is_valid p = bytes_eq p (from_set (to_set p))

-- `type Type rune`
abbrev pub wildcard_device : ℕ
wildcard_device = b'a'

abbrev pub block_device : ℕ
block_device = b'b'

abbrev pub char_device : ℕ
char_device = b'c'

abbrev pub fifo_device : ℕ
fifo_device = b'p'

unfoldable pub type_is_valid : ℕ → Bool
type_is_valid t = t == wildcard_device || t == block_device || t == char_device || t == fifo_device

unfoldable pub can_mknod : ℕ → Bool
can_mknod t = t == block_device || t == char_device || t == fifo_device

unfoldable pub can_cgroup : ℕ → Bool
can_cgroup t = t == wildcard_device || t == block_device || t == char_device

pub record Rule : Type 0 where
  pub type : ℕ
  pub major : ℤ
  pub minor : ℤ
  pub permissions : Permissions
  pub allow : Bool
