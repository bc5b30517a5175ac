-- ===== src/Systemd/Limits.antt =====
-- cgroups/systemd/common.go, v1.go and v2.go: the limits of a group as properties of a systemd unit.
-- The version of systemd is an argument, and so are big numbers and the host's devices. Go visits
-- the unified map in any order; it is a list here.
pub mod Rounding
pub mod Unified
use libcontainer.Prelude.{
  ℕ, zero, suc, ◌+◌, ◌-◌, ◌*◌, ◌/◌, ◌%◌, ◌^◌, Bool, true, false, ◌&&◌, ◌||◌, not, List, [], ◌∷◌,
  ◌++◌, Option, none, some, any, ◌==◌, ltb, bytes_eq, if◌then◌else◌, Result, ok, err, ◌>>=◌,
}
use libcontainer.Prelude.Int.{ℤ, pos, negsuc, eq_ℤ, ltb_ℤ}
use libcontainer.Text.{
  Bytes, codes, NumError, parse_int, parse_uint, is_space, fields_func, trim_space,
}
use libcontainer.Devices.{Rule}
use libcontainer.Convert as Convert
use libcontainer.Convert.{convert_memory_swap}
use libcontainer.Systemd.{Property, Value, new_prop, number, mask}
use libcontainer.Systemd.Cpuset as Cpuset
use libcontainer.Systemd.Cpuset.{BigInt, range_to_bits}
use libcontainer.Systemd.Devices as Devices
use libcontainer.Systemd.Devices.{Host, generate_device_properties}

pub data Error : Type 0 where
  slash_in_key no_controller wrong_fields : Error
  bad_number : NumError → Error
  bad_range : Cpuset.Error → Error
  bad_swap : Convert.Error → Error
  bad_devices : Devices.Error → Error

-- the fields of `configs.Resources` that become properties
pub record Resources : Type 0 where
  pub skip_devices : Bool
  pub devices : List Rule
  pub memory : ℤ
  pub memory_reservation : ℤ
  pub memory_swap : ℤ
  pub cpu_shares : ℕ
  pub cpu_weight : ℕ
  pub cpu_quota : ℤ
  pub cpu_period : ℕ
  pub blkio_weight : ℕ
  pub pids_limit : ℤ
  pub cpuset_cpus : Bytes
  pub cpuset_mems : Bytes
  pub unified : List (Bytes × Bytes)

-- `uint64(x)` of an int64
abbrev pub to_uint64 : ℤ → ℕ
to_uint64 (pos n) = n
to_uint64 (negsuc n) = 2 ^ 64 - suc n

abbrev pub max_uint64 : ℕ
max_uint64 = 2 ^ 64 - 1

-- `defCPUQuotaPeriod`
abbrev pub default_period : ℕ
default_period = 100000

abbrev pub rounded : ℕ → ℕ
rounded c = if not (c % 10000 == 0) then (c / 10000 + 1) * 10000 % 2 ^ 64 else c

-- the quota for each second; `max_uint64` is systemd's USEC_INFINITY
unfoldable pub per_second : ℤ → ℕ → ℕ
per_second (pos zero) period = max_uint64
per_second (pos (suc q)) period =
    rounded (suc q * 1000000 % 2 ^ 64 / (if period == 0 then default_period else period))
per_second (negsuc q) period = max_uint64

-- `addCpuQuota`: the properties that it appends
unfoldable pub cpu_quota_properties : ℤ → ℤ → ℕ → List Property
cpu_quota_properties version quota period =
    (if not (period == 0) && not (ltb_ℤ version (pos 242))
      then new_prop (codes "CPUQuotaPeriodUSec") (number period) ∷ []
      else [])
    ++ (if not (eq_ℤ quota (pos 0)) || not (period == 0)
        then new_prop (codes "CPUQuotaPerSecUSec") (number (per_second quota period)) ∷ []
        else [])

abbrev pub ranged : Bytes → Result Cpuset.Error Bytes → Result Error (List Property)
ranged name (err e) = err (bad_range e)
ranged name (ok bits) = ok (new_prop name (mask bits) ∷ [])

-- a number, or "max"
abbrev pub limit : Bytes → Bytes → Result NumError ℕ → Result Error (List Property)
limit name v n =
    if bytes_eq v (codes "max")
    then ok (new_prop name (number max_uint64) ∷ [])
    else elim n [ err e ↦ err (bad_number e) | ok k ↦ ok (new_prop name (number k) ∷ []) ]

abbrev pub weight : Result NumError ℕ → Result Error (List Property)
weight (err e) = err (bad_number e)
weight (ok n) = ok (new_prop (codes "CPUWeight") (number n) ∷ [])

-- the quota of "cpu.max"
abbrev pub quota_of : Bytes → Result Error ℤ
quota_of s =
    if bytes_eq s (codes "max")
    then ok (pos 0)
    else elim (parse_int 64 s) [ err e ↦ err (bad_number e) | ok z ↦ ok z ]

abbrev pub period_of : Bytes → Result Error ℕ
period_of s = elim (parse_uint 64 s) [ err e ↦ err (bad_number e) | ok n ↦ ok n ]

abbrev pub cpu_max : ℤ → List Bytes → Result Error (List Property)
cpu_max version (q ∷ []) =
    quota_of q >>= λ quota. ok (cpu_quota_properties version quota default_period)
cpu_max version (q ∷ p ∷ []) =
    quota_of q >>= λ quota. period_of p >>= λ period. ok (cpu_quota_properties version quota period)
cpu_max version _ = err wrong_fields

-- the property of a memory limit, or `none`
abbrev pub memory_name : Bytes → Option Bytes
memory_name k =
    if bytes_eq k (codes "memory.high")
    then some (codes "MemoryHigh")
    else if bytes_eq k (codes "memory.low")
    then some (codes "MemoryLow")
    else if bytes_eq k (codes "memory.min")
    then some (codes "MemoryMin")
    else if bytes_eq k (codes "memory.max")
    then some (codes "MemoryMax")
    else if bytes_eq k (codes "memory.swap.max")
    then some (codes "MemorySwapMax")
    else none

abbrev pub contains_byte : ℕ → Bytes → Bool
contains_byte c s = any (λ x. x == c) s

module _ {B : Type 0} (big : BigInt B) where
  -- the cases "cpuset.cpus" and "cpuset.mems"
  abbrev pub cpuset_property : ℤ → Bytes → Bytes → Result Error (List Property)
  cpuset_property version name v = ranged name (range_to_bits big v) >>= λ props.
      ok (if ltb_ℤ version (pos 244) then [] else props)

  -- the cases below the ones for the processor
  abbrev pub other_property : Option Bytes → Bytes → Bytes → Result Error (List Property)
  other_property (some name) k v = limit name v (parse_uint 64 v)
  other_property none k v =
      if bytes_eq k (codes "pids.max") then limit (codes "TasksMax") v (parse_uint 64 v) else ok []

  -- the switch of `unifiedResToSystemdProps`, on a value without spaces around it
  unfoldable pub key_properties : ℤ → Bytes → Bytes → Result Error (List Property)
  key_properties version k v =
      if bytes_eq k (codes "cpu.max")
      then cpu_max version (fields_func is_space v)
      else if bytes_eq k (codes "cpu.weight")
      then weight (parse_uint 64 v)
      else if bytes_eq k (codes "cpuset.cpus")
      then cpuset_property version (codes "AllowedCPUs") v
      else if bytes_eq k (codes "cpuset.mems")
      then cpuset_property version (codes "AllowedMemoryNodes") v
      else other_property (memory_name k) k v

  unfoldable pub unified_property : ℤ → Bytes × Bytes → Result Error (List Property)
  unified_property version (k, v) =
      if contains_byte b'/' k
      then err slash_in_key
      else if not (contains_byte b'.' k)
      then err no_controller
      else key_properties version k (trim_space v)

  -- `unifiedResToSystemdProps`
  unfoldable pub unified_properties : ℤ → List (Bytes × Bytes) → Result Error (List Property)
  unified_properties version [] = ok []
  unified_properties version (kv ∷ res) = do
    props ← unified_property version kv
    more ← unified_properties version res
    ok (props ++ more)

  abbrev pub range_property : Bytes → Bytes → Result Error (List Property)
  range_property name s = if bytes_eq s [] then ok [] else ranged name (range_to_bits big s)

  -- `addCpuset`
  unfoldable pub cpuset_properties : ℤ → Bytes → Bytes → Result Error (List Property)
  cpuset_properties version cpus mems =
      if bytes_eq cpus [] && bytes_eq mems []
      then ok []
      else if ltb_ℤ version (pos 244)
      then ok []
      else (range_property (codes "AllowedCPUs") cpus >>= λ a.
          range_property (codes "AllowedMemoryNodes") mems >>= λ b. ok (a ++ b))

  abbrev pub if_set : Bytes → ℤ → List Property
  if_set name z = if eq_ℤ z (pos 0) then [] else new_prop name (number (to_uint64 z)) ∷ []

  abbrev pub if_not_zero : Bytes → ℕ → List Property
  if_not_zero name n = if n == 0 then [] else new_prop name (number n) ∷ []

  abbrev pub tasks_max : ℤ → List Property
  tasks_max limit =
      if ltb_ℤ (pos 0) limit || eq_ℤ limit (negsuc 0)
      then new_prop (codes "TasksMax") (number (to_uint64 limit)) ∷ []
      else []

  abbrev pub device_properties : Host → ℤ → Resources → Result Error (List Property)
  device_properties h version r =
      elim (generate_device_properties h version r.skip_devices r.devices) [
        | err e ↦ err (bad_devices e)
        | ok props ↦ ok props
      ]

  abbrev pub swap_property : Result Convert.Error ℤ → Result Error (List Property)
  swap_property (err e) = err (bad_swap e)
  swap_property (ok swap) = ok (if_set (codes "MemorySwapMax") swap)

  -- `genV1ResourcesProperties`
  unfoldable pub gen_v1_resources_properties : Host → ℤ → Resources → Result Error (List Property)
  gen_v1_resources_properties h version r = do
    devices ← device_properties h version r
    cpuset ← cpuset_properties version r.cpuset_cpus r.cpuset_mems
    ok (
        devices
        ++ (if_set (codes "MemoryLimit") r.memory
            ++ (if_not_zero (codes "CPUShares") r.cpu_shares
                ++ (cpu_quota_properties version r.cpu_quota r.cpu_period
                    ++ (if_not_zero (codes "BlockIOWeight") r.blkio_weight
                        ++ (tasks_max r.pids_limit ++ cpuset))))))

  -- `genV2ResourcesProperties`
  unfoldable pub gen_v2_resources_properties : Host → ℤ → Resources → Result Error (List Property)
  gen_v2_resources_properties h version r = do
    devices ← device_properties h version r
    swap ← swap_property (convert_memory_swap r.memory_swap r.memory)
    cpuset ← cpuset_properties version r.cpuset_cpus r.cpuset_mems
    unified ← unified_properties version r.unified
    ok (
        devices
        ++ (if_set (codes "MemoryMax") r.memory
            ++ (if_set (codes "MemoryLow") r.memory_reservation
                ++ (swap
                    ++ (if_not_zero (codes "CPUWeight") r.cpu_weight
                        ++ (cpu_quota_properties version r.cpu_quota r.cpu_period
                            ++ (tasks_max r.pids_limit ++ (cpuset ++ unified))))))))
