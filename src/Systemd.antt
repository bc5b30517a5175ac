-- ===== src/Systemd.antt =====
-- cgroups/systemd: the properties of units that are sent to systemd. A value is a D-Bus variant of
-- the type that the code gives it.
pub mod Cpuset
pub mod Devices
pub mod Limits
pub mod Slices
pub mod Units
pub mod Legacy
use libcontainer.Prelude.{ℕ, Bool, List}
use libcontainer.Text.{Bytes}

-- `deviceAllowEntry` of cgroups/systemd/common.go
pub record DeviceAllowEntry : Type 0 where
  pub path : Bytes
  pub perms : Bytes

pub data Value : Type 0 where
  text mask : Bytes → Value
  number : ℕ → Value
  flag : Bool → Value
  entries : List DeviceAllowEntry → Value

-- `systemdDbus.Property`
pub record Property : Type 0 where
  pub name : Bytes
  pub value : Value

-- `newProp` of cgroups/systemd/common.go
abbrev pub new_prop : Bytes → Value → Property
new_prop name value = record { name = name; value = value }
