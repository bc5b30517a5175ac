-- ===== src/Lib.antt =====
-- libcontainer: container resource control, as models of the Go code with proofs.
--
-- The program sets up containers: it turns a configuration into writes to the control group file
-- system, device programs for the kernel, and the user that a process runs as. This development
-- models the parts that decide something and leaves out the calls of the kernel.
--
-- Prelude: shared names and lemmas. Prelude.Int has Go's signed integers over the native numbers,
--   Prelude.Fallible the pair of a value and an error as the sum `Result` with a monad.
-- Text: the parts of strings, bytes, bufio and strconv that the code calls, on lists of byte values
--   (ParseUint, ParseInt, FormatInt, Split, FieldsFunc, TrimSpace). Text is ASCII. Printing a number
--   runs on the number plus one as fuel, since each step divides it by ten.
-- Devices: devices/device.go. Device types, permission sets and rules.
-- Emulator: cgroups/devices/devices_emulator.go. The state is the default and the map of exceptions;
--   Go's map is an association list with one entry for a key. `apply` is Apply, with allow, deny,
--   add_rule and rm_rule; `transition` is Transition; Emulator.Listing reads devices.list.
-- Filter: cgroups/ebpf/devicefilter/devicefilter.go. The device program is a list of instructions
--   with jump targets. What the kernel makes of them is an interface, Filter.Machine, whose laws say
--   what each instruction does; an interpreter there meets it. Filter takes the emulator's rules, and
--   Filter.Decision compares the program's answer with the emulator's table.
-- Users: user/user.go. Files are the lines that the scanner gives, or the chunks of ReadLine.
-- Convert: cgroups/utils.go, the conversions from cgroup v1 to v2 values, with the wrap-around of
--   uint64 written out.
-- Namespaces: configs/namespaces_linux.go, the list of namespaces. Mappings: configs/config_linux.go,
--   the translation of ids by a user namespace, with the wrap-around of int64 written out.
-- Freezer: cgroups/fs/freezer.go, the states of the freezer as a run against a list of what the
--   kernel's file answers, with the writes as a trace. The loop of Set is on fuel of 1000 rounds, as in
--   the code; GetState has no bound in the code, and its model stops where the answers do.
-- Seccomp: seccomp/patchbpf/enosys_linux.go, the stub that is put before a seccomp program so that
--   system calls newer than the profile fail with ENOSYS. Instructions are a data type, the constants
--   of the kernel's headers and the answers of libseccomp are records, and the kernel's evaluation is
--   an interface in Seccomp.Machine, met there by an interpreter. Go visits a map in an order of its
--   own in each loop: the orders are arguments, one for each loop (`Orders`).
-- Fs: cgroups/fs/memory.go and cgroups/fs/cpu.go, the order in which limits are written. The files of
--   a group are an interface; Fs.Memory.Limits and Fs.Cpu.Bandwidth say when the kernel takes a value, whole
--   pages and the ranges of periods and quotas with it.
-- Spec: specconv/spec_linux.go. The store of device objects is a list and pointers are places in it,
--   since all configurations share the default devices. Spec.Devices is createDevices with the device
--   rules of a group, which Emulator takes; Spec.Owners is setupUserNamespace, over Mappings;
--   Spec.Kinds is the loop over the namespaces, Spec.Properties is initSystemdProps, Spec.Mounts has
--   the tables of mount options and parseMountOptions, over the bits of Prelude.Bits, with
--   createLibcontainerMount in Spec.Mounts.Created, and
--   Spec.Profile is SetupSeccomp with the tables of seccomp/config.go. The constants of the kernel, the
--   parser of D-Bus values, the conversion of floats and the mappings of a namespace to join are
--   arguments.
-- Fscommon: cgroups/fscommon/utils.go, the numbers and key-value lines of a group's files.
-- Cgroups: cgroups/utils.go. A control group is a tree, and what the kernel's rmdir does to it is an
--   interface, Cgroups.Kernel; RemovePaths is five rounds, each with a kernel of its own, since
--   processes come and go between them. Cgroups.Listing has the parsers of the kernel's files.
-- Systemd: cgroups/systemd. Systemd.Cpuset is RangeToBits of cpuset.go, over an interface of Go's big
--   numbers; Systemd.Devices is generateDeviceProperties of common.go, over the Emulator, with
--   /proc/devices, the scan of its lines and os.Stat as a record, and Systemd.Devices.Groups what a line
--   of /proc/devices says; Systemd.Limits turns limits and the
--   unified map into properties of a unit (common.go, v1.go, v2.go); Systemd.Slices is ExpandSlice and
--   the names of units; Systemd.Units is startUnit and stopUnit, with retryOnDisconnect of dbus.go,
--   against systemd and its connection as an argument. The jump back in startUnit is on fuel, of which
--   2 is enough; retryOnDisconnect has no bound in the code, and that the connection holds at some call
--   is a hypothesis. Systemd.Legacy is Set of the manager for
--   cgroup v1, with the calls of the freezer as events, and Systemd.Legacy.Paths its initPaths.
-- Validate: configs/validate, seven of the checks of a configuration, with what the host
--   answers as a record. They read the namespaces and the conversion of the swap limit.
-- Tests: runs of the models, and each result at a concrete input.
--
-- Errors are constructors without their texts. Not modelled: the calls of the operating system and of
-- D-Bus, the assembly and the loading of seccomp programs, Intel RDT, AppArmor, statistics of the
-- control groups, and the rest of an OCI specification: resources and hooks.
mod Prelude
pub mod Devices
pub mod Text
pub mod Emulator
pub mod Filter
pub mod Users
pub mod Convert
pub mod Namespaces
pub mod Mappings
pub mod Freezer
pub mod Validate
pub mod Seccomp
pub mod Spec
pub mod Fs
pub mod Systemd
pub mod Fscommon
pub mod Cgroups
mod Tests
