-- ===== src/Tests.antt =====
-- Runs of the models, and each stated property at a concrete input.
mod Devices
mod Users
mod Convert
mod Configs
mod Validate
mod Fs
mod Seccomp
mod Spec
mod Systemd
mod Fscommon
mod Annotations
mod Units
mod Cgroups
mod Mounts
mod Legacy
mod Profile
