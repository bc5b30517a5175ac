-- ===== src/Tests/Profile.antt =====
-- A seccomp profile of a specification at a concrete input.
use libcontainer.Prelude.{[], ◌∷◌, none, some, ok, err, ◌≡◌, refl}
use libcontainer.Text.{codes}
use libcontainer.Spec.Mounts.{find}
use libcontainer.Spec.Profile.{
  SpecSeccomp, Seccomp, SpecSyscall, errno, allowed, mask_equal_to, convert_args, convert_archs,
  convert_names, convert_syscalls, convert_seccomp, setup_seccomp, bad_action,
}
use libcontainer.Spec.Profile.Expanded.{IsExpanded, setup_seccomp-IsExpanded}

abbrev clone_block : SpecSyscall
clone_block = record {
  names = codes "clone" ∷ codes "unshare" ∷ [];
  action = codes "SCMP_ACT_ALLOW";
  errno_ret = none;
  args = record { index = 0; value = 7; value_two = 0; op = codes "SCMP_CMP_MASKED_EQ" } ∷ [];
}

abbrev profile : SpecSeccomp
profile = record {
  default_action = codes "SCMP_ACT_ERRNO";
  default_errno_ret = some 38;
  architectures = codes "SCMP_ARCH_X86_64" ∷ [];
  flags = [];
  listener_path = [];
  listener_metadata = [];
  syscalls = clone_block ∷ [];
}

abbrev made : Seccomp
made = record {
  default_action = errno;
  architectures = codes "amd64" ∷ [];
  syscalls =
      record {
        name = codes "clone";
        action = allowed;
        errno_ret = none;
        args = record { index = 0; value = 7; value_two = 0; op = mask_equal_to } ∷ [];
      }
      ∷ record {
        name = codes "unshare";
        action = allowed;
        errno_ret = none;
        args = record { index = 0; value = 7; value_two = 0; op = mask_equal_to } ∷ [];
      }
      ∷ [];
  default_errno_ret = some 38;
  listener_path = [];
  listener_metadata = [];
}

made_run : setup_seccomp (some profile) ≡ ok (some made)
unfolding setup_seccomp convert_seccomp convert_syscalls convert_names convert_archs convert_args
    find
made_run = refl

unknown_action :
    setup_seccomp (some (record profile { default_action = codes "SCMP_ACT_NONE" }))
    ≡ err bad_action
unfolding setup_seccomp convert_seccomp convert_syscalls convert_names convert_archs convert_args
    find
unknown_action = refl

setup_seccomp-IsExpanded_example : IsExpanded profile made
setup_seccomp-IsExpanded_example = setup_seccomp-IsExpanded profile made made_run
