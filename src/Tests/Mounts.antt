-- ===== src/Tests/Mounts.antt =====
-- The options of a mount at concrete inputs, with the values of the constants on Linux.
use libcontainer.Prelude.{◌^◌, List, [], ◌∷◌, ◌++◌, some, ◌≡◌, refl}
use libcontainer.Text.{Bytes, codes, has_prefix}
use libcontainer.Spec.Mounts.{
  MountConstants, AttrConstants, Mount, find, kind_of, take_options, parse_mount_options,
}
use libcontainer.Spec.Mounts.Created.{create_mount}
use libcontainer.Spec.Mounts.Created.Clean.{IsClean, IsMount, create_mount-IsMount}

abbrev linux : MountConstants
linux = record {
  rdonly = 1;
  nosuid = 2;
  nodev = 4;
  noexec = 8;
  synchronous = 16;
  remount = 32;
  mandlock = 64;
  dirsync = 128;
  nosymfollow = 256;
  noatime = 1024;
  nodiratime = 2048;
  bind_mount = 4096;
  rec_mount = 16384;
  silent = 32768;
  posixacl = 65536;
  unbindable = 2 ^ 17;
  private_mount = 2 ^ 18;
  slave = 2 ^ 19;
  shared = 2 ^ 20;
  relatime = 2 ^ 21;
  i_version = 2 ^ 23;
  strictatime = 2 ^ 24;
  lazytime = 2 ^ 25;
}

abbrev attrs : AttrConstants
attrs = record {
  attr_rdonly = 1;
  attr_nosuid = 2;
  attr_nodev = 4;
  attr_noexec = 8;
  attr_relatime = 0;
  attr_noatime = 16;
  attr_strictatime = 32;
  attr_atime = 112;
  attr_nodiratime = 128;
  attr_nosymfollow = 2 ^ 21;
}

abbrev options : List Bytes
options =
    codes "ro"
    ∷ codes "bind"
    ∷ codes "size=1"
    ∷ codes "rw"
    ∷ codes "rnoatime"
    ∷ codes "defaults"
    ∷ codes "rslave"
    ∷ []

abbrev below : Bytes → Bytes → Bytes
below dir path = dir ++ b'/' ∷ path

abbrev mount : Mount
mount = record {
  source = codes "/work/data";
  destination = codes "/mnt";
  device = codes "bind";
  flags = 4096;
  propagation_flags = 540672 ∷ [];
  values = codes "size=1,defaults";
  rec_attr = some (16, 112);
  extensions = 0;
}

mount_run :
    create_mount linux attrs below
      (codes "/work")
      (codes "/mnt")
      (codes "data")
      (codes "none")
      options
    ≡ some mount
unfolding create_mount parse_mount_options take_options kind_of find has_prefix
mount_run = refl

create_mount-IsMount_example :
    IsClean linux attrs mount
    × IsMount linux attrs below
        (codes "/work")
        (codes "/mnt")
        (codes "data")
        (codes "none")
        options
        mount
create_mount-IsMount_example =
    create_mount-IsMount linux attrs below (codes "/work") (codes "/mnt") (codes "data")
      (codes "none") options mount mount_run
