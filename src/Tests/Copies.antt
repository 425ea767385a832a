-- ===== src/Tests/Copies.antt =====
-- The host names of names that a host cannot take.
use btrfs_peek.Prelude.{true, false, ascii, All}
use btrfs_peek.Copy.{host_name}
use btrfs_peek.Copy.Components.{
  IsComponent, IsAllowed, EndsWell, devices, NamesDevice, host_name-IsComponent,
  host_name-IsWindowsName,
}

host_name-IsComponent_example : IsComponent (host_name false (ascii "../etc"))
host_name-IsComponent_example = host_name-IsComponent false (ascii "../etc")

host_name-IsWindowsName_example :
    All IsAllowed (host_name true (ascii "com1.txt"))
    × EndsWell (host_name true (ascii "com1.txt"))
    × All (λ d. ¬ NamesDevice d (host_name true (ascii "com1.txt"))) devices
host_name-IsWindowsName_example = host_name-IsWindowsName (ascii "com1.txt")
