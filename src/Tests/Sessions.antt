-- ===== src/Tests/Sessions.antt =====
-- Sessions of the service with small hosts.
use btrfs_peek.Prelude.{
  ◌≤◌, ◌≡◌, refl, ◌↔◌, true, none, some, [], ◌∷◌, ◌++◌, arith, ok, err, ascii, strip_prefix, length,
  take, drop, length-take, ◌==◌, if◌then◌else◌, all_digits, helper_missing,
}
use btrfs_peek.Disk.Bytes.{Bytes, u16_at, u32_at, u64_at, bytes, from_le_bytes, to_le_bytes}
use btrfs_peek.Disk.External.{eq_bytes}
use btrfs_peek.Disk.Superblocks.{
  is_power_of_two, before_zero, check_crc32c, check_checksum, read_fields, check_sizes,
  parse_superblock,
}
use btrfs_peek.Tests.Parsers.{external, superblock_with}
use btrfs_peek.Dev.{Device, got, read_loop}
use btrfs_peek.Helper.Wire.{read_byte, read_exact, read_u32, write_all, respond}
use btrfs_peek.Helper.Paths.{split_once_at, number_ok, partition_path_ok}
use btrfs_peek.Tests.Devices.{device, contents, attempt-fits}
use btrfs_peek.Helper.Versions.{Text}
use btrfs_peek.Helper.Updates.{up_to_date}
use btrfs_peek.Helper.Wire.{frame, status_ok}
use btrfs_peek.Helper.Wire.Transfers.{conn_of}
use btrfs_peek.Helper.Paths.Shapes.{IsPartition}
use btrfs_peek.Helper.Partitions.{opening_of, Files, open_partition}
use btrfs_peek.Helper.Partitions.Granted.{
  HasSuperblock, host_of, open_partition-HasSuperblock, Grants, serve_client-IsPartitionDevice,
}
use btrfs_peek.Helper.Server.{
  max_path, serve_op, serve_open, Host, Outcome, succeeded, failed_with, Refusal, path_not_found,
  serve_loop, serve_client,
}
use btrfs_peek.Helper.Server.Answers.{session_of}
use btrfs_peek.Helper.Server.Steps.{ReadsFit, Serves}
use btrfs_peek.Helper.Server.Serving.{serve_client-Serves}
use btrfs_peek.Helper.Client.{open_bytes, open_device, read_bytes, read_at}
use btrfs_peek.Helper.Client.RoundTrip.{read_at-serve_loop, open_device-serve_loop}
use btrfs_peek.Tests.Updates.{release}

-- Its files are byte lists: the path `a` names one, and no other path is known.
abbrev open_a : Text → Outcome Refusal Bytes
open_a (c ∷ []) =
    if c == b'a' then succeeded (4 ∷ 5 ∷ 6 ∷ 7 ∷ []) else failed_with (path_not_found (ascii "no"))
open_a _ = failed_with (path_not_found (ascii "no"))

abbrev small : Host
small = record {
  File = Bytes;
  open_path = open_a;
  read_file = λ f off len. succeeded (take len (drop off f));
  run_update = λ n. succeeded (up_to_date release);
  is_utf8 = λ p. true;
  version = ascii "1.4.9";
}

small-ReadsFit : ReadsFit small
small-ReadsFit f off len d e = ground (arith, length-take len (drop off f), e)

-- The greeting, `OPEN a`, `READ` of two bytes at 1, `UPDATE`, and an unknown operation.
abbrev sent : Bytes
sent = 1 ∷ (open_bytes (b'a' ∷ []) ++ (read_bytes 1 2 ++ (3 ∷ 9 ∷ [])))

serve_client-Serves_example :
    Serves small
      (record { file = none; updates = 0; conn = conn_of true sent [] 1000 })
      (serve_client small (conn_of true sent [] 1000))
serve_client-Serves_example = serve_client-Serves small small-ReadsFit (conn_of true sent [] 1000)

read_at-serve_loop_example :
    (serve_loop small 2 (
        session_of small
          (some (4 ∷ 5 ∷ 6 ∷ 7 ∷ []))
          0
          (conn_of true (read_bytes 1 2 ++ (3 ∷ [])) [] 100))
      ≡ serve_loop small 1 (
          session_of small
            (some (4 ∷ 5 ∷ 6 ∷ 7 ∷ []))
            0
            (conn_of true (3 ∷ []) (frame status_ok (5 ∷ 6 ∷ [])) 93)))
    × (read_at (λ b. b) 2 1 (conn_of true (frame status_ok (5 ∷ 6 ∷ []) ++ []) [] 50)
        ≡ (ok (5 ∷ 6 ∷ []), conn_of true [] (read_bytes 1 2) 37))
read_at-serve_loop_example =
    read_at-serve_loop (λ b. b) true small true 1 (4 ∷ 5 ∷ 6 ∷ 7 ∷ []) 1 2 (5 ∷ 6 ∷ [])
      (omega arith) refl (omega arith) (3 ∷ []) [] 0 100 (omega arith) [] [] 50 (omega arith)

open_device-serve_loop_example :
    (answer : Bytes) × (serve_loop small 2
        (session_of small none 0 (conn_of true (open_bytes (b'b' ∷ []) ++ (3 ∷ [])) [] 100))
      ≡ serve_loop small 1 (session_of small none 0 (conn_of true (3 ∷ []) answer 93)))
    × (open_device (λ b. b) (b'b' ∷ []) (conn_of true (answer ++ []) [] 50)
        ≡ (err (helper_missing (ascii "no")), conn_of true [] (open_bytes (b'b' ∷ [])) 44))
open_device-serve_loop_example =
    open_device-serve_loop (λ b. b) true small true 1 (b'b' ∷ []) (omega arith) refl (omega arith)
      (3 ∷ []) [] 0 100 (omega arith) [] [] 50 (omega arith)

-- One device, at every path.
abbrev one_device : Files
one_device = record { open_file = λ path. opening_of device; error_text = λ e. ascii "error" }

abbrev partition : Text
partition = ascii "\\\\.\\Harddisk1Partition2"

open_partition-HasSuperblock_example :
    (open_partition external one_device partition ≡ succeeded device) ↔ (
      ((n : Text) × (m : Text) × IsPartition partition n m)
      × (opening_of device ≡ opening_of device)
      × HasSuperblock external one_device contents)
open_partition-HasSuperblock_example =
    open_partition-HasSuperblock external one_device partition device contents
      (record { attempts = attempt-fits })

-- A device of which only the superblock is read, at every path.
abbrev parsing_device : Device
parsing_device = record { read_at = λ k off want. got (superblock_with 0); retries = 0 }

abbrev granted_device : Files
granted_device = record {
  open_file = λ path. opening_of parsing_device;
  error_text = λ e. ascii "error";
}

-- The host of a device whose superblock parses, which is opened by the first request.
abbrev partitions : Host
partitions =
    host_of external granted_device (λ d off len. succeeded [])
      (λ n. succeeded (up_to_date release)) (λ p. true) (ascii "1.4.9")

partitions-ReadsFit : ReadsFit partitions
partitions-ReadsFit f off len d e = ground arith

opens_partition :
    (serve_client partitions (conn_of true (1 ∷ open_bytes partition) [] 1000)).1.file
    ≡ some parsing_device
unfolding serve_client serve_loop serve_op serve_open read_byte read_u32 read_exact write_all
    respond open_partition partition_path_ok split_once_at number_ok all_digits strip_prefix
    eq_bytes read_loop parse_superblock check_checksum check_crc32c read_fields check_sizes u16_at
    u32_at u64_at bytes is_power_of_two before_zero from_le_bytes to_le_bytes
opens_partition = refl

serve_client-IsPartitionDevice_example :
    (path : Text) × (length path ≤ max_path)
    × (true ≡ true)
    × ((n : Text) × (m : Text) × IsPartition path n m)
    × ((b : Bytes) × Grants external granted_device (opening_of parsing_device) parsing_device b)
serve_client-IsPartitionDevice_example =
    serve_client-IsPartitionDevice external granted_device (λ d off len. succeeded [])
      (λ n. succeeded (up_to_date release)) (λ p. true) (ascii "1.4.9") partitions-ReadsFit
      (conn_of true (1 ∷ open_bytes partition) [] 1000) parsing_device opens_partition
