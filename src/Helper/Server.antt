-- ===== src/Helper/Server.antt =====
-- helper.rs: the service's side of a session.
pub mod Answers
pub mod Frames
pub mod Steps
pub mod Serving
use btrfs_peek.Prelude.{
  ℕ, zero, suc, ◌+◌, ◌-◌, ◌*◌, ◌/◌, ◌%◌, ◌^◌, ◌≤◌, ◌<◌, min, max, bit_and, bit_or, ◌≡◌, refl, sym,
  ap, ◌∙◌, ◌≢◌, ◌↔◌, ◌⊎◌, inl, inr, Bool, true, false, not, ◌&&◌, ◌||◌, Option, none, some, List,
  [], ◌∷◌, ◌++◌, map, append_assoc, append-nil, arith, Error, Result, ok, err, ◌>>=◌, ◌>>◌,
  >>=-eq-ok, guard, guard-eq-ok, raised, match_result, then_next, then_next-eq-ok, clean, IsClean,
  IsClean-bind, IsClean-if, ascii, onto, onto_first, split_once, split, strip_prefix, join,
  strip_prefix-append, strip_prefix_lem, Lacks, split_once-append, split_once_lem, join-split,
  split-append, split_whole, length, get_elem?, take, drop, replicate, All, length-append,
  length-take, length-drop, length-replicate, take-append_length, drop-append_length, take_all,
  take-append-drop, take_add, drop-drop, drop-take, take-take, take-append_le, All-append, All-take,
  All-drop, All-replicate, ltb, leb, ◌==◌, if◌then◌else◌, ltb→lt, lt→ltb, le→leb, leb→le, ==→eq,
  eq→==, Bool-cases, Option-cases, Result-cases, all_below, all_below_sound, insert_by, sort_by,
  IsSortedBy, sort_by-Perm, sort_by-IsSortedBy, Permᴰ, is_digit, AreDigits, all_digits,
  all_digits-AreDigits, AreDigits-all_digits, digits_from, to_decimal, digits_from-append,
  digits_from-to_decimal, to_decimal-AreDigits, to_decimal_fuel, digits_from-lt,
  to_decimal-digits_from, length-to_decimal, LeadsNonzero, to_decimal-LeadsNonzero,
  to_decimal-canonical, panicked, out_of_fuel, corrupt_structure, no_magic, checksum_mismatch,
  encrypted, zero_stripes, bad_array_size, bad_sectorsize, bad_nodesize, unknown_extent_type,
  io_error, unexpected_eof, implausible_size, zero_sectorsize, decodes_to_more, decodes_short,
  bad_frame, bad_segment, truncated_header, oversized_segment, malformed_segment, malformed_stream,
  unknown_compression, unmapped_address, striped_chunk, missing_device, unreadable, wrong_address,
  bad_node_checksum, too_many_items, wrong_level, too_deep, bad_chunk_array, extent_overflow,
  outside_extent, inline_too_large, implausible_extent, symlink_too_long, no_device,
  other_filesystem, refused_features, no_subvolume, no_inode, no_parent, endless_parents,
  not_directory, is_symlink, not_found, malformed_signature, malformed_key, bad_signature,
  wrong_comment, not_newer, helper_missing, helper_refused, helper_failed, predates_update,
  unknown_status, oversized_message, long_reply, long_path, oversized_download, signature_not_utf8,
}
use btrfs_peek.Disk.Bytes.{Bytes, to_le_bytes}
use btrfs_peek.Helper.Versions.{Text, decimal}
use btrfs_peek.Helper.Updates.{Update, up_to_date, installed, display_update}
use btrfs_peek.Helper.Wire.{
  Conn, Io, after_io, fail_io, write_all, read_exact, read_byte, read_u32, read_u64, respond,
  status_ok, status_not_found, status_refused, status_error,
}

abbrev pub protocol : ℕ
protocol = 1

abbrev pub op_open : ℕ
op_open = 1

abbrev pub op_read : ℕ
op_read = 2

abbrev pub op_update : ℕ
op_update = 3

abbrev pub max_path : ℕ
max_path = 1024

abbrev pub max_read : ℕ
max_read = 0x40_0000

-- `Refusal`: why the server would not open a path.
pub data Refusal : Type 0 where
  path_not_found path_refused open_failed : Text → Refusal

abbrev pub refusal_status : Refusal → ℕ
refusal_status (path_not_found m) = status_not_found
refusal_status (path_refused m) = status_refused
refusal_status (open_failed m) = status_error

abbrev pub refusal_message : Refusal → Text
refusal_message (path_not_found m) = m
refusal_message (path_refused m) = m
refusal_message (open_failed m) = m

-- A value of the service's surroundings, or an error of another type.
pub data Outcome (E A : Type 0) : Type 0 where
  succeeded : A → Outcome E A
  failed_with : E → Outcome E A

-- What `serve_client` is given: `open`, `update` (by the number of earlier calls), reads of an
-- open file with the text of their error, and the version of the build.
pub record Host : Type 1 where
  pub File : Type 0
  pub open_path : Text → Outcome Refusal File
  pub read_file : File → ℕ → ℕ → Outcome Text Bytes
  pub run_update : ℕ → Outcome Text Update
  pub is_utf8 : Bytes → Bool
  pub version : Text

-- `Ended`.
pub data Ended : Type 0 where
  closed updated : Ended

-- What a round of the loop decides: `continue` and falling through, or `return Ok(..)`.
pub data Flow : Type 0 where
  go_on : Flow
  ends : Ended → Flow

module _ (host : Host) where
  open host use {File, open_path, read_file, run_update, is_utf8, version}

  -- The local variables of `serve_client`, and the number of calls of `update`.
  pub record Session : Type 0 where
    pub file : Option File
    pub updates : ℕ
    pub conn : Conn

  abbrev pub Step : Type 0 → Type 0
  Step A = Session → Result A × Session

  abbrev pub on_conn : {A : Type 0} → Session → Result A × Conn → Result A × Session
  on_conn s (r, c) = (r, record s { conn = c })

  -- A step on the connection alone.
  abbrev pub io : {A : Type 0} → Io A → Step A
  io m s = on_conn s (m s.conn)

  abbrev pub after_step : {A B : Type 0} → Step A → (A → Step B) → Step B
  after_step m next s = then_next next (m s)

  abbrev pub done_step : {A : Type 0} → A → Step A
  done_step a s = (ok a, s)

  -- `respond(..)?`, and then on to the next request.
  abbrev pub answer : ℕ → Text → Step Flow
  answer status msg = after_step (io (respond status msg)) (λ u. done_step go_on)

  -- `return closed(respond(..))`.
  abbrev pub answer_and_close : ℕ → Text → Step Flow
  answer_and_close status msg = after_step (io (respond status msg)) (λ u. done_step (ends closed))

  opened : Outcome Refusal File → Step Flow
  opened (succeeded f) s = answer status_ok [] (record s { file = some f })
  opened (failed_with r) s = answer (refusal_status r) (refusal_message r) s

  open_request : Option File → Bytes → Step Flow
  unfolding opened
  open_request (some f) path =
      answer status_error (ascii "a device is already open on this connection")
  open_request none path =
      if is_utf8 path
      then opened (open_path path)
      else answer status_error (ascii "the path is not UTF-8")

  open_path_of : ℕ → Step Flow
  unfolding open_request
  open_path_of len =
      if ltb max_path len
      then answer_and_close status_error
          (ascii "path longer than " ++ (decimal max_path ++ ascii " bytes"))
      else after_step (io (read_exact len)) (λ path. λ s. open_request s.file path s)

  -- The arm `OPEN`.
  unfoldable pub serve_open : Step Flow
  unfolding open_path_of
  serve_open = after_step (io read_u32) open_path_of

  -- `data[..n]`, of a buffer of `len` bytes.
  pub write_data : ℕ → Bytes → Io (Unit {0})
  write_data len d = if ltb len (length d) then fail_io panicked else write_all d

  read_reply : ℕ → Outcome Text Bytes → Step Flow
  unfolding write_data
  read_reply len (succeeded d) =
      after_step
        (io (after_io (write_all (status_ok ∷ to_le_bytes 4 (length d))) (λ u. write_data len d)))
        (λ u. done_step go_on)
  read_reply len (failed_with e) = answer status_error e

  read_request : Option File → ℕ → ℕ → Step Flow
  unfolding read_reply
  read_request none off len = answer status_error (ascii "READ before OPEN")
  read_request (some f) off len = read_reply len (read_file f off len)

  bounded_read : ℕ → ℕ → Step Flow
  unfolding read_request
  bounded_read off len =
      if ltb max_read len
      then answer status_error (ascii "reads are at most " ++ (decimal max_read ++ ascii " bytes"))
      else (λ s. read_request s.file off len s)

  -- The arm `READ`.
  unfoldable pub serve_read : Step Flow
  unfolding bounded_read
  serve_read = after_step (io read_u64) (λ off. after_step (io read_u32) (bounded_read off))

  after_update : Update → Flow
  after_update (installed v) = ends updated
  after_update (up_to_date v) = go_on

  update_reply : Outcome Text Update → Step Flow
  unfolding after_update
  update_reply (succeeded u) =
      after_step (io (respond status_ok (display_update u))) (λ z. done_step (after_update u))
  update_reply (failed_with e) = answer status_error e

  -- The arm `UPDATE`.
  unfoldable pub serve_update : Step Flow
  unfolding update_reply
  serve_update s = update_reply (run_update s.updates) (record s { updates = s.updates + 1 })

  -- `match op`.
  unfoldable pub serve_op : ℕ → Step Flow
  serve_op op =
      if op == op_open
      then serve_open
      else if op == op_read
      then serve_read
      else if op == op_update
      then serve_update
      else answer_and_close status_error (ascii "unknown operation " ++ decimal op)

  after_flow : Step Ended → Flow → Step Ended
  after_flow next go_on = next
  after_flow next (ends e) = done_step e

  next_op : Step Ended → Option ℕ → Step Ended
  unfolding after_flow
  next_op next none = done_step closed
  next_op next (some op) = after_step (serve_op op) (after_flow next)

  -- `while let Some(op) = read_byte(&mut s)?`, on fuel.
  unfoldable pub serve_loop : ℕ → Step Ended
  unfolding next_op
  serve_loop zero s = (err out_of_fuel, s)
  serve_loop (suc fuel) s = after_step (io read_byte) (next_op (serve_loop fuel)) s

  greeted : ℕ → Option ℕ → Step Ended
  greeted fuel none = done_step closed
  greeted fuel (some proto) =
      if proto == protocol
      then after_step (io (respond status_ok version)) (λ u. serve_loop fuel)
      else after_step
          (io (
            respond status_error (
              ascii "this helper speaks protocol "
              ++ (decimal protocol
                  ++ (ascii ", the client "
                      ++ (decimal proto
                          ++ ascii ": install the helper again with the same btrfs-peek"))))))
          (λ u. done_step closed)

  -- `serve_client`. A round reads a byte at least, so one round more than the bytes sent is enough.
  unfoldable pub serve_client : Conn → Result Ended × Session
  unfolding greeted
  serve_client c =
      after_step (io read_byte) (greeted (suc (length c.input)))
        (record { file = none; updates = 0; conn = c })
