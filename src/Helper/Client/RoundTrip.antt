-- ===== src/Helper/Client/RoundTrip.antt =====
-- A request of a client, as the service answers it.
use btrfs_peek.Prelude.{
  ℕ, suc, ◌+◌, ◌-◌, ◌^◌, ◌≤◌, ◌<◌, min, ◌≡◌, refl, ◌∙◌, Bool, true, none, some, ◌∷◌, ◌++◌,
  append_assoc, arith, Result, ok, err, length, length-append, helper_missing, helper_refused,
  helper_failed,
}
use btrfs_peek.Disk.Bytes.{Bytes, to_le_bytes}
use btrfs_peek.Disk.Bytes.Slices.{length-to_le_bytes, from_le_bytes-to_le_bytes}
use btrfs_peek.Helper.Versions.{Text}
use btrfs_peek.Helper.Wire.{Conn, after_io, done_io, frame, status_ok}
use btrfs_peek.Helper.Wire.Transfers.{conn_of, read_exact_front, write_all_fits}
use btrfs_peek.Helper.Server.{
  Host, Outcome, succeeded, failed_with, Refusal, path_not_found, path_refused, open_failed,
  max_path, max_read, serve_loop,
}
use btrfs_peek.Helper.Server.Answers.{
  not_ltb, session_of, outcome_status, outcome_message, outcome_file, round_of_read, round_of_open,
}
use btrfs_peek.Helper.Client.{
  max_message, error_of_status, head_of, header, message, reply_of, reply_with, reply, open_bytes,
  open_device, read_bytes, data_with, read_at,
}

header_front :
    (reset : Bool) (status n : ℕ) (rest o : Bytes) (room : ℕ)
    → n < 2 ^ 32
    → header (conn_of reset (status ∷ (to_le_bytes 4 n ++ rest)) o room)
      ≡ (ok (status, n), conn_of reset rest o room)
unfolding header head_of
header_front reset status n rest o room h =
    rw
      (
        read_exact_front reset 5 (status ∷ to_le_bytes 4 n) rest o room
            (omega (arith, length-to_le_bytes 4 n)),
        from_le_bytes-to_le_bytes 4 n h,
      )
      refl

module _ (lossy : Bytes → Text) (reset : Bool) where
  message_front :
      (msg rest o : Bytes) (room : ℕ)
      → length msg ≤ max_message
      → message lossy (length msg) (conn_of reset (msg ++ rest) o room)
        ≡ (ok (lossy msg), conn_of reset rest o room)
  unfolding message
  message_front msg rest o room h =
      rw
        (
          not_ltb max_message (length msg) h,
          read_exact_front reset (length msg) msg rest o room refl,
        )
        refl

  reply_front :
      (status : ℕ) (msg rest o : Bytes) (room : ℕ)
      → length msg ≤ max_message
      → reply lossy (conn_of reset (frame status msg ++ rest) o room)
        ≡ reply_of lossy status (lossy msg) (conn_of reset rest o room)
  unfolding reply reply_with
  reply_front status msg rest o room h =
      rw
        (
          append_assoc (to_le_bytes 4 (length msg)) msg rest,
          header_front reset status (length msg) (msg ++ rest) o room (omega (arith, h)),
          message_front msg rest o room h,
        )
        refl

  read_at_front :
      (off size : ℕ) (d rest o : Bytes) (room : ℕ)
      → length d ≤ min size max_read
      → 13 ≤ room
      → read_at lossy size off (conn_of reset (frame status_ok d ++ rest) o room)
        ≡ (ok d, conn_of reset rest (o ++ read_bytes off (min size max_read)) (room - 13))
  unfolding read_at data_with
  read_at_front off size d rest o room short fits =
      let size_of : length (read_bytes off (min size max_read)) ≡ 13 = omega (
        arith,
        length-append (to_le_bytes 8 off) (to_le_bytes 4 (min size max_read)),
        length-to_le_bytes 8 off,
        length-to_le_bytes 4 (min size max_read),
      ) in
      rw
        (
          append_assoc (to_le_bytes 4 (length d)) d rest,
          write_all_fits reset (read_bytes off (min size max_read))
              (status_ok ∷ (to_le_bytes 4 (length d) ++ (d ++ rest))) o room
              (omega (arith, size_of, fits)),
          header_front reset status_ok (length d) (d ++ rest)
              (o ++ read_bytes off (min size max_read))
              (room - length (read_bytes off (min size max_read))) (omega (arith, short)),
          not_ltb (min size max_read) (length d) short,
          read_exact_front reset (length d) d rest (o ++ read_bytes off (min size max_read))
              (room - length (read_bytes off (min size max_read))) refl,
          size_of,
        )
        refl

  open_front :
      (path : Text) (status : ℕ) (msg rest o : Bytes) (room : ℕ)
      → length path ≤ max_path
      → length msg ≤ max_message
      → 5 + length path ≤ room
      → open_device lossy path (conn_of reset (frame status msg ++ rest) o room)
        ≡ after_io
            (reply_of lossy status (lossy msg))
            (λ r. done_io tt)
            (conn_of reset rest (o ++ open_bytes path) (room - (5 + length path)))
  unfolding open_device
  open_front path status msg rest o room short brief fits =
      let size_of : length (open_bytes path) ≡ 5 + length path = omega (
        arith,
        length-append (to_le_bytes 4 (length path)) path,
        length-to_le_bytes 4 (length path),
      ) in
      rw
        (
          not_ltb max_path (length path) short,
          write_all_fits reset (open_bytes path) (frame status msg ++ rest) o room
              (omega (arith, size_of, fits)),
          size_of,
          reply_front status msg rest (o ++ open_bytes path) (room - (5 + length path)) brief,
        )
        refl

  module _ (host : Host) (reset' : Bool) where
    -- The result of `open` at the client, by what became of the path at the service.
    abbrev pub opened_as : Outcome Refusal (host.File) → Result (Unit {0})
    opened_as (succeeded f) = ok tt
    opened_as (failed_with (path_not_found m)) = err (helper_missing (lossy m))
    opened_as (failed_with (path_refused m)) = err (helper_refused (lossy m))
    opened_as (failed_with (open_failed m)) = err (helper_failed (lossy m))

    reply_of-opened_as :
        (out : Outcome Refusal (host.File)) (c : Conn)
        → after_io
            (reply_of lossy (outcome_status host out) (lossy (outcome_message host out)))
            (λ r. done_io tt)
            c
          ≡ (opened_as out, c)
    unfolding reply_of error_of_status
    reply_of-opened_as (succeeded f) c = refl
    reply_of-opened_as (failed_with (path_not_found m)) c = refl
    reply_of-opened_as (failed_with (path_refused m)) c = refl
    reply_of-opened_as (failed_with (open_failed m)) c = refl

    -- A read of an open device, at both ends of a connection. The client asks for `size` bytes at
    -- a 64-bit offset and the service's read gives some, at most the smaller of `size` and the
    -- limit of a read: the service takes the client's request and nothing more, its answer is one
    -- frame, and from that frame the client has exactly those bytes.
    pub read_at-serve_loop :
        (n : ℕ) (f : host.File) (off size : ℕ) (d : Bytes)
        → off < 2 ^ 64
        → host.read_file f off (min size max_read) ≡ succeeded d
        → length d ≤ min size max_read
        → (more o : Bytes) (u room : ℕ) → 5 + length d ≤ room
        → (more' o' : Bytes) (room' : ℕ) → 13 ≤ room'
        → (serve_loop host (suc n) (
              session_of host
                (some f)
                u
                (conn_of reset' (read_bytes off (min size max_read) ++ more) o room))
            ≡ serve_loop host n (
                session_of host
                  (some f)
                  u
                  (conn_of reset' more (o ++ frame status_ok d) (room - (5 + length d)))))
          × (read_at lossy size off (conn_of reset (frame status_ok d ++ more') o' room')
              ≡ (ok d, conn_of reset more' (o' ++ read_bytes off (min size max_read)) (room' - 13)))
    read_at-serve_loop n f off size d far e short more o u room fits more' o' room' fits' = (
      rw (append_assoc (to_le_bytes 8 off) (to_le_bytes 4 (min size max_read)) more) (
          round_of_read host reset' n f off (min size max_read) d more o u room far (omega arith) e
            (omega (arith, short)) fits),
      read_at_front off size d more' o' room' short fits',
    )

    -- Opening a device, at both ends of a connection. For a path that is UTF-8 and not longer than
    -- the limit, on a connection without an open file, and where the answer's message is no longer
    -- than a client takes: the service takes the request and nothing more, keeps the file that
    -- `open` granted, and from its frame the client has success, or the error of the refusal's
    -- kind with the refusal's message.
    pub open_device-serve_loop :
        (n : ℕ) (path : Text)
        → length path ≤ max_path
        → host.is_utf8 path ≡ true
        → length (outcome_message host (host.open_path path)) ≤ max_message
        → (more o : Bytes) (u room : ℕ)
        → 5 + length (outcome_message host (host.open_path path)) ≤ room
        → (more' o' : Bytes) (room' : ℕ) → 5 + length path ≤ room'
        → (sent : Bytes) × (serve_loop host
              (suc n)
              (session_of host none u (conn_of reset' (open_bytes path ++ more) o room))
            ≡ serve_loop host n (
                session_of host (outcome_file host (host.open_path path)) u (
                  conn_of reset' more
                    (o ++ sent)
                    (room - (5 + length (outcome_message host (host.open_path path)))))))
          × (open_device lossy path (conn_of reset (sent ++ more') o' room') ≡ (
            opened_as (host.open_path path),
            conn_of reset more' (o' ++ open_bytes path) (room' - (5 + length path)),
          ))
    open_device-serve_loop n path short text brief more o u room fits more' o' room' fits' = (
      frame (outcome_status host (host.open_path path))
          (outcome_message host (host.open_path path)),
      rw (append_assoc (to_le_bytes 4 (length path)) path more)
          (round_of_open host reset' n path more o u room short text fits),
      open_front path (outcome_status host (host.open_path path))
            (outcome_message host (host.open_path path)) more' o' room' short brief fits'
          ∙ reply_of-opened_as (host.open_path path) _,
    )
