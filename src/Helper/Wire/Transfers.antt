-- ===== src/Helper/Wire/Transfers.antt =====
-- What is written at one end of a connection is read at the other.
use btrfs_peek.Prelude.{
  ℕ, ◌+◌, ◌-◌, ◌^◌, ◌≤◌, ◌<◌, ◌≡◌, refl, sym, ap, ◌∙◌, Bool, ◌++◌, append_assoc, arith, ok, length,
  length-append, take-append_length, drop-append_length, le→leb,
}
use btrfs_peek.Disk.Bytes.{Bytes, from_le_bytes, to_le_bytes}
use btrfs_peek.Disk.Bytes.Slices.{length-to_le_bytes, from_le_bytes-to_le_bytes}
use btrfs_peek.Helper.Wire.{
  Conn, after_io, write_all, read_exact, read_u32, read_u64, frame, respond,
}

-- A connection that is reset at its end, or not.
abbrev pub conn_of : Bool → Bytes → Bytes → ℕ → Conn
conn_of reset i o room = record { input = i; reset = reset; output = o; room = room }

module _ (reset : Bool) where
  pub read_exact_front :
      (n : ℕ) (b rest o : Bytes) (room : ℕ)
      → length b ≡ n
      → read_exact n (conn_of reset (b ++ rest) o room) ≡ (ok b, conn_of reset rest o room)
  unfolding read_exact
  read_exact_front n b rest o room e = rw (sym e) (
      rw
        (
          le→leb (length b) (length (b ++ rest)) (omega (arith, length-append b rest)),
          take-append_length b rest,
          drop-append_length b rest,
        )
        refl)

  pub write_all_fits :
      (msg i o : Bytes) (room : ℕ)
      → length msg ≤ room
      → write_all msg (conn_of reset i o room)
        ≡ (ok tt, conn_of reset i (o ++ msg) (room - length msg))
  unfolding write_all
  write_all_fits msg i o room h = rw (le→leb (length msg) room h) refl

  read_number :
      (n v : ℕ) (rest o : Bytes) (room : ℕ)
      → v < 256 ^ n
      → after_io
          (read_exact n)
          (λ b c. (ok (from_le_bytes b), c))
          (conn_of reset (to_le_bytes n v ++ rest) o room)
        ≡ (ok v, conn_of reset rest o room)
  read_number n v rest o room h =
      rw
        (
          read_exact_front n (to_le_bytes n v) rest o room (length-to_le_bytes n v),
          from_le_bytes-to_le_bytes n v h,
        )
        refl

  pub read_u32_front :
      (v : ℕ) (rest o : Bytes) (room : ℕ)
      → v < 2 ^ 32
      → read_u32 (conn_of reset (to_le_bytes 4 v ++ rest) o room)
        ≡ (ok v, conn_of reset rest o room)
  unfolding read_u32
  read_u32_front v rest o room h = read_number 4 v rest o room h

  pub read_u64_front :
      (v : ℕ) (rest o : Bytes) (room : ℕ)
      → v < 2 ^ 64
      → read_u64 (conn_of reset (to_le_bytes 8 v ++ rest) o room)
        ≡ (ok v, conn_of reset rest o room)
  unfolding read_u64
  read_u64_front v rest o room h = read_number 8 v rest o room h

  pub writes_fit :
      (head d i o : Bytes) (n room : ℕ)
      → length head ≡ n
      → n + length d ≤ room
      → after_io (write_all head) (λ u. write_all d) (conn_of reset i o room)
        ≡ (ok tt, conn_of reset i (o ++ (head ++ d)) (room - (n + length d)))
  writes_fit head d i o n room e h =
      let less : room - length head - length d ≡ room - (n + length d) = omega (arith, e) in
      rw
        (
          write_all_fits head i o room (omega (arith, e, h)),
          write_all_fits d i (o ++ head) (room - length head) (omega (arith, e, h)),
          less,
          append_assoc o head d,
        )
        refl

  pub respond_fits :
      (status : ℕ) (payload i o : Bytes) (room : ℕ)
      → 5 + length payload ≤ room
      → respond status payload (conn_of reset i o room)
        ≡ (ok tt, conn_of reset i (o ++ frame status payload) (room - (5 + length payload)))
  unfolding respond
  respond_fits status payload i o room h =
      let size : length (frame status payload) ≡ 5 + length payload = omega (
        arith,
        length-append (to_le_bytes 4 (length payload)) payload,
        length-to_le_bytes 4 (length payload),
      ) in
      write_all_fits (frame status payload) i o room (omega (arith, size, h))
      ∙ ap (λ t. (ok tt, conn_of reset i (o ++ frame status payload) (room - t))) size
