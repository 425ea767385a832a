-- ===== src/Helper/Server/Answers.antt =====
-- The answers of the service to requests.
use btrfs_peek.Prelude.{
  ℕ, suc, ◌+◌, ◌-◌, ◌^◌, ◌≤◌, ◌<◌, ◌≡◌, refl, ◌∙◌, Bool, true, false, Option, none, some, [], ◌∷◌,
  ◌++◌, arith, ok, length, ltb,
}
use btrfs_peek.Disk.Bytes.{Bytes, to_le_bytes}
use btrfs_peek.Disk.Bytes.Slices.{length-to_le_bytes}
use btrfs_peek.Helper.Versions.{Text}
use btrfs_peek.Helper.Wire.{Conn, byte_of, read_byte, frame, status_ok}
use btrfs_peek.Helper.Wire.Transfers.{
  conn_of, read_exact_front, read_u32_front, read_u64_front, writes_fit, respond_fits,
}
use btrfs_peek.Helper.Server.{
  Host, Session, go_on, op_open, op_read, Outcome, succeeded, failed_with, Refusal, refusal_status,
  refusal_message, max_path, max_read, open_request, opened, open_path_of, serve_open, read_reply,
  write_data, read_request, bounded_read, serve_read, serve_op, after_flow, next_op, serve_loop,
}

pub not_ltb : (a b : ℕ) → b ≤ a → ltb a b ≡ false
not_ltb a b h = ground arith

module _ (host : Host) where
  abbrev pub session_of : Option (host.File) → ℕ → Conn → Session host
  session_of file updates c = record { file = file; updates = updates; conn = c }

  abbrev pub outcome_status : Outcome Refusal (host.File) → ℕ
  outcome_status (succeeded f) = status_ok
  outcome_status (failed_with r) = refusal_status r

  abbrev pub outcome_message : Outcome Refusal (host.File) → Text
  outcome_message (succeeded f) = []
  outcome_message (failed_with r) = refusal_message r

  abbrev pub outcome_file : Outcome Refusal (host.File) → Option (host.File)
  outcome_file (succeeded f) = some f
  outcome_file (failed_with r) = none

  -- A connection that is reset at its end, or not.
  module _ (reset : Bool) where
    served_read :
        (f : host.File) (off len : ℕ) (d rest o : Bytes) (u room : ℕ)
        → off < 2 ^ 64
        → len ≤ max_read
        → host.read_file f off len ≡ succeeded d
        → length d ≤ len
        → 5 + length d ≤ room
        → serve_read host (
            session_of
              (some f)
              u
              (conn_of reset (to_le_bytes 8 off ++ (to_le_bytes 4 len ++ rest)) o room))
          ≡ (
            ok go_on,
            session_of
                (some f)
                u
                (conn_of reset rest (o ++ frame status_ok d) (room - (5 + length d))),
          )
    unfolding serve_read bounded_read read_request read_reply write_data
    served_read f off len d rest o u room ho hl e hd hr =
        rw
          (
            read_u64_front reset off (to_le_bytes 4 len ++ rest) o room ho,
            read_u32_front reset len rest o room (omega (arith, hl)),
            not_ltb max_read len hl,
            e,
            not_ltb len (length d) hd,
            writes_fit reset (status_ok ∷ to_le_bytes 4 (length d)) d rest o 5 room
                (omega (arith, length-to_le_bytes 4 (length d))) hr,
          )
          refl

    answered_open :
        (out : Outcome Refusal (host.File)) (rest o : Bytes) (u room : ℕ)
        → 5 + length (outcome_message out) ≤ room
        → opened host out (session_of none u (conn_of reset rest o room)) ≡ (
          ok go_on,
          session_of (outcome_file out) u (
              conn_of reset rest
                (o ++ frame (outcome_status out) (outcome_message out))
                (room - (5 + length (outcome_message out)))),
        )
    unfolding opened
    answered_open (succeeded f) rest o u room h =
        rw (respond_fits reset status_ok [] rest o room h) refl
    answered_open (failed_with r) rest o u room h =
        rw (respond_fits reset (refusal_status r) (refusal_message r) rest o room h) refl

    served_open :
        (path rest o : Bytes) (u room : ℕ)
        → length path ≤ max_path
        → host.is_utf8 path ≡ true
        → 5 + length (outcome_message (host.open_path path)) ≤ room
        → serve_open host (
            session_of none u
              (conn_of reset (to_le_bytes 4 (length path) ++ (path ++ rest)) o room))
          ≡ opened host (host.open_path path) (session_of none u (conn_of reset rest o room))
    unfolding serve_open open_path_of open_request
    served_open path rest o u room short text hr =
        rw
          (
            read_u32_front reset (length path) (path ++ rest) o room (omega (arith, short)),
            not_ltb max_path (length path) short,
            read_exact_front reset (length path) path rest o room refl,
            text,
          )
          refl

    -- A round of the loop that goes on.
    next_round :
        (n op : ℕ) (file : Option (host.File)) (u room : ℕ) (args o : Bytes) (t : Session host)
        → serve_op host op (session_of file u (conn_of reset args o room)) ≡ (ok go_on, t)
        → serve_loop host (suc n) (session_of file u (conn_of reset (op ∷ args) o room))
          ≡ serve_loop host n t
    unfolding serve_loop next_op after_flow read_byte byte_of
    next_round n op file u room args o t e = rw e refl

    pub round_of_read :
        (n : ℕ) (f : host.File) (off len : ℕ) (d rest o : Bytes) (u room : ℕ)
        → off < 2 ^ 64
        → len ≤ max_read
        → host.read_file f off len ≡ succeeded d
        → length d ≤ len
        → 5 + length d ≤ room
        → serve_loop host (suc n) (
            session_of
              (some f)
              u
              (conn_of reset (op_read ∷ (to_le_bytes 8 off ++ (to_le_bytes 4 len ++ rest))) o room))
          ≡ serve_loop host n (
              session_of
                (some f)
                u
                (conn_of reset rest (o ++ frame status_ok d) (room - (5 + length d))))
    unfolding serve_op
    round_of_read n f off len d rest o u room ho hl e hd hr =
        next_round n op_read (some f) u room _ o _
          (served_read f off len d rest o u room ho hl e hd hr)

    pub round_of_open :
        (n : ℕ) (path rest o : Bytes) (u room : ℕ)
        → length path ≤ max_path
        → host.is_utf8 path ≡ true
        → 5 + length (outcome_message (host.open_path path)) ≤ room
        → serve_loop host (suc n) (
            session_of none u
              (conn_of reset (op_open ∷ (to_le_bytes 4 (length path) ++ (path ++ rest))) o room))
          ≡ serve_loop host n (
              session_of (outcome_file (host.open_path path)) u (
                conn_of reset rest
                  (o
                    ++ frame
                        (outcome_status (host.open_path path))
                        (outcome_message (host.open_path path)))
                  (room - (5 + length (outcome_message (host.open_path path))))))
    unfolding serve_op
    round_of_open n path rest o u room short text hr = next_round n op_open none u room _ o _ (
        served_open path rest o u room short text hr
        ∙ answered_open (host.open_path path) rest o u room hr)
