-- ===== src/Helper/Server/Serving.antt =====
-- A session of the service, whatever the client sends.
use btrfs_peek.Prelude.{
  ℕ, zero, suc, ◌+◌, ◌≤◌, ◌<◌, ◌≡◌, refl, inl, inr, Bool, true, false, Option, none, some, [], ◌∷◌,
  arith, ok, err, then_next, length, ltb, ◌==◌, if◌then◌else◌, Bool-cases, io_error,
}
use btrfs_peek.Disk.Bytes.{Bytes, to_le_bytes}
use btrfs_peek.Helper.Versions.{Text}
use btrfs_peek.Helper.Updates.{Update, display_update}
use btrfs_peek.Helper.Wire.{
  Conn, after_io, write_all, read_exact, byte_of, read_byte, read_u32, read_u64, respond, status_ok,
  status_error,
}
use btrfs_peek.Helper.Server.{
  Host, Session, Step, Flow, go_on, ends, Ended, closed, Outcome, succeeded, failed_with, Refusal,
  path_not_found, path_refused, open_failed, refusal_status, refusal_message, protocol, max_path,
  max_read, op_open, op_read, op_update, on_conn, io, after_step, opened, open_request,
  open_path_of, serve_open, read_reply, write_data, read_request, bounded_read, serve_read,
  after_update, update_reply, serve_update, serve_op, after_flow, next_op, serve_loop, greeted,
  serve_client,
}
use btrfs_peek.Helper.Server.Frames.{
  read_exact-Runs, read_exact-eq-length, respond-Runs, read_u32-Runs, read_u64-Runs,
  two_writes-Runs,
}
use btrfs_peek.Helper.Server.Steps.{
  IsGranted, ReadsFit, Served, Serves, then_next-Serves, done_step-Served, io-Served,
  after_step-Served, answer-Served,
}

module _ (host : Host) (fits : ReadsFit host) where
  refusal_status_le : (r : Refusal) → refusal_status r ≤ 3
  refusal_status_le (path_not_found m) = omega arith
  refusal_status_le (path_refused m) = omega arith
  refusal_status_le (open_failed m) = omega arith

  opened-Served :
      (path : Text) (o : Outcome Refusal (host.File))
      → length path ≤ max_path
      → host.is_utf8 path ≡ true
      → host.open_path path ≡ o
      → Served host (opened host o)
  unfolding opened
  opened-Served path (succeeded f) short text e s g =
      let v =
        answer-Served host status_ok [] go_on (omega arith) (record s { file = some f })
          (path, short, text, e) in
      record {
        clean_result = v.clean_result;
        takes = v.takes;
        sends = v.sends;
        granted = v.granted;
      }
  opened-Served path (failed_with r) short text e s g =
      answer-Served host (refusal_status r) (refusal_message r) go_on (refusal_status_le r) s g

  open_request-Served :
      (o : Option (host.File)) (path : Bytes)
      → length path ≤ max_path
      → Served host (open_request host o path)
  unfolding open_request
  open_request-Served (some f) path h = answer-Served host status_error _ go_on (omega arith)
  open_request-Served none path h = elim (Bool-cases (host.is_utf8 path)) [
    | inl text ↦ rw text (opened-Served path (host.open_path path) h text refl)
    | inr other ↦ rw other (answer-Served host status_error _ go_on (omega arith))
  ]

  open_path_of-Served : (len : ℕ) → Served host (open_path_of host len)
  unfolding open_path_of
  open_path_of-Served len = elim (Bool-cases (ltb max_path len)) [
    | inl long ↦ rw long (answer-Served host status_error _ (ends closed) (omega arith))
    | inr short ↦ rw short (λ s g.
        then_next-Serves host s (io host (read_exact len) s)
          (λ path. λ s. open_request host s.file path s)
          (io-Served host (read_exact len) (read_exact-Runs len) s g)
          (λ path e.
            open_request-Served s.file path
              (ground (arith, read_exact-eq-length len s.conn path e, short))
              (io host (read_exact len) s).1 g))
  ]

  serve_open-Served : Served host (serve_open host)
  unfolding serve_open
  serve_open-Served =
      after_step-Served host (io host read_u32) _ (io-Served host read_u32 read_u32-Runs)
        open_path_of-Served

  read_reply-Served :
      (len : ℕ) (o : Outcome Text Bytes)
      → ((d : Bytes) → o ≡ succeeded d → length d ≤ len)
      → Served host (read_reply host len o)
  unfolding read_reply
  read_reply-Served len (succeeded d) short =
      after_step-Served host
        (io host (
          after_io (write_all (status_ok ∷ to_le_bytes 4 (length d))) (λ u. write_data host len d)))
        _ (io-Served host _ (λ c. two_writes-Runs host len d c (short d refl)))
        (λ u. done_step-Served host go_on)
  read_reply-Served len (failed_with e) short =
      answer-Served host status_error e go_on (omega arith)

  read_request-Served :
      (o : Option (host.File)) (off len : ℕ) → Served host (read_request host o off len)
  unfolding read_request
  read_request-Served none off len = answer-Served host status_error _ go_on (omega arith)
  read_request-Served (some f) off len =
      read_reply-Served len (host.read_file f off len) (fits f off len)

  bounded_read-Served : (off len : ℕ) → Served host (bounded_read host off len)
  unfolding bounded_read
  bounded_read-Served off len = elim (Bool-cases (ltb max_read len)) [
    | inl long ↦ rw long (answer-Served host status_error _ go_on (omega arith))
    | inr short ↦ rw short (λ s. read_request-Served s.file off len s)
  ]

  serve_read-Served : Served host (serve_read host)
  unfolding serve_read
  serve_read-Served =
      after_step-Served host (io host read_u64) _ (io-Served host read_u64 read_u64-Runs) (λ off.
        after_step-Served host (io host read_u32) _ (io-Served host read_u32 read_u32-Runs)
          (bounded_read-Served off))

  update_reply-Served : (o : Outcome Text Update) → Served host (update_reply host o)
  unfolding update_reply
  update_reply-Served (succeeded u) =
      answer-Served host status_ok (display_update u) (after_update host u) (omega arith)
  update_reply-Served (failed_with e) = answer-Served host status_error e go_on (omega arith)

  serve_update-Served : Served host (serve_update host)
  unfolding serve_update
  serve_update-Served s g =
      let v =
        update_reply-Served (host.run_update s.updates) (record s { updates = s.updates + 1 }) g in
      record {
        clean_result = v.clean_result;
        takes = v.takes;
        sends = v.sends;
        granted = v.granted;
      }

  serve_op-Served : (op : ℕ) → Served host (serve_op host op)
  unfolding serve_op
  serve_op-Served op = elim (Bool-cases (op == op_open)) [
    | inl isopen ↦ rw isopen serve_open-Served
    | inr other ↦ rw other (elim (Bool-cases (op == op_read)) [
      | inl isread ↦ rw isread serve_read-Served
      | inr other ↦ rw other (elim (Bool-cases (op == op_update)) [
        | inl isupdate ↦ rw isupdate serve_update-Served
        | inr other ↦ rw other (answer-Served host status_error _ (ends closed) (omega arith))
      ])
    ])
  ]

  -- Bounded by the bytes that are still to be read.
  abbrev pub ServesBelow : {A : Type 0} → ℕ → Step host A → Type 0
  ServesBelow n m =
      (s : Session host) → length s.conn.input < n → IsGranted host s.file → Serves host s (m s)

  after_flow-Serves :
      (next : Step host Ended) (fl : Flow) (s : Session host)
      → IsGranted host s.file
      → Serves host s (next s)
      → Serves host s (after_flow host next fl s)
  unfolding after_flow
  after_flow-Serves next go_on s g v = v
  after_flow-Serves next (ends e) s g v = done_step-Served host e s g

  after_step-ServesBelow :
      {A B : Type 0} (n : ℕ) (m : Step host A) (next : A → Step host B)
      → Served host m
      → ((a : A) → ServesBelow n (next a))
      → ServesBelow n (after_step host m next)
  after_step-ServesBelow n m next v h s few g =
      then_next-Serves host s (m s) next (v s g)
        (λ a e. h a (m s).1 (omega (arith, (v s g).takes, few)) (v s g).granted)

  next_op-Serves :
      (n : ℕ) (next : Step host Ended) (op : Option ℕ)
      → ServesBelow n next
      → ServesBelow n (next_op host next op)
  unfolding next_op
  next_op-Serves n next none h = λ s few g. done_step-Served host closed s g
  next_op-Serves n next (some op) h =
      after_step-ServesBelow n (serve_op host op) (after_flow host next) (serve_op-Served op)
        (λ fl s few g. after_flow-Serves next fl s g (h s few g))

  -- Behind the input: a connection that was reset, or the end.
  at_end-Serves :
      {A : Type 0} (next : Option ℕ → Step host A) (reset : Bool) (s : Session host)
      → IsGranted host s.file
      → Serves host s (next none s)
      → Serves host s (then_next next (if reset then err io_error else ok none, s))
  at_end-Serves next true s g stop = record {
    clean_result = refl;
    takes = omega arith;
    sends = λ u. absurd u;
    granted = g;
  }
  at_end-Serves next false s g stop = stop

  -- A byte, and what is done with it: where there is one, less is left to be read.
  after_byte-Serves :
      {A : Type 0} (n : ℕ) (next : Option ℕ → Step host A) (b : Bytes) (s : Session host)
      → s.conn.input ≡ b
      → length b < suc n
      → IsGranted host s.file
      → (IsGranted host s.file → Serves host s (next none s))
      → ((op : ℕ) → ServesBelow n (next (some op)))
      → Serves host s (then_next next (on_conn host s (byte_of b s.conn)))
  unfolding byte_of
  after_byte-Serves n next [] s e few g stop more = at_end-Serves next s.conn.reset s g (stop g)
  after_byte-Serves n next (x ∷ rest) s e few g stop more =
      let v = more x (record s { conn = record s.conn { input = rest } }) (omega (arith, few)) g in
      record {
        clean_result = v.clean_result;
        takes = (rw e (omega (arith, v.takes)));
        sends = v.sends;
        granted = v.granted;
      }

  serve_loop-Serves : (n : ℕ) → ServesBelow n (serve_loop host n)
  unfolding serve_loop read_byte
  serve_loop-Serves zero s few g = absurd (omega (arith, few))
  serve_loop-Serves (suc n) s few g =
      after_byte-Serves n (next_op host (serve_loop host n)) s.conn.input s refl few g
        (done_step-Served host closed s)
        (λ op. next_op-Serves n (serve_loop host n) (some op) (serve_loop-Serves n))

  -- Whatever the client sends, and where a read of a file gives no more bytes than there is room for, its session returns, and never panics; what it took is a part of what was sent; where it ends well, what it sent is whole responses with statuses of the protocol; and a file that is open at its end is one that `open` granted, for a path that is UTF-8 and not longer than the limit.
  pub serve_client-Serves :
      (c : Conn) → Serves host (record { file = none; updates = 0; conn = c }) (serve_client host c)
  unfolding serve_client greeted read_byte
  serve_client-Serves c =
      after_byte-Serves (length c.input) (greeted host (suc (length c.input))) c.input
        (record { file = none; updates = 0; conn = c }) refl (omega arith) tt
        (done_step-Served host closed (record { file = none; updates = 0; conn = c })) greeting
    where
      greeting :
          (proto : ℕ)
          → ServesBelow (length c.input) (greeted host (suc (length c.input)) (some proto))
      greeting proto s few g = elim (Bool-cases (proto == protocol)) [
        | inl same ↦ rw same (
            after_step-ServesBelow (length c.input) (io host (respond status_ok host.version))
              (λ u. serve_loop host (suc (length c.input)))
              (io-Served host _ (λ c. respond-Runs status_ok host.version c (omega arith)))
              (λ u t less h. serve_loop-Serves (suc (length c.input)) t (omega (arith, less)) h) s
              few g)
        | inr other ↦ rw other (answer-Served host status_error _ closed (omega arith) s g)
      ]
