-- ===== src/Helper/Server/Steps.antt =====
-- What the steps of a session of the service take, send and keep.
use btrfs_peek.Prelude.{
  ℕ, ◌≤◌, ◌≡◌, refl, true, Option, none, some, arith, Result, ok, err, then_next, IsClean, length,
}
use btrfs_peek.Disk.Bytes.{Bytes}
use btrfs_peek.Helper.Versions.{Text}
use btrfs_peek.Helper.Wire.{Conn, Io, respond}
use btrfs_peek.Helper.Server.{
  Host, Session, Step, succeeded, max_path, on_conn, io, after_step, done_step,
}
use btrfs_peek.Helper.Server.Frames.{
  Sends, Sends-nothing, Sends-trans, WentThrough, Runs, respond-Runs,
}

module _ (host : Host) where
  -- The file of a session is one that `open` granted.
  abbrev pub IsGranted : Option (host.File) → Type 0
  IsGranted none = Unit {0}
  IsGranted (some f) =
      (path : Text) × (length path ≤ max_path)
      × (host.is_utf8 path ≡ true)
      × (host.open_path path ≡ succeeded f)

  -- A read of a file gives no more bytes than there is room for.
  abbrev pub ReadsFit : Type 0
  ReadsFit =
      (f : host.File) (off len : ℕ) (d : Bytes)
      → host.read_file f off len ≡ succeeded d
      → length d ≤ len

  -- What a step of a session does.
  pub record Serves {A : Type 0} (s : Session host) (r : Result A × Session host) : Type 0 where
    pub clean_result : IsClean r.0
    pub takes : length r.1.conn.input ≤ length s.conn.input
    pub sends : WentThrough r.0 → Sends s.conn.output r.1.conn.output
    pub granted : IsGranted r.1.file

  abbrev pub Served : {A : Type 0} → Step host A → Type 0
  Served m = (s : Session host) → IsGranted s.file → Serves s (m s)

  pub on_conn-Serves :
      {A : Type 0} (s : Session host) (w : Result A × Conn)
      → IsGranted s.file
      → Runs s.conn w
      → Serves s (on_conn host s w)
  on_conn-Serves s (r, c) g v = record {
    clean_result = v.clean_result;
    takes = v.takes;
    sends = v.sends;
    granted = g;
  }

  pub then_next-Serves :
      {A B : Type 0} (s : Session host) (w : Result A × Session host) (next : A → Step host B)
      → Serves s w
      → ((a : A) → w.0 ≡ ok a → Serves w.1 (next a w.1))
      → Serves s (then_next next w)
  then_next-Serves s (ok a, t) next v f = record {
    clean_result = (f a refl).clean_result;
    takes = omega (arith, v.takes, (f a refl).takes);
    sends = λ u. Sends-trans s.conn.output t.conn.output _ (v.sends tt) ((f a refl).sends u);
    granted = (f a refl).granted;
  }
  then_next-Serves s (err e, t) next v f = record {
    clean_result = v.clean_result;
    takes = v.takes;
    sends = λ u. absurd u;
    granted = v.granted;
  }

  pub done_step-Served : {A : Type 0} (a : A) → Served (done_step host a)
  done_step-Served a s g = record {
    clean_result = refl;
    takes = omega arith;
    sends = λ u. Sends-nothing s.conn.output;
    granted = g;
  }

  pub io-Served : {A : Type 0} (m : Io A) → ((c : Conn) → Runs c (m c)) → Served (io host m)
  io-Served m f s g = on_conn-Serves s (m s.conn) g (f s.conn)

  pub after_step-Served :
      {A B : Type 0} (m : Step host A) (next : A → Step host B)
      → Served m
      → ((a : A) → Served (next a))
      → Served (after_step host m next)
  after_step-Served m next f h s g =
      then_next-Serves s (m s) next (f s g) (λ a e. h a (m s).1 (f s g).granted)

  pub answer-Served :
      {A : Type 0} (status : ℕ) (msg : Text) (a : A)
      → status ≤ 3
      → Served (after_step host (io host (respond status msg)) (λ u. done_step host a))
  answer-Served status msg a h =
      after_step-Served (io host (respond status msg)) _
        (io-Served (respond status msg) (λ c. respond-Runs status msg c h))
        (λ u. done_step-Served a)
