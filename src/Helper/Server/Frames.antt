-- ===== src/Helper/Server/Frames.antt =====
-- What the steps of a connection take from it and send on it.
use btrfs_peek.Prelude.{
  ℕ, ◌-◌, ◌≤◌, ◌≡◌, refl, sym, ap, ◌∙◌, inl, inr, false, List, [], ◌∷◌, ◌++◌, append_assoc,
  append-nil, arith, Result, ok, err, then_next, IsClean, length, All, length-take, length-drop,
  All-append, ltb, leb, Bool-cases,
}
use btrfs_peek.Disk.Bytes.{Bytes, to_le_bytes}
use btrfs_peek.Helper.Server.{Host, write_data}
use btrfs_peek.Helper.Wire.{
  Conn, Io, done_io, write_all, read_exact, read_u32, read_u64, frame, respond, status_ok,
}

-- Responses one after the other.
abbrev pub frames : List (ℕ × Bytes) → Bytes
frames [] = []
frames ((status, payload) ∷ rs) = frame status payload ++ frames rs

frames-append : (rs ts : List (ℕ × Bytes)) → frames (rs ++ ts) ≡ frames rs ++ frames ts
frames-append [] ts = refl
frames-append (r ∷ rs) ts =
    ap (λ t. frame r.0 r.1 ++ t) (frames-append rs ts)
    ∙ sym (append_assoc (frame r.0 r.1) (frames rs) (frames ts))

-- The statuses of the protocol.
abbrev pub IsResponse : ℕ × Bytes → Type 0
IsResponse r = r.0 ≤ 3

-- What is sent from one output to the next: whole responses.
abbrev pub Sends : Bytes → Bytes → Type 0
Sends o o' = (rs : List (ℕ × Bytes)) × (o' ≡ o ++ frames rs) × All IsResponse rs

pub Sends-nothing : (o : Bytes) → Sends o o
Sends-nothing o = ([], sym (append-nil o), tt)

pub Sends-trans : (a b c : Bytes) → Sends a b → Sends b c → Sends a c
Sends-trans a b c (rs, e, p) (ts, f, q) = (
  rs ++ ts,
  f
      ∙ ap (λ t. t ++ frames ts) e
      ∙ append_assoc a (frames rs) (frames ts)
      ∙ ap (λ t. a ++ t) (sym (frames-append rs ts)),
  All-append IsResponse rs ts p q,
)

Sends-frame :
    (o : Bytes) (status : ℕ) (payload : Bytes) → status ≤ 3 → Sends o (o ++ frame status payload)
Sends-frame o status payload h =
    ((status, payload) ∷ [], ap (λ t. o ++ t) (sym (append-nil (frame status payload))), (h, tt))

abbrev pub WentThrough : {A : Type 0} → Result A → Type 0
WentThrough (ok a) = Unit {0}
WentThrough (err e) = ⊥

-- What a step of the connection does: it returns, takes bytes from the front of the input, and
-- sends whole responses where it goes through.
pub record Runs {A : Type 0} (c : Conn) (r : Result A × Conn) : Type 0 where
  pub clean_result : IsClean r.0
  pub takes : length r.1.input ≤ length c.input
  pub sends : WentThrough r.0 → Sends c.output r.1.output

pub read_exact-Runs : (n : ℕ) (c : Conn) → Runs c (read_exact n c)
unfolding read_exact
read_exact-Runs n c = elim (Bool-cases (leb n (length c.input))) [
  | inl there ↦ rw there (record {
    clean_result = refl;
    takes = omega (arith, length-drop n c.input);
    sends = λ u. Sends-nothing c.output;
  })
  | inr short ↦
      rw short (record { clean_result = ground arith; takes = omega arith; sends = λ u. absurd u })
]

pub read_exact-eq-length : (n : ℕ) (c : Conn) (b : Bytes) → (read_exact n c).0 ≡ ok b → length b ≡ n
unfolding read_exact
read_exact-eq-length n c b = ground (arith, length-take n c.input)

pub respond-Runs :
    (status : ℕ) (payload : Bytes) (c : Conn) → status ≤ 3 → Runs c (respond status payload c)
unfolding respond write_all
respond-Runs status payload c h = elim (Bool-cases (leb (length (frame status payload)) c.room)) [
  | inl fits ↦ rw fits (record {
    clean_result = refl;
    takes = omega arith;
    sends = λ u. Sends-frame c.output status payload h;
  })
  | inr full ↦ rw full (record { clean_result = refl; takes = omega arith; sends = λ u. absurd u })
]

then_next-Runs :
    {A B : Type 0} (c : Conn) (w : Result A × Conn) (next : A → Io B)
    → Runs c w
    → ((a : A) → w.0 ≡ ok a → Runs w.1 (next a w.1))
    → Runs c (then_next next w)
then_next-Runs c (ok a, t) next v f = record {
  clean_result = (f a refl).clean_result;
  takes = omega (arith, v.takes, (f a refl).takes);
  sends = λ u. Sends-trans c.output t.output _ (v.sends tt) ((f a refl).sends u);
}
then_next-Runs c (err e, t) next v f = record {
  clean_result = v.clean_result;
  takes = v.takes;
  sends = λ u. absurd u;
}

done_io-Runs : {A : Type 0} (a : A) (c : Conn) → Runs c (done_io a c)
done_io-Runs a c = record {
  clean_result = refl;
  takes = omega arith;
  sends = λ u. Sends-nothing c.output;
}

pub read_u32-Runs : (c : Conn) → Runs c (read_u32 c)
unfolding read_u32
read_u32-Runs c =
    then_next-Runs c (read_exact 4 c) _ (read_exact-Runs 4 c) (λ b e. done_io-Runs _ _)

pub read_u64-Runs : (c : Conn) → Runs c (read_u64 c)
unfolding read_u64
read_u64-Runs c =
    then_next-Runs c (read_exact 8 c) _ (read_exact-Runs 8 c) (λ b e. done_io-Runs _ _)

-- A response in two writes, of its head and of its payload.
pub two_writes-Runs :
    (host : Host) (len : ℕ) (d : Bytes) (c : Conn)
    → length d ≤ len
    → Runs c (
        then_next (λ u. write_data host len d) (write_all (status_ok ∷ to_le_bytes 4 (length d)) c))
unfolding write_all write_data
two_writes-Runs host len d c short =
    let within : ltb len (length d) ≡ false = ground arith in
    elim (Bool-cases (leb (length (status_ok ∷ to_le_bytes 4 (length d))) c.room)) [
      | inr full ↦
          rw full (record { clean_result = refl; takes = omega arith; sends = λ u. absurd u })
      | inl fits ↦
          rw (fits, within)
            (elim (Bool-cases
              (leb (length d) (c.room - length (status_ok ∷ to_le_bytes 4 (length d))))) [
                | inr short ↦
                    rw short
                      (record { clean_result = refl; takes = omega arith; sends = λ u. absurd u })
                | inl room ↦ rw room (record {
                  clean_result = refl;
                  takes = omega arith;
                  sends = λ u.
                      (rw (sym (append_assoc c.output (status_ok ∷ to_le_bytes 4 (length d)) d)) at
                        (Sends-frame c.output status_ok d (omega arith)));
                })
              ])
    ]
