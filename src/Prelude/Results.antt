-- ===== src/Prelude/Results.antt =====
-- The program's errors as values. An `anyhow` error or an `io::Error` is one of these constructors,
-- with the numbers that its message names; the message's wording is not modelled, but for the
-- messages that the service sends to its client.
use mathlib.Core.Path.{◌≡◌, refl}
use mathlib.Core.Bool.{Bool, true, false}
use mathlib.Core.Logic.{◌⊎◌, inl, inr}
use mathlib.Core.List.{List}
use Prim.Native.Nat.{ℕ}
use btrfs_peek.Prelude.Tests.{if◌then◌else◌}

pub data Error : Type 0 where
  -- `panicked` is a Rust panic (an index out of range); `out_of_fuel` is no outcome of the program.
  panicked out_of_fuel : Error
  -- disk.rs
  corrupt_structure : ℕ → ℕ → Error
  no_magic checksum_mismatch encrypted zero_stripes : Error
  bad_array_size bad_sectorsize bad_nodesize unknown_extent_type : ℕ → Error
  -- dev.rs
  io_error unexpected_eof : Error
  -- decompress.rs
  implausible_size zero_sectorsize decodes_to_more decodes_short bad_frame bad_segment : Error
  truncated_header oversized_segment malformed_segment malformed_stream : Error
  unknown_compression : ℕ → Error
  -- fs.rs
  unmapped_address striped_chunk missing_device unreadable wrong_address bad_node_checksum : Error
  too_many_items wrong_level too_deep bad_chunk_array extent_overflow outside_extent : Error
  inline_too_large implausible_extent symlink_too_long no_device other_filesystem : Error
  refused_features no_subvolume no_inode no_parent endless_parents not_directory : Error
  is_symlink not_found : Error
  -- helper/update.rs
  malformed_signature malformed_key bad_signature wrong_comment not_newer : Error
  -- helper.rs: what the service answers, with its message, and what a client makes of its answers
  helper_missing helper_refused helper_failed predates_update : List ℕ → Error
  unknown_status oversized_message : ℕ → Error
  long_reply : ℕ → ℕ → Error
  long_path : Error
  -- helper/windows/updater.rs
  oversized_download signature_not_utf8 : Error

-- `anyhow::Result` and `io::Result`; the error comes first, as it is the same for all values.
pub data Result {ℓ} (V : Type ℓ) : Type ℓ where
  err : Error → Result V
  ok : V → Result V

infixl 5 ◌>>=◌
-- The `?` operator.
abbrev pub ◌>>=◌ {κ ℓ} : {V : Type κ} {W : Type ℓ} → Result V → (V → Result W) → Result W
err e >>= next = err e
ok v >>= next = next v

infixl 5 ◌>>◌
abbrev pub ◌>>◌ {κ ℓ} : {V : Type κ} {W : Type ℓ} → Result V → Result W → Result W
first >> second = first >>= λ _. second

-- `match r { Ok(v) => accept(v), Err(e) => recover(e) }`.
abbrev pub match_result {κ ℓ} : {V : Type κ} {W : Type ℓ} → (Error → W) → (V → W) → Result V → W
match_result recover accept (err e) = recover e
match_result recover accept (ok v) = accept v

-- `if !holds { bail!(e) }`.
abbrev pub guard : Bool → Error → Result (Unit {0})
guard false e = err e
guard true e = ok tt

-- Where a chain of `?` succeeds, its first step gave a value, and the rest succeeds on it.
pub >>=-eq-ok {κ ℓ} :
    {V : Type κ} {W : Type ℓ} (first : Result V) (next : V → Result W) {w : W}
    → (first >>= next) ≡ ok w
    → (v : V) × (first ≡ ok v) × (next v ≡ ok w)
>>=-eq-ok (err e) next same = cc
>>=-eq-ok (ok v) next same = (v, refl, same)

pub guard-eq-ok : (holds : Bool) (e : Error) {u : Unit {0}} → guard holds e ≡ ok u → holds ≡ true
guard-eq-ok false e same = cc
guard-eq-ok true e same = refl

-- An error that the program returns, and not a panic or a loop without end in the model.
abbrev pub raised : Error → Bool
raised panicked = false
raised out_of_fuel = false
raised _ = true

abbrev pub clean {ℓ} : {A : Type ℓ} → Result A → Bool
clean (ok a) = true
clean (err e) = raised e

-- The code returns: a value, or an error of its own.
abbrev pub IsClean {ℓ} : {A : Type ℓ} → Result A → Type 0
IsClean r = clean r ≡ true

pub IsClean-bind {ℓ κ} :
    {A : Type ℓ} {B : Type κ} (m : Result A) (f : A → Result B)
    → IsClean m
    → ((a : A) → m ≡ ok a → IsClean (f a))
    → IsClean (m >>= f)
IsClean-bind (ok a) f hm hf = hf a refl
IsClean-bind (err e) f hm hf = hm

pub IsClean-if {ℓ} :
    {A : Type ℓ} (b : Bool) (m n : Result A) → IsClean m → IsClean n → IsClean (if b then m else n)
IsClean-if true m n hm hn = hm
IsClean-if false m n hm hn = hn

pub Result-cases {ℓ} :
    {A : Type ℓ} (r : Result A) → ((a : A) × (r ≡ ok a)) ⊎ ((e : Error) × (r ≡ err e))
Result-cases (ok a) = inl (a, refl)
Result-cases (err e) = inr (e, refl)

-- `?` on a step that changes a state.
abbrev pub then_next : {S A B : Type 0} → (A → S → Result B × S) → Result A × S → Result B × S
then_next next (ok a, s) = next a s
then_next next (err e, s) = (err e, s)

pub then_next-eq-ok :
    {S A B : Type 0} (next : A → S → Result B × S) (w : Result A × S) {b : B} {s : S}
    → then_next next w ≡ (ok b, s)
    → (a : A) × (t : S) × (w ≡ (ok a, t)) × (next a t ≡ (ok b, s))
then_next-eq-ok next (ok a, t) h = (a, t, refl, h)
then_next-eq-ok next (err e, t) h = cc
