-- ===== src/Helper/Updates/Trusted.antt =====
-- Which updates the service trusts.
use btrfs_peek.Prelude.{
  ◌^◌, ◌<◌, ◌≡◌, refl, sym, ap, ◌∙◌, inl, inr, true, false, Option, none, some, ◌∷◌, ◌++◌, arith,
  Error, ok, >>=-eq-ok, guard, guard-eq-ok, ascii, split_once, strip_prefix, strip_prefix-append,
  strip_prefix_lem, split_once-append, split_once_lem, Bool-cases, Option-cases,
  malformed_signature, malformed_key, bad_signature, wrong_comment, not_newer,
}
use btrfs_peek.Disk.Bytes.{Bytes}
use btrfs_peek.Disk.External.{eq_bytes, eq_bytes→eq}
use btrfs_peek.Helper.Versions.{Text, Version, parse_version, display_version, ltb_version}
use btrfs_peek.Helper.Versions.Spelling.{
  display_version-parse_version, parse_version-display_version, display_version-Lacks,
}
use btrfs_peek.Helper.Updates.{
  Minisign, target, program, versioned_for, after_program, comment_version, or_error, verify_update,
  up_to_date, installed, updated_to, display_update, first_part, after_updated, installed_version,
}

-- The only comment that names a version.
abbrev pub comment_of : Version → Text
comment_of v = program ++ (display_version v ++ (b' ' ∷ target))

versioned_for_lem :
    (o : Option (Text × Text)) (v : Version)
    → versioned_for o ≡ some v
    → (s : Text) × (o ≡ some (s, target)) × (display_version v ≡ s)
unfolding versioned_for
versioned_for_lem none v h = cc
versioned_for_lem (some (s, t)) v h = elim (Bool-cases (eq_bytes t target)) [
  | inl same ↦
      let e = eq_bytes→eq t target same in
      (s, rw e refl, display_version-parse_version s v (rw same at h))
  | inr other ↦ cc (rw other at h)
]

comment_version_lem : (c : Text) (v : Version) → comment_version c ≡ some v → c ≡ comment_of v
unfolding comment_version after_program
comment_version_lem c v h = elim (Option-cases (strip_prefix program c)) [
  | inl missing ↦ cc (rw missing at h)
  | inr (rest, found) ↦
      let (s, e, spelled) = versioned_for_lem (split_once b' ' rest) v (rw found at h) in
      strip_prefix_lem program c found
      ∙ ap (λ t. program ++ t)
          (split_once_lem b' ' rest e ∙ ap (λ t. t ++ (b' ' ∷ target)) (sym spelled))
]

-- Fields that the program can print and read back.
abbrev pub HasShortFields : Version → Type 0
HasShortFields v = (v.major < 10 ^ 19) × (v.minor < 10 ^ 19) × (v.patch < 10 ^ 19)

read_back : (v : Version) → HasShortFields v → parse_version (display_version v) ≡ some v
read_back v (a, b, c) = parse_version-display_version v a b c

comment_version-comment_of :
    (v : Version) → HasShortFields v → comment_version (comment_of v) ≡ some v
unfolding comment_version after_program versioned_for
comment_version-comment_of v f =
    rw
      (
        strip_prefix-append program (display_version v ++ (b' ' ∷ target)),
        split_once-append b' ' (display_version v) target (display_version-Lacks b' ' v refl refl),
      )
      (unfold eq_bytes in read_back v f)

-- What the service demands of an update: a key and a signature that can be read, a signature of exactly these bytes by that key, not of the old kind, the one comment for the version, and a newer version.
pub record IsTrusted (m : Minisign) (public_key_b64 : Text) (exe : Bytes) (sig : Text)
    (running v : Version) : Type 0 where
  pub key : m.PublicKey
  pub signature : m.Signature
  pub reads_key : m.from_base64 public_key_b64 ≡ some key
  pub reads_signature : m.decode_signature sig ≡ some signature
  pub signs_exe : m.verify key exe signature false ≡ true
  pub names_version : m.trusted_comment signature ≡ comment_of v
  pub newer : ltb_version running v ≡ true

or_error-eq-ok : {A : Type 0} (e : Error) (o : Option A) {a : A} → or_error e o ≡ ok a → o ≡ some a
unfolding or_error
or_error-eq-ok e none h = cc
or_error-eq-ok e (some b) h = ground (arith, h)

-- An update is accepted as version `v` only if it is trusted: signed by the key, byte for byte, for this program and target, as exactly `v`, and newer than the running version.
pub verify_update-IsTrusted :
    (m : Minisign) (public_key_b64 : Text) (exe : Bytes) (sig : Text) (running v : Version)
    → verify_update m public_key_b64 exe sig running ≡ ok v
    → IsTrusted m public_key_b64 exe sig running v
unfolding verify_update
verify_update-IsTrusted m public_key_b64 exe sig running v h =
    let (key, reads_key, h1) =
      >>=-eq-ok (or_error malformed_key (m.from_base64 public_key_b64)) _ h in
    let (s, reads_signature, h2) =
      >>=-eq-ok (or_error malformed_signature (m.decode_signature sig)) _ h1 in
    let (u, signs, h3) = >>=-eq-ok (guard (m.verify key exe s false) bad_signature) _ h2 in
    let (w, names, h4) =
      >>=-eq-ok (or_error wrong_comment (comment_version (m.trusted_comment s))) _ h3 in
    let (u', newer, h5) = >>=-eq-ok (guard (ltb_version running w) not_newer) _ h4 in
    let same : w ≡ v = ground (arith, h5) in
    record {
      key = key;
      signature = s;
      reads_key = or_error-eq-ok malformed_key _ reads_key;
      reads_signature = or_error-eq-ok malformed_signature _ reads_signature;
      signs_exe = guard-eq-ok (m.verify key exe s false) bad_signature signs;
      names_version =
          comment_version_lem (m.trusted_comment s) v
            (or_error-eq-ok wrong_comment _ (names ∙ ap ok same));
      newer = rw same at (guard-eq-ok (ltb_version running w) not_newer newer);
    }

-- A trusted update is accepted as the version that its comment names, for versions with fields of nineteen digits at most.
pub IsTrusted-verify_update :
    (m : Minisign) (public_key_b64 : Text) (exe : Bytes) (sig : Text) (running v : Version)
    → HasShortFields v
    → IsTrusted m public_key_b64 exe sig running v
    → verify_update m public_key_b64 exe sig running ≡ ok v
unfolding verify_update or_error
IsTrusted-verify_update m public_key_b64 exe sig running v f t =
    rw
      (
        t.reads_key,
        t.reads_signature,
        t.signs_exe,
        t.names_version,
        comment_version-comment_of v f,
        t.newer,
      )
      refl

-- The client reads the installed version back out of the service's reply, for fields of nineteen digits at most, and no version out of the reply that nothing was installed.
pub installed_version-display_update :
    (v : Version)
    → v.major < 10 ^ 19
    → v.minor < 10 ^ 19
    → v.patch < 10 ^ 19
    → (installed_version (display_update (installed v)) ≡ some v)
      × (installed_version (display_update (up_to_date v)) ≡ none)
unfolding installed_version display_update after_updated first_part
installed_version-display_update v a b c = (
  rw
      (
        strip_prefix-append updated_to
            (display_version v ++ (b';' ∷ ascii " restarting when idle")),
        split_once-append b';' (display_version v) (ascii " restarting when idle")
            (display_version-Lacks b';' v refl refl),
      )
      (parse_version-display_version v a b c),
  unfold strip_prefix in refl,
)
