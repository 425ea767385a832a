-- ===== src/Disk/Extents/Encoding.antt =====
-- A file extent item read back from its bytes.
use btrfs_peek.Prelude.{
  ℕ, ◌+◌, ◌-◌, ◌≡◌, refl, sym, [], ◌∷◌, ◌++◌, append-nil, arith, ok, length, length-append,
}
use btrfs_peek.Disk.Bytes.{Bytes, IsU64, to_le_bytes}
use btrfs_peek.Disk.Bytes.Slices.{At, At-left, At-skip, bytes-At, length-to_le_bytes}
use btrfs_peek.Disk.Bytes.Words.{u8_at-At, u64_at-At}
use btrfs_peek.Disk.Extents.{
  ExtentKind, inline, regular, prealloc, Extent, extent_kind, parse_extent,
}

-- The type byte of a kind, and what follows it.
type_byte : ExtentKind → ℕ
type_byte (inline raw) = 0
type_byte (regular disk_bytenr disk_num_bytes offset) = 1
type_byte prealloc = 2

-- A preallocated extent stores three words that the parser skips, here `skipped`.
encode_kind : ExtentKind → Bytes → ℕ → Bytes
encode_kind (inline raw) skipped len = raw
encode_kind (regular disk_bytenr disk_num_bytes offset) skipped len =
    to_le_bytes 8 disk_bytenr
    ++ (to_le_bytes 8 disk_num_bytes ++ (to_le_bytes 8 offset ++ to_le_bytes 8 len))
encode_kind prealloc skipped len = skipped ++ to_le_bytes 8 len

-- An extent item: generation, ram_bytes, compression, encryption, two more bytes, type, contents.
unfoldable pub encode_extent : Extent → Bytes → Bytes → Bytes → Bytes
unfolding type_byte encode_kind
encode_extent e generation encoding skipped =
    generation
    ++ (to_le_bytes 8 e.ram_bytes
        ++ (e.compression
            ∷ 0
            ∷ (encoding ++ (type_byte e.kind ∷ encode_kind e.kind skipped e.len))))

-- What the stored fields can hold; an inline extent contributes its `ram_bytes`.
abbrev pub FitsKind : ExtentKind → ℕ → ℕ → Type 0
FitsKind (inline raw) ram_bytes len = len ≡ ram_bytes
FitsKind (regular disk_bytenr disk_num_bytes offset) ram_bytes len =
    IsU64 disk_bytenr × IsU64 disk_num_bytes × IsU64 offset
FitsKind prealloc ram_bytes len = Unit {0}

pub record FitsExtent (e : Extent) (generation encoding skipped : Bytes) : Type 0 where
  pub ram_bytes : IsU64 e.ram_bytes
  pub len : IsU64 e.len
  pub kind : FitsKind e.kind e.ram_bytes e.len
  pub generation_length : length generation ≡ 8
  pub encoding_length : length encoding ≡ 2
  pub skipped_length : length skipped ≡ 24

extent_kind-encode_kind :
    {b : Bytes} (k : ExtentKind) (skipped : Bytes) (ram_bytes len : ℕ)
    → length b ≡ 21 + length (encode_kind k skipped len)
    → IsU64 (length b)
    → IsU64 len
    → FitsKind k ram_bytes len
    → length skipped ≡ 24
    → At b 21 (encode_kind k skipped len)
    → extent_kind b (type_byte k) ram_bytes ≡ ok (k, len)
unfolding extent_kind encode_kind type_byte
extent_kind-encode_kind {b} (inline raw) skipped ram_bytes len e w l f s a =
    rw (bytes-At raw (length b - 21) (omega (arith, e)) w a) (cc f)
extent_kind-encode_kind {b} (regular d n o) skipped ram_bytes len e w l (fd, fn, fo) s a =
    let bytenr = to_le_bytes 8 d in
    let num = to_le_bytes 8 n in
    let off = to_le_bytes 8 o in
    let size = to_le_bytes 8 len in
    let at29 = At-skip bytenr (num ++ (off ++ size)) 8 29 (length-to_le_bytes 8 _) refl a in
    let at37 = At-skip num (off ++ size) 8 37 (length-to_le_bytes 8 _) refl at29 in
    let at45 = At-skip off size 8 45 (length-to_le_bytes 8 _) refl at37 in
    rw (
      u64_at-At len w l at45,
      u64_at-At d w fd (At-left bytenr _ a),
      u64_at-At n w fn (At-left num _ at29),
      u64_at-At o w fo (At-left off _ at37),
    )
extent_kind-encode_kind {b} prealloc skipped ram_bytes len e w l f s a =
    rw (u64_at-At len w l (At-skip skipped (to_le_bytes 8 len) 24 45 s refl a))

length-encode_extent :
    (e : Extent) (generation encoding skipped : Bytes)
    → FitsExtent e generation encoding skipped
    → length (encode_extent e generation encoding skipped)
      ≡ 21 + length (encode_kind e.kind skipped e.len)
unfolding encode_extent
length-encode_extent e generation encoding skipped f =
    simp (length-append, length-to_le_bytes) (omega (arith, f.generation_length, f.encoding_length))

parse_extent-At :
    {b : Bytes} (e : Extent) (generation encoding skipped : Bytes)
    → FitsExtent e generation encoding skipped
    → IsU64 (length b)
    → length b ≡ 21 + length (encode_kind e.kind skipped e.len)
    → At b 0 (encode_extent e generation encoding skipped)
    → parse_extent e.file_off b ≡ ok e
unfolding encode_extent parse_extent
parse_extent-At {b} e generation encoding skipped f w n at0 =
    let ram = to_le_bytes 8 e.ram_bytes in
    let contents = encode_kind e.kind skipped e.len in
    let after17 = encoding ++ (type_byte e.kind ∷ contents) in
    let at8 =
      At-skip generation (ram ++ (e.compression ∷ 0 ∷ after17)) 8 8 f.generation_length refl at0 in
    let at16 = At-skip ram (e.compression ∷ 0 ∷ after17) 8 16 (length-to_le_bytes 8 _) refl at8 in
    let at17 = At-skip (e.compression ∷ []) (0 ∷ after17) 1 17 refl refl at16 in
    let at18 = At-skip (0 ∷ []) after17 1 18 refl refl at17 in
    let at20 = At-skip encoding (type_byte e.kind ∷ contents) 2 20 f.encoding_length refl at18 in
    let at21 = At-skip (type_byte e.kind ∷ []) contents 1 21 refl refl at20 in
    rw (
      u64_at-At e.ram_bytes w f.ram_bytes (At-left ram _ at8),
      u8_at-At e.compression w (At-left (e.compression ∷ []) _ at16),
      u8_at-At 0 w (At-left (0 ∷ []) after17 at17),
      u8_at-At (type_byte e.kind) w (At-left (type_byte e.kind ∷ []) contents at20),
      extent_kind-encode_kind e.kind skipped e.ram_bytes e.len n w f.len f.kind f.skipped_length
          at21,
    )

-- Every extent, inline, on disk or preallocated, whose fields fit is read back from its item, which is unencrypted and holds any generation, encoding and skipped words.
pub parse_extent-encode_extent :
    (e : Extent) (generation encoding skipped : Bytes)
    → FitsExtent e generation encoding skipped
    → IsU64 (length (encode_extent e generation encoding skipped))
    → parse_extent e.file_off (encode_extent e generation encoding skipped) ≡ ok e
parse_extent-encode_extent e generation encoding skipped f w =
    parse_extent-At e generation encoding skipped f w
      (length-encode_extent e generation encoding skipped f)
      (record { before = []; after = []; whole = sym (append-nil _); offset = refl })
