-- ===== src/Fs/Walk.antt =====
-- fs.rs: the tree walk. It is generic in how a tree block is read (`C` is the state that a read
-- changes, the node cache) and in the visitor, a closure over a state `S`.
pub mod Trees
pub mod Scan
pub mod Refines
pub mod Ranges
use btrfs_peek.Prelude.{
  ℕ, zero, suc, ◌+◌, ◌-◌, ◌*◌, ◌/◌, ◌%◌, ◌^◌, ◌≤◌, ◌<◌, min, max, bit_and, bit_or, ◌≡◌, refl, sym,
  ap, ◌∙◌, ◌≢◌, ◌↔◌, ◌⊎◌, inl, inr, Bool, true, false, not, ◌&&◌, ◌||◌, Option, none, some, List,
  [], ◌∷◌, ◌++◌, map, append_assoc, append-nil, arith, Error, Result, ok, err, ◌>>=◌, ◌>>◌,
  >>=-eq-ok, guard, guard-eq-ok, raised, match_result, then_next, then_next-eq-ok, clean, IsClean,
  IsClean-bind, IsClean-if, ascii, onto, onto_first, split_once, split, strip_prefix, join,
  strip_prefix-append, strip_prefix_lem, Lacks, split_once-append, split_once_lem, join-split,
  split-append, split_whole, length, get_elem?, take, drop, replicate, All, length-append,
  length-take, length-drop, length-replicate, take-append_length, drop-append_length, take_all,
  take-append-drop, take_add, drop-drop, drop-take, take-take, take-append_le, All-append, All-take,
  All-drop, All-replicate, ltb, leb, ◌==◌, if◌then◌else◌, ltb→lt, lt→ltb, le→leb, leb→le, ==→eq,
  eq→==, Bool-cases, Option-cases, Result-cases, all_below, all_below_sound, insert_by, sort_by,
  IsSortedBy, sort_by-Perm, sort_by-IsSortedBy, Permᴰ, is_digit, AreDigits, all_digits,
  all_digits-AreDigits, AreDigits-all_digits, digits_from, to_decimal, digits_from-append,
  digits_from-to_decimal, to_decimal-AreDigits, to_decimal_fuel, digits_from-lt,
  to_decimal-digits_from, length-to_decimal, LeadsNonzero, to_decimal-LeadsNonzero,
  to_decimal-canonical, panicked, out_of_fuel, corrupt_structure, no_magic, checksum_mismatch,
  encrypted, zero_stripes, bad_array_size, bad_sectorsize, bad_nodesize, unknown_extent_type,
  io_error, unexpected_eof, implausible_size, zero_sectorsize, decodes_to_more, decodes_short,
  bad_frame, bad_segment, truncated_header, oversized_segment, malformed_segment, malformed_stream,
  unknown_compression, unmapped_address, striped_chunk, missing_device, unreadable, wrong_address,
  bad_node_checksum, too_many_items, wrong_level, too_deep, bad_chunk_array, extent_overflow,
  outside_extent, inline_too_large, implausible_extent, symlink_too_long, no_device,
  other_filesystem, refused_features, no_subvolume, no_inode, no_parent, endless_parents,
  not_directory, is_symlink, not_found, malformed_signature, malformed_key, bad_signature,
  wrong_comment, not_newer, helper_missing, helper_refused, helper_failed, predates_update,
  unknown_status, oversized_message, long_reply, long_path, oversized_download, signature_not_utf8,
}
use btrfs_peek.Disk.Keys.{Key, ltb_key, leb_key}
use btrfs_peek.Disk.Bytes.{Bytes}
use btrfs_peek.Fs.Nodes.{Node, level, nritems, item, ptr}

-- What the loop over the children does with the next one.
pub data ChildStep : Type 0 where
  stop skip : ChildStep
  descend : ℕ → ChildStep

-- The walk goes on only where the visitor, or the walk below a child, returned `true`.
abbrev pub and_then : {S : Type 0} → (S → Result Bool × S) → Result Bool × S → Result Bool × S
and_then rest (ok true, s) = rest s
and_then rest (ok false, s) = (ok false, s)
and_then rest (err e, s) = (err e, s)

-- The parts of `if let Some(expected) = expect_level { if node.level() != expected { bail } }`.
unfoldable pub check_level : Option ℕ → ℕ → Result (Unit {0})
check_level none l = ok tt
check_level (some expected) l = guard (l == expected) wrong_level

-- The number of items and the level of a node that stands where it is expected.
unfoldable pub node_shape : Option ℕ → Node → Result (ℕ × ℕ)
unfolding check_level
node_shape expect node = do n ← nritems node; l ← level node; check_level expect l; ok (n, l)

-- The same below a child, with the cache.
abbrev pub after_child :
    {C S : Type 0} → (C → S → Result Bool × C × S) → Result Bool × C × S → Result Bool × C × S
after_child rest (ok true, c, s) = rest c s
after_child rest (ok false, c, s) = (ok false, c, s)
after_child rest (err e, c, s) = (err e, c, s)

abbrev pub with_cache : {C S : Type 0} → C → Result Bool × S → Result Bool × C × S
with_cache c (r, s) = (r, c, s)

-- `if i + 1 < n && node.ptr(i + 1)?.0 <= *min { continue; }`
unfoldable pub skip_child : Key → Node → ℕ → ℕ → Result Bool
skip_child lo node n i =
    let next = do (key, _) ← ptr node (i + 1); ok (leb_key key lo)
    in if ltb (i + 1) n then next else ok false

unfoldable pub child_step : Key → Key → Node → ℕ → ℕ → Result ChildStep
unfolding skip_child
child_step lo hi node n i =
    let below =
      λ (child : ℕ). do passed ← skip_child lo node n i; ok (if passed then skip else descend child)
    in do (key, child) ← ptr node i; if ltb_key hi key then ok stop else below child

unfoldable pub visit_child :
    {C S : Type 0}
    → (C → S → Result Bool × C × S)
    → (ℕ → C → S → Result Bool × C × S)
    → Result ChildStep
    → C
    → S
    → Result Bool × C × S
visit_child rest below (err e) c s = (err e, c, s)
visit_child rest below (ok stop) c s = (ok false, c, s)
visit_child rest below (ok skip) c s = rest c s
visit_child rest below (ok (descend child)) c s = after_child rest (below child c s)

-- `for i in 0..n` in an interior node: `n`, the rounds left, and `i`.
unfoldable pub visit_children :
    {C S : Type 0}
    → Key
    → Key
    → (ℕ → C → S → Result Bool × C × S)
    → Node
    → ℕ
    → ℕ
    → ℕ
    → C
    → S
    → Result Bool × C × S
unfolding visit_child child_step
visit_children lo hi below node n zero i c s = (ok true, c, s)
visit_children lo hi below node n (suc left) i c s =
    visit_child (visit_children lo hi below node n left (i + 1)) below (child_step lo hi node n i) c
      s

module _ {S : Type 0} (visit : Key → Bytes → S → Result Bool × S) (lo hi : Key) where
  -- One item of a leaf: below `min` it is passed over, past `max` the walk stops.
  unfoldable pub leaf_item : (S → Result Bool × S) → Result (Key × Bytes) → S → Result Bool × S
  leaf_item rest (err e) s = (err e, s)
  leaf_item rest (ok (key, payload)) s =
      if ltb_key key lo
      then rest s
      else if ltb_key hi key
      then (ok false, s)
      else and_then rest (visit key payload s)

  -- `for i in 0..n` in a leaf: the rounds left, and `i`.
  unfoldable pub visit_leaf : Node → ℕ → ℕ → S → Result Bool × S
  unfolding leaf_item
  visit_leaf node zero i s = (ok true, s)
  visit_leaf node (suc left) i s = leaf_item (visit_leaf node left (i + 1)) (item node i) s

  unfoldable pub visit_node :
      {C : Type 0}
      → (Option ℕ → ℕ → C → S → Result Bool × C × S)
      → Node
      → Result (ℕ × ℕ)
      → C
      → S
      → Result Bool × C × S
  unfolding visit_leaf visit_children
  visit_node below node (err e) c s = (err e, c, s)
  visit_node below node (ok (n, l)) c s =
      if l == 0
      then with_cache c (visit_leaf node n 0 s)
      else visit_children lo hi (below (some (l - 1))) node n n 0 c s

  abbrev pub visit_read :
      {C : Type 0}
      → (Option ℕ → ℕ → C → S → Result Bool × C × S)
      → Option ℕ
      → Result Node × C
      → S
      → Result Bool × C × S
  visit_read below expect (err e, c) s = (err e, c, s)
  visit_read below expect (ok node, c) s = visit_node below node (node_shape expect node) c s

  module _ {C : Type 0} (read_node : ℕ → C → Result Node × C) where
    -- `walk_node`; the first argument is `9 - depth`, so `depth > 8` is zero.
    unfoldable pub walk_node : ℕ → Option ℕ → ℕ → C → S → Result Bool × C × S
    unfolding visit_node node_shape
    walk_node zero expect logical c s = (err too_deep, c, s)
    walk_node (suc left) expect logical c s =
        visit_read (walk_node left) expect (read_node logical c) s

    -- `walk`: every item with `lo <= key <= hi` in order, until the visitor returns `false`.
    unfoldable pub walk : ℕ → C → S → Result Bool × C × S
    unfolding walk_node
    walk root c s = walk_node 9 none root c s
