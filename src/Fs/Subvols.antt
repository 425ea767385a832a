-- ===== src/Fs/Subvols.antt =====
-- fs.rs: the list of subvolumes.
use btrfs_peek.Prelude.{
  ℕ, zero, suc, ◌%◌, Bool, true, not, Option, none, some, List, [], ◌∷◌, ◌++◌, Result, ok, err,
  ◌>>=◌, join, length, leb, ◌==◌, if◌then◌else◌, sort_by, out_of_fuel,
}
use btrfs_peek.Disk.Bytes.{Bytes, bytes, u16_at, u64_at}
use btrfs_peek.Disk.External.{External, eq_bytes}
use btrfs_peek.Disk.Keys.{
  Key, new_key, u64_max, root_item_key, root_backref_key, fs_tree_objectid, first_free_objectid,
  last_free_objectid,
}
use btrfs_peek.Fs.Mirrors.{Filesystem}
use btrfs_peek.Fs.Names.{Method, done, and_do, walk_items}
use btrfs_peek.Fs.Directories.{has_parent_uuid, path_in_tree}

-- `Subvol`.
pub record Subvol : Type 0 where
  pub id : ℕ
  pub parent : ℕ
  pub path : Bytes
  pub readonly : Bool
  pub snapshot : Bool
  pub generation : ℕ

-- The tuples in `items`.
pub record RootItem : Type 0 where
  pub root_id : ℕ
  pub root_generation : ℕ
  pub root_readonly : Bool
  pub root_snapshot : Bool

-- What `backrefs` maps an id to.
pub record Backref : Type 0 where
  pub parent_id : ℕ
  pub dirid : ℕ
  pub name : Bytes

-- What the visitor collects: the items in order, and the map of back references.
pub record Found : Type 0 where
  pub items : List RootItem
  pub backrefs : List (ℕ × Backref)

-- A hash map by id; `insert` puts the newest first.
unfoldable pub find_id : {A : Type 0} → ℕ → List (ℕ × A) → Option A
find_id id [] = none
find_id id ((k, a) ∷ rest) = if k == id then some a else find_id id rest

-- `& 1 != 0`.
abbrev pub is_odd : ℕ → Bool
is_odd n = not (n % 2 == 0)

unfoldable pub parse_root_item : ℕ → Bytes → Result RootItem
parse_root_item id d = do
  snapshot ← has_parent_uuid d
  generation ← u64_at d 160
  flags ← u64_at d 208
  ok (record {
    root_id = id;
    root_generation = generation;
    root_readonly = is_odd flags;
    root_snapshot = snapshot;
  })

keep_item : Found → Result RootItem → Result Bool × Found
keep_item f (ok i) = (ok true, record f { items = f.items ++ (i ∷ []) })
keep_item f (err e) = (err e, f)

keep_backref : ℕ → Found → Result Backref → Result Bool × Found
keep_backref id f (ok b) = (ok true, record f { backrefs = (id, b) ∷ f.backrefs })
keep_backref id f (err e) = (err e, f)

-- `dedup_by_key(|i| i.0)`: of items in a row with one id, the first.
unfoldable pub dedup_after : ℕ → List RootItem → List RootItem
dedup_after id [] = []
dedup_after id (i ∷ is) =
    if i.root_id == id then dedup_after id is else i ∷ dedup_after i.root_id is

unfoldable pub dedup : List RootItem → List RootItem
dedup [] = []
dedup (i ∷ is) = i ∷ dedup_after i.root_id is

-- `.filter(|s| !s.is_empty())`, and `join("/")`.
unfoldable pub nonempty_parts : List Bytes → List Bytes
nonempty_parts [] = []
nonempty_parts (p ∷ ps) = if eq_bytes p [] then nonempty_parts ps else p ∷ nonempty_parts ps

unfoldable pub subvol_path : Bytes → Bytes → Bytes → Bytes
subvol_path parent dir name = join b'/' (nonempty_parts (parent ∷ dir ∷ name ∷ []))

-- `sort_by_key(|s| s.id)`, as a test.
abbrev pub subvol_before : Subvol → Subvol → Bool
subvol_before a b = leb a.id b.id

-- The local variables of the loops: `paths`, `out`, and `next`.
pub record Resolving : Type 0 where
  pub paths : List (ℕ × Bytes)
  pub out : List Subvol
  pub waiting : List RootItem

module _ (x : External) (fs : Filesystem) where
  unfoldable pub parse_backref : Key → Bytes → Result Backref
  parse_backref k d = do
    len ← u16_at d 16
    raw ← bytes d 18 len
    dirid ← u64_at d 0
    ok (record { parent_id = k.offset; dirid = dirid; name = x.from_utf8_lossy raw })

  -- The visitor: `match k.ty`.
  unfoldable pub visit_root : Key → Bytes → Found → Result Bool × Found
  unfolding keep_item keep_backref
  visit_root k d f =
      if k.ty == root_item_key
      then keep_item f (parse_root_item k.objectid d)
      else if k.ty == root_backref_key
      then keep_backref k.objectid f (parse_backref k d)
      else (ok true, f)

  -- A subvolume whose parent's path is known.
  unfoldable pub place : RootItem → Backref → Bytes → Resolving → Bytes → Resolving
  place it b parent_path r dir =
      let path = subvol_path parent_path dir b.name in
      record r {
        paths = (it.root_id, path) ∷ r.paths;
        out =
            r.out
            ++ (record {
              id = it.root_id;
              parent = b.parent_id;
              path = b'/' ∷ path;
              readonly = it.root_readonly;
              snapshot = it.root_snapshot;
              generation = it.root_generation;
            }
                ∷ []);
      }

  with_path : RootItem → Backref → Option Bytes → Resolving → Method Resolving
  with_path it b none r = done (record r { waiting = r.waiting ++ (it ∷ []) })
  with_path it b (some parent_path) r =
      and_do (path_in_tree x fs b.parent_id b.dirid) (λ dir. done (place it b parent_path r dir))

  with_backref : RootItem → Option Backref → Resolving → Method Resolving
  unfolding with_path
  with_backref it none r = done r
  with_backref it (some b) r = with_path it b (find_id b.parent_id r.paths) r

  -- `for it in pending`.
  unfoldable pub place_all : List (ℕ × Backref) → List RootItem → Resolving → Method Resolving
  unfolding with_backref
  place_all backrefs [] r = done r
  place_all backrefs (it ∷ its) r =
      and_do (with_backref it (find_id it.root_id backrefs) r) (place_all backrefs its)

  -- The end of a round with `before` subvolumes pending: nothing new was placed, or on.
  abbrev pub after_round : (Resolving → Method (List Subvol)) → ℕ → Resolving → Method (List Subvol)
  after_round next before r = if length r.waiting == before then done r.out else next r

  -- `while !pending.is_empty()`, on fuel: a round that does not end the loop leaves fewer.
  unfoldable pub place_rounds : List (ℕ × Backref) → ℕ → Resolving → Method (List Subvol)
  place_rounds backrefs zero r c =
      if length r.waiting == 0 then (ok r.out, c) else (err out_of_fuel, c)
  place_rounds backrefs (suc fuel) r c =
      let next = place_rounds backrefs fuel in
      if length r.waiting == 0
      then (ok r.out, c)
      else and_do (place_all backrefs r.waiting (record r { waiting = [] }))
          (after_round next (length r.waiting)) c

  -- `subvols`.
  unfoldable pub subvols : Method (List Subvol)
  subvols =
      and_do
        (walk_items x fs visit_root fs.sb.root (new_key first_free_objectid 0 0)
          (new_key last_free_objectid 255 u64_max) (record { items = []; backrefs = [] }))
        (λ f.
          let items = dedup f.items in
          and_do
            (place_rounds f.backrefs (length items)
              (record { paths = (fs_tree_objectid, []) ∷ []; out = []; waiting = items }))
            (λ out. done (sort_by subvol_before out)))
