-- ===== src/Lib.antt =====
-- btrfs-peek reads a btrfs filesystem without mounting it. This library models the part of it that
-- turns the bytes of a device into files, and states what makes it correct.
--
-- The program's parts. `src/dev.rs` reads ranges of a device or an image. `src/disk.rs` parses the
-- structures of the disk format out of byte slices. `src/fs.rs` maps logical addresses to devices,
-- reads, checks and caches tree blocks, walks a tree for the items in a range of keys, and hands the
-- contents of a file to a sink, extent by extent. `src/decompress.rs` decodes compressed extents.
-- On Windows a service reads partitions for accounts that may not: `src/helper.rs` is its protocol,
-- both sides of it, `src/helper/update.rs` decides which release it installs over itself, and
-- `src/helper/windows/updater.rs` installs it. `src/copy.rs` copies files out, under host names.
--
-- Where they are modelled:
--   Prelude       results and errors, lists over the native naturals, tests;
--   Disk          `src/disk.rs`: Bytes, Keys, Superblocks, Chunks, Inodes, DirEntries and Extents
--                 hold the parsers, a child Encoding the layout that a parser reads, and Robust
--                 their totality;
--   Decompress    `src/decompress.rs`: zlib, zstd and LZO extents with their size checks;
--   Dev           `Device::read` of `src/dev.rs`;
--   Fs            `src/fs.rs`: Nodes has the accessors of `Node`; Walk `walk` and `walk_node`;
--                 Mirrors the chunk map, `mirrors` and `read_logical`; Blocks `read_node` with its
--                 cache; Items `get`; Emit the closure `emit` of `read_range` and its sink; Contents
--                 `compressed_extent` and the loop of `read_range` over the extents; Names `tree`,
--                 `root`, `inode`, `entry`, `lookup` and `extents`; Directories `readdir`,
--                 `path_in_tree`, `is_snapshot` and `default_subvol`; Files `resolve` and the whole
--                 of `read_range`; Subvols `subvols`; Opening `open`;
--   Helper        Versions, Updates: `src/helper/update.rs`; Paths: `partition_path_ok` and `sid_ok`
--                 of `src/helper.rs`; Wire: the bytes of a connection; Server: `serve_client`;
--                 Partitions: `open_partition`; Client: `Session`; Installs: the check for an update
--                 of `src/helper/windows/updater.rs`;
--   Copy          `host_name` of `src/copy.rs`;
--   Tests         the theorems at small inputs.
--
-- How the code corresponds. A slice of bytes is a list of numbers. An integer is a natural number
-- with its wrap-around or its checked addition written out; a `usize` has 64 bits. A function that
-- returns `Result` returns the type Result, whose errors name the branch that raised them, not the
-- text of the message. A panic of Rust is the error `panicked`, so a theorem that excludes it is a
-- theorem about the code. State that a method changes behind a `RefCell` (the cached nodes and
-- tree roots, the last extent) and the state of a closure (a visitor, a sink) are arguments and
-- components of the result.
--
-- What is a parameter: crc32c, the repair of UTF-8, the decoders of the crates flate2, ruzstd and
-- lzokay_native, one read of the operating system, the crate minisign_verify, and for the service
-- the opening of a file, the texts of errors, the check that a path is UTF-8, its updates, curl, and
-- which of the calls that change a file fail. A connection is the bytes that the other side sends,
-- whether a read behind them fails or finds that it has hung up, and the number of bytes that it
-- takes.
--
-- Fuel. The loop over directory entries runs on the length of the item, since each entry takes 30
-- bytes; the LZO loop on the length of the frame, since each segment takes five; the read loop on
-- the bytes wanted and the number of interruptions; the loop that emits an extent on the bytes that
-- are left; the loop of the service on the bytes that its client sends, the one over the system chunk
-- array on the array's length, and the one over pending subvolumes on their number. Each
-- is enough, since a round that does not end its loop takes a byte at least, or is an interruption,
-- or leaves fewer subvolumes pending. The limits of nine levels in a walk and of 4096 parents in a
-- path are the program's own.
--
-- What is not modelled: `src/main.rs`, `src/scan.rs`, `src/helper/windows.rs`, the copying of a tree
-- in `src/copy.rs`, the timers and the status file of the updater; and the texts of messages, unless
-- a client reads them.
pub mod Prelude
pub mod Disk
pub mod Decompress
pub mod Dev
pub mod Fs
pub mod Helper
pub mod Copy
pub mod Tests
