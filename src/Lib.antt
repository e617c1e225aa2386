-- ===== src/Lib.antt =====
-- Nebula FS, the file system of this repository: its core library, written in C, and the object
-- store on top of it, written in C++, modelled over explicit bytes. Paths below are paths of the
-- repository.
--
-- A device is a file of blocks of 4096 bytes. `src/nebula/nebula_layout.c` divides it into regions;
-- `nebula_mbr.c`, `nebula_superblock.c`, `nebula_uberblock.c`, `nebula_allocator_roots.c`,
-- `nebula_bitmap.c` and `nebula_inode_init.c` write and read them; `nebula_mount.c` and
-- `nebula_hier_bitmap.c` load them into a `struct nebula_mount`, on which the block allocator, the
-- inodes, the directory, the files and the public calls work. Transfers go through
-- `src/io/nebula_io_posix.c` or, with NVMe devices, `src/io/nebula_io_spdk.c`.
-- `tools/nebula_format.c` writes a new file system, and `tools/nebula_label.c` reads and writes its
-- label; `tools/nebula_rw.c` has commands on files and names.
--
-- Bytes are a function from offsets to numbers, read modulo 256 (Format/Bytes). A C structure is a
-- list of field widths, and its members are fields with the offset and the width that follow from
-- it (Format/Structs and the file of each structure). Machine integers are natural numbers with the
-- wrap-around written out: `add64`, `sub64`, `mul64` and `u32` (Base/Words). A function that
-- changes state is a `Cmd S A`, a function from the state to a result and the new state
-- (Base/Outcome); an error is `err` with the errno. The state of the device is `Io` (Io/Raw): the
-- file, its capacity, and lists of what the next calls of `pread`, `pwrite` and `fsync`, of
-- `aligned_alloc` and of `clock_gettime` do. A transfer may fail with any errno, be interrupted, or
-- move fewer bytes than asked; a list that has run out stands for calls that succeed. NULL
-- arguments, logging and the release of memory are left out; a test `argument == NULL` therefore
-- has no counterpart.
--
-- Base: words, Boolean tests, results, errno. Format: bytes, structures, constants, CRC-32C
-- (`src/util/crc32c.c`). Bits: `bit_get`, `bit_set`, `bit_clr` and runs of them. Io: `posix_read`,
-- `posix_write`, `posix_flush` and `nebula_io_open` (Io/Open, over a host with one file), and the
-- promise of a backend, whichever it is (Io/Contract). State: `struct nebula_hier_bitmap` and
-- `struct nebula_mount`. Alloc: `src/nebula/nebula_block_alloc.c`, with the scan in Alloc/Scan, the
-- summaries in Alloc/Summary and the operations in Alloc/Block. Layout, LayoutLaws:
-- `nebula_layout.c`. RootChunk: `nebula_root_sub_alloc.c`. Meta: the metadata blocks and regions.
-- Mounting: `nebula_hier_bitmap.c` and `nebula_mount.c`. Inodes: `nebula_inode_alloc.c`. Dirs:
-- `nebula_dir.c`. Files: `nebula_file.c`. Fs: `nebula_fs.c`. Fsck: `tools/nebula_fsck.c`. Uuid:
-- `src/util/uuid.c`, over the outcomes of `open` and `read` on `/dev/urandom`. Tools:
-- `tools/nebula_format.c` in Mkfs and `tools/nebula_label.c` in Label, `tools/nebula_rw.c` in Rw,
-- with what they parse in Args, and lemmas in MkfsLaws, MkfsClaims, MkfsRuns and Published;
-- `strtoull` is the one of C. DmaPool, DmaChain, DmaSteps, DmaLaws: `src/io/nebula_dma_pool.c`,
-- with memory as bytes; the allocation that SPDK makes is a parameter. ObjStore and RocksFs: below.
-- Tests: concrete runs.
--
-- The object store, `src/objstore`, keeps objects as extents in chunks of 64 MiB that it takes from
-- the block allocator, and their metadata in RocksDB, a library outside the repository. That
-- library is the parameter `Db` (ObjStore/Db): lookups, puts and batches with their status, and
-- iterators as the list of the entries from their position on; what theorems rely on in it is the
-- record `DbLaws` (ObjStore/DbLaws), with an instance in Tests/KeyValues. ObjStore/Status: the
-- status codes and actions, which answer a value or a status; Codec, Records, ObjectPath:
-- `common.cc`, with strings as lists of bytes and values little-endian, as on the usual hosts;
-- Keys, Metadata, Extents: `metadata.cc`; Chunks: `chunk.cc`; Append, Reader, Calls:
-- `object_store.cc`. The state is `Store`: the mount, the metadata with its counters, and the
-- active chunk. A variable that a visitor captures is a field of the state of its scan. The other
-- files hold the lemmas: CodecLaws, RoundTrip, KeyOrder and PathLaws about strings, DbLaws,
-- Counters and CreateLaws about the metadata, ChunkLaws and ReserveLaws about the chunks,
-- SegmentLaws, ReadyLaws and AppendLaws about writing, Transfer and ReadLaws about reading, with
-- the rules of Triple for what an action leaves on success and on failure.
--
-- The adapter by which RocksDB stores its own files through the library, `src/rocksdb`: RocksFs,
-- with the statuses in Answer, the sequential, random access and writable files in Handles, the
-- calls that take a name in Names, and lemmas about `basename` in BaseLaws. The contents of an
-- `IOStatus` are left out, but for its kind.
--
-- The SPDK backend: Spdk/Nvme and Spdk/Open have `src/io/nebula_spdk_nvme.c` and the opening in
-- `nebula_io_spdk.c`, Spdk/Backend the transfers. The SPDK library is outside the repository: what
-- it answers for its commands and namespaces is the parameter `Driver` with the lists of
-- namespaces, the sizes of the strings of a transport identifier are the parameter `TridSizes`, and
-- what theorems rely on in it is the record `DriverLaws` (Spdk/NvmeLaws), with an instance in
-- Tests/Namespaces.
--
-- Meta/Keeps, Meta/Leaves and Meta/Works have rules for what a sequence of writes keeps, leaves and
-- needs; Base/Hoare those for what holds after a success.
--
-- Alloc/Held and Alloc/Ownership have sequences of calls of the block allocator, as a relation of
-- steps on the mount and the runs that are held.
--
-- Loops are structural recursion on the number of rounds that the source bounds them by, or on the
-- list of outcomes of the system. Some loops have no such bound in the source and run on fuel: the
-- rounds of a file transfer, each of which moves at least one byte, have as fuel the length of the
-- transfer, and so do the rounds of a write to an object; the batches of a zeroed region, each of
-- at least one block, have the number of blocks and one, and so have the batches of a transfer of
-- the SPDK backend; and the scan of the chunks at opening, which ends at the first identifier
-- without a chunk, has fuel that its caller chooses, and a result of its own, `none`, where it is
-- too little.
--
-- Not modelled: the start and the end of the SPDK environment, which only call that library; the
-- wait for a completion, which the parameter answers; the locks of the object store and of the
-- adapter, the opening of their device and of RocksDB, and those calls of the adapter that do
-- nothing; logging and printing; the other command line tools; the lock and the waiting of the DMA
-- pool.
pub mod Base
pub mod Io
pub mod Format
pub mod Bits
pub mod State
pub mod Alloc
pub mod Layout
pub mod LayoutLaws
pub mod RootChunk
pub mod Meta
pub mod Mounting
pub mod Inodes
pub mod Dirs
pub mod Files
pub mod Fs
pub mod Fsck
pub mod DmaPool
pub mod DmaChain
pub mod DmaSteps
pub mod DmaLaws
pub mod ObjStore
pub mod RocksFs
pub mod Uuid
pub mod Tools
pub mod Spdk
pub mod Tests
