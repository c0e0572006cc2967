-- ===== src/Lib.antt =====
-- yubindb is a key-value store of the LSM kind. A write is a batch (db/writebatch) that is appended
-- to the log (db/walog, over the buffered file of util/env) and inserted into the memtable
-- (db/memtable, over a skip list ordered by internal keys, util/key). Recovery reads the log
-- (db/reader) and the manifest, which is a log of version edits (db/version_edit). All formats
-- rest on the coding of util/common. This library models these parts:
--
-- - State: class State of util/common.h.
-- - Coding: util/common: fixed and variable-length integers, strings behind their length. Bytes
--   are natural numbers, a pointer and its limit are the list of the bytes between them, words wrap
--   around as written. The loops of the 64-bit codec run on ten rounds, the number of 7-bit groups
--   of a word.
-- - Key: util/key and the `cmp` of util/options.h: InternalKey, Lookey, SkiplistKey.
-- - File: WritableFile and ReadFile of util/env. `::write`, `::read` and `::lseek` are parameters;
--   theorems assume a disk whose writes are whole (IsReliable). The loop of Flush runs on as many
--   rounds as there are bytes, and one.
-- - Crc: the library crc32c, a parameter with its documented law.
-- - Wal: walWriter of db/walog. The loop of Appendrecord runs on a round for each byte and one:
--   a round takes a byte, but for one that finds seven bytes left in the block.
-- - Reader: Reader of db/reader. ReadPhysicalRecord runs on three rounds: one fills the store and
--   the next parses it or stops. The end of a function without a `return` is a value of its own.
-- - Memtable: Memtable::Add and Get of db/memtable.cpp with Skiplist of util/skiplistpg. The skip
--   list library is a parameter, with the order of its nodes as hypothesis.
--   What Val writes behind the end of a string is kept apart from the string; a Get that reads
--   there is `none`.
-- - Batch: WriteBatch of db/writebatch. The loop of InsertInto runs on a round for each byte and one.
--   The `int` that counts is read as a word of 32 bits.
-- - Edit: VersionEdit of db/version_edit. The loop of DecodeFrom runs on a round for each byte and one.
-- - Block: Blockbuilder, Block and Block::Iter of db/block. The iterator's loops run on a round for
--   each byte and one.
-- - Bloom: BloomFilter of util/bloom. std::hash is a parameter.
-- - Filter: FilterBlockbuilder and FilterBlockReader of db/filterblock. StartBlock makes the filters
--   that are missing, one a round.
-- - Table: BlockHandle and ReadBlock of db/block, Footer and Tablebuilder of db/memtable (Table/Build).
--   The file, the library snappy, and what a view of a cleared string shows are parameters.
-- - FileName: util/filename. A name without a '.' is cut out of range by ParsefileName; it is read as
--   one with no suffix. The digits of a number have fuel 20, enough for 64 bits.
-- - Arena: util/arena. `new` is a parameter: where a block begins. What it gives is not in use, as far
--   as it is asked for.
-- - Cache: LruCache and ShareCache of db/cache. What is undefined behaviour in the code is `none`.
-- - Version: Version::Get, FindFile and LevelFileNumIterator of db/version_set. TableCache::Get is a
--   parameter. FindFile runs on a round for each table: a round halves the range at least.
-- - Builder: VersionSet::Builder of db/version_set.cpp, which makes the next version of a version and
--   edits.
-- - Compaction: class Compaction and GetRange of db/version_set.
-- - VersionSet, LogAndApply: Recover, WriteSnapshot and LogAndApply of db/version_set. What the file
--   system returns, and the doubles of Finalize, are parameters.
-- - Iterator, Merging: IteratorWrapper, TweLevelIterator and Merageitor of db/iterator, over any
--   iterator. The loops that skip empty blocks run on any number of rounds: what is stated of their
--   end assumes a measure of the index iterator.
-- - Sample: a disk, a file and a checksum at which the theorems are run.
--
-- Reader uses Wal, which uses File and Crc; Batch uses Memtable, which uses Key; all use Coding.
-- VersionSet uses Builder, which uses Version and Edit; a version's tables are read by Iterator.
-- Table uses Block, Filter and Bloom.
-- Not modelled are the tables that are read, the table cache, the choice of a compaction, and the
-- database itself with its threads; nor the wrappers of system calls and logging.
pub mod FileName
pub mod LogAndApply
pub mod Merging
pub mod Filter
pub mod Table
pub mod Version
pub mod Builder
pub mod Compaction
pub mod VersionSet
pub mod Iterator
pub mod Cache
pub mod Arena
pub mod Bloom
pub mod Block
pub mod Prelude
pub mod State
pub mod Coding
pub mod Key
pub mod File
pub mod Crc
pub mod Wal
pub mod Reader
pub mod Memtable
pub mod Batch
pub mod Edit
pub mod Sample
