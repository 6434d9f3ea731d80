-- ===== src/Lib.antt =====
-- Adaptive Query Accelerator: the storage core, modelled and proved.
--
-- The program is a small storage engine. A page cache (`src/storage/page_cache.cpp`) keeps pages of
-- a memory-mapped file (`src/storage/mapped_file.cpp`) in frames and hands out pins as handles. It
-- tells an access observer (`src/observer/access_observer.cpp`) of each fetch, and asks an eviction
-- policy (`src/cache/eviction_policy.cpp`) for a victim; a policy reads the observer, and one reads
-- the thread's workload hint (`src/workload_hint.cpp`). The storage engine
-- (`src/storage/storage_engine.cpp`) joins the file and the page cache. Records lie in slotted pages
-- (`src/storage/page.h`): the writer (`src/storage/storage_writer.cpp`) fills them and appends them
-- to the file, the reader (`src/storage/storage_reader.cpp`) gets them through the engine. The
-- database (`src/db/database.cpp`) puts a record into the write-ahead log
-- (`src/wal/wal_manager.cpp`), the writer, the index (`src/index/index.cpp`) and the record cache
-- (`src/cache/lru_cache.cpp`), and gets it from the cache or through the index and the reader; when
-- it is constructed it replays the log and rebuilds the index by a scan. B+ tree pages
-- (`src/storage/page/`) are the nodes of an index that the database does not use yet.
--
-- The files:
--   Common        tests, lists, arrays of bytes with integers in them, association lists for hash
--                 maps, and a list with iterators that stay valid (`Common/Linked`), as `std::list`
--                 has them; a node's address stands for the iterator.
--   Observer      the ring of accesses: `Refine` reads it as a list, `Queries` what the getters
--                 return, `Counts` the counts, `History` a whole run.
--   WorkloadHint  the hint and its scope.
--   Eviction      the policies as functions from the candidates, least recently used first; `Learned`
--                 the two that score, `Policy` the class and its dispatch, `Least`, `Agreement` and
--                 `Members` what they choose.
--   LruCache      the record cache: `Valid` its invariant, `Methods` get, `Room` the eviction in put,
--                 `Put` put, `Facts` what holds of every entry.
--   MappedFile    the file's pages, with the results of the system calls as arguments; `Grow` its
--                 growth.
--   PageCache     the page cache: `Interface` what it needs of a policy, `Supply` the policies that
--                 give it, `Valid` and `Init` the invariant, `View` contents and pins, `Evict`,
--                 `Frames`, `Fetch`, `Unpin` and `Flush` the operations, `Handles` the handles and the steps
--                 of a program, `Reach` what every such program keeps, `Progress` when a fetch
--                 returns and what the other users of the cache see of it.
--   Page          the bytes of a page and its header.
--   StorageWriter the writer and its current page: `Layout` the bytes of a record and its slot,
--                 `Insert` and `Bounds` the insertion into a page, `Written`, `Append` and `History`
--                 the file.
--   StorageEngine the engine: `Fetch` a fetch and a prefetch thread, `Allocate` a new page.
--   StorageReader reading a record and the scan: `Slots` records laid out in a page, `Read` and
--                 `Lookup` one read, `Listing`, `Pages` and `Scan` the scan.
--   Index         the map from keys to record ids: `Rebuild` its rebuilding.
--   Database      the database: `Fresh` what it holds against a store of values, `Put` and `Get`,
--                 `Session` sequences of calls, `Start`, `Recover` and `Open` the constructor,
--                 `Exact` what get returns behind it, `Kept` and `Reopen` what the file and the log
--                 keep, `TooLarge` a record that fits no page.
--   BPlusTree     the pages: `Search` the standard library's binary search, `Leaf` insertion,
--                 `Internal` the lookup of a child.
--   Wal           the log's bytes: appending, and the loop of the replay; `Round` and `Replay`
--                 take them together.
--   Tests         the properties at concrete inputs, by the part that they are about.
--
-- State is passed explicitly: a method is a function from the old state to the new one. Most hold
-- the object's mutex throughout; of the database's, `get` shares its lock and `scan` takes none,
-- and both are one step here too. The thread's hint is an argument of the policies and a field of
-- the database. A page cache runs on a policy under one hint; the engine's own cache has no policy,
-- so that the hint which a database sets is read by nothing in it. `Option` stands for undefined
-- behaviour in the record cache; elsewhere a result is a value, an exception or undefined
-- behaviour. Words of 16, 32 and 64 bits keep their wrap-around where the code computes with them
-- (counters, the indices of the ring, the product of a page id and the page size, the offsets in a
-- page). In the page cache the content of a page is a parameter, as are the keys and the values of
-- the caches and of the B+ tree, and the type `double` with its operations; the storage layer puts
-- byte pages and byte vectors for them.
--
-- A page is a function from addresses to bytes, and integers in it are little-endian. The
-- `pending` prefetch threads of the engine are the pages that they were started for; a thread that
-- runs is one step.
--
-- Two loops have fuel: the binary search the length of its range, and the replay the number of bytes,
-- of which a round reads at least 16. The scan recurs on the pages and slots that are left. The page
-- cache's invariant asks for a file below 4 GB, where the 32-bit product is exact. A record has room
-- in an empty page if its key and value have at most 4021 bytes: 4096 less the header of 64, the slot
-- count of 2, the slot of 4 and the record's header of 5.
--
-- Not modelled: what runs beside another call, since the model takes whole calls as steps: the
-- races of the detached prefetch threads with a call of `allocate_page` and with the end of the
-- engine; the pin that a running prefetch thread holds, for which a fetch or a scan beside it, with
-- a small cache, can find no frame and throw; two `get`s, or any call and a scan, of one database.
-- Nor are the effects of a scan's callback, whose calls are a list: one that throws, sets the hint
-- or calls the database. Nor are the opening and the moves of a mapped file, which only the
-- operating system's handles see; the hash function of the index; and the drivers that time, print
-- and make data.
pub mod Common
pub mod Observer
pub mod WorkloadHint
pub mod Eviction
pub mod LruCache
pub mod MappedFile
pub mod PageCache
pub mod Page
pub mod StorageWriter
pub mod StorageEngine
pub mod StorageReader
pub mod BPlusTree
pub mod Wal
pub mod Index
pub mod Database
pub mod Tests
