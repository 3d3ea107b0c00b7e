-- ===== src/Lib.antt =====
-- Rucbase, a small relational database: its storage engine, and the catalogue and the query code
-- that stand on it.
--
-- The parts, from the bottom up, and the modules that model them:
--
-- * Base holds what all parts share: Boolean tests on numbers, lists, maps as functions, signed
--   integers and 32-bit arithmetic with wrap-around.
-- * Defs is the record id of src/defs.h.
-- * Replacer/Lru is src/replacer/lru_replacer.h and lru_replacer.cpp: `victim`, `pin`, `unpin` and
--   `size` on the recency list and the hash table of iterators. An iterator is the identity of a
--   list node. Replacer/Interface is the abstract class of src/replacer/replacer.h with the laws
--   that its client relies on; Replacer/Lru/Instance fills it. Replacer/Clock is
--   src/replacer/clock_replacer.cpp, whose operations are stubs.
-- * Storage/Disk is src/storage/disk_manager.h and disk_manager.cpp, with the log and the
--   directories in Storage/Disk/Log. The calls of the operating system are a parameter,
--   Storage/Posix, with what POSIX says of regular files. Storage/Page is src/storage/page.h.
--   Storage/DiskInterface is what the buffer pool uses of a disk manager; `posix_disk` in
--   Storage/Disk/Pages fills it. A call that can throw UnixError returns false where it does.
-- * Storage/BufferPool is src/storage/buffer_pool_manager.h and buffer_pool_manager.cpp, over any
--   replacer and any disk manager that keep these interfaces: `find_victim_page` is FindVictimPage,
--   `update_page` UpdatePage, `fetch_page` FetchPage, `unpin_page` UnpinPage, `flush_page`
--   FlushPage, `new_page` NewPage, `delete_page` DeletePage and `flush_all_pages` FlushAllPages.
--   Its invariant is in Storage/BufferPool/Invariant, with `view`, the bytes that a reader of a
--   page sees, in the pool or on the disk. The latch makes each call one step.
-- * Record/Bitmap is src/record/bitmap.h, on the bytes of a bitmap. Record/Layout is the bytes of a
--   page of a record file and the sizes that RmManager::create_file computes, Record/File is
--   src/record/rm_file_handle.h and rm_file_handle.cpp over the buffer pool, Record/Scan is
--   src/record/rm_scan.cpp and Record/Manager src/record/rm_manager.h over the disk manager.
-- * Index/Compare is `ix_compare`, and Index/Node is the node of the B+ tree, both of
--   src/index/ix_node_handle.h and ix_node_handle.cpp. The arrays of keys and rids are functions of
--   the slot: slots behind the last key hold whatever was there, as in the page, but a node with
--   more pairs than its page holds does not overwrite its rids with its keys, as the page would. The
--   comparison is an argument with the laws of an order, which Index/Compare/Orders shows of two key
--   types.
-- * Index/Tree is the B+ tree of src/index/ix_index_handle.h and ix_index_handle.cpp over the pages
--   of an index file, as a client of the buffer pool sees them: `find_leaf_page` is FindLeafPage,
--   `get_value` GetValue, `create_node` CreateNode, `maintain_child` the function of that name.
--   Index/Tree/Grow is `insert_entry`, Split, InsertIntoParent and splitNodeIfFull,
--   Index/Tree/Shrink is `delete_entry`, CoalesceOrRedistribute, Coalesce, Redistribute and
--   AdjustRoot, and Index/Tree/Entries is the positions of entries and the scan of
--   src/index/ix_scan.cpp. A node handle is the number of its page, pins and dirty marks are
--   counted, and the calls of the pool succeed. Index/Tree/Search says what a search tree is,
--   Index/Tree/Chain what the ring of the leaves is, and Index/Tree/FullScan what a scan of them
--   gives.
-- * Index/Manager is src/index/ix_manager.h and the constructor of IxIndexHandle over the disk
--   manager, with the pages that `create_index` writes as bytes. Index/Manager/Files is about the
--   header, Index/Manager/Creation about what `create_index` leaves open.
-- * System/Meta is src/system/sm_meta.h, System/Tables `create_table` of src/system/sm_manager.cpp
--   over the record files of Record/Manager, and System/Text the operators << and >> of the
--   metadata and of the enumerations of src/defs.h. The streams of the standard library are a
--   parameter, `Iostream`: a file is its words. The methods `is_col` and `get_col` of TabMeta are
--   to be written; the model has them as they stand.
-- * Execution/Defs is the values and conditions of src/execution/execution_manager.h with `get_col`
--   and `rec2dict` of executor_abstract.h, Execution/Manager the planning of execution_manager.cpp:
--   `check_column`, `get_all_cols`, `get_index_no` for get_indexNo, `pop_conds`, and `table_conds`
--   for the calls of it in select_from, which Execution/Manager/Popped describes by the tables that
--   the columns name. Execution/Scan is executor_seq_scan.h: `seq_scan` is the
--   constructor, `orient` its exchange of the sides, `feed`, `eval_cond` and `eval_conds` the
--   methods. Execution/Tree is the constructors of executor_projection.h and
--   executor_nestedloop_join.h and `feed_right`, where the right child is a scan. A record is its
--   bytes; an exception, a failed assertion and a use without meaning are errors of `Result`. The
--   comparison of two floats is an argument.
-- * Recovery is the log records of src/recovery/log_record.h: their constructors and sizes, and the
--   table name in a buffer.
-- * Latch is src/common/rwlatch.h and rwlatch.cpp as a step relation: each part of a call up to a
--   wait is one step of a thread, and a thread that waits may wake at any time.
--
-- Bounds. A page number is an `int` and its byte offset a 32-bit product that wraps: `InFile` says
-- that it does not. A byte is a number below 256 where that matters. The loop of the binary
-- searches runs on fuel, the number of keys, which is the length of the interval at the start. The
-- loops of the bitmap, of the scans, of `erase_pair` and of FlushAllPages are recursions on the
-- number of rounds left. Going down and up the tree runs on fuel, where `none` is a loop that has
-- not ended or a failed assertion: the number of levels is enough, as Index/Tree/Lookup shows of
-- the way down. Storage/Memory is a disk in memory for the examples in the Tests modules.
--
-- Two descriptors are of different files: the laws of Storage/Posix hold while no file is open twice,
-- and `open_file` refuses a path that is open.
--
-- An `int` in the metadata and the sizes of tuples are bit patterns, with sums that wrap at 2^32
-- and at 2^64.
--
-- Not modelled: the lock manager and the transaction manager, whose operations are stubs; the log
-- manager, the recovery and the checkpoints, which are stubs but for an exchange of two buffers;
-- the loops over records of the executors, inserts, deletes and updates, which are unfinished in
-- the source, and with them check_where_clause, which uses the iterator that get_col does not set;
-- opening and closing a database; the generated parser; input and output.
pub mod Base
pub mod Defs
pub mod Replacer
pub mod Storage
pub mod Record
pub mod Index
pub mod Latch
pub mod System
pub mod Execution
pub mod Recovery
