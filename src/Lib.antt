-- ===== src/Lib.antt =====
-- asper keeps the durable memory of a host: exact events, semantic records and a context of
-- bounded size. This library models core parts of the C sources and proves what they promise.
--
-- Files and the code they model (paths from the root of the repository):
--   Base           shared notation, lists, bytes, integers, results and errors (include/asper.h);
--   Record         the record, its evidence and its enumerations (include/asper.h,
--                  src/asper_internal.h);
--   Util           strings, UTF-8, Base64, buffers and FNV-1a hashing (src/util.c, and from
--                  src/source_paths.c and src/record_strings.c what works on strings);
--   Uuid           UUIDs as text and as bytes (src/uuid.c);
--   Time           the civil calendar, RFC 3339 texts and ISO 8601 durations (src/time.c);
--   TurnQueue      the bounded FIFO of turns: the producers of src/turn_queue.c, and the batches
--                  that the worker takes, gives back or drops (src/curator.c);
--   RecordTable    the records in order and the open-addressing map from their ids
--                  (src/record_table.c);
--   Store          operation application and the project registry (src/store.c), over an interface
--                  of the record table that the table of RecordTable fills;
--   Index          the flat vector index and its rows (src/index.c);
--   Sha256         blocks, streaming updates, padding and digests (src/sha256.c);
--   EventFrame     the checked frame of an event, written and read (src/event_frame.c);
--   Journal        the journal of operations in such frames: append, rollback, sync, poisoning and
--                  replay (src/journal.c);
--   Transaction    the files of a compaction: its beginning, recovery and commit
--                  (src/store_transaction.c, src/store_files.c);
--   RecordStrings  the escapes around the strings of a record file (src/record_strings.c);
--   Json           values, strings, the parser and the writer of the MCP server's codec
--                  (mcp/json.c);
--   Examples       the theorems at concrete inputs.
--
-- The queue and the worker share one state, `Queue`, which holds the fields of `asper_ctx` that
-- `ev_mu` guards. Each critical section is a function on it, and `TurnQueue.Order.Step` lists the
-- sections that producers and the worker interleave. The turns a worker holds are an argument of
-- the invariant, since the C code keeps them outside the context.
--
-- The journal is a file of bytes. What the system answers to the calls of an append, a sync or a
-- replay is an argument, so that a run ranges over every failure of a write, a flush, a sync or a
-- truncation. Beside the bytes of the file it has how many of them were handed to the system, which a
-- flush does, and how many are durable, which a sync does. A process that ends leaves a beginning of
-- the file with at least the first, and a machine that stops one with at least the second. The text of
-- an operation (src/record_encode.c), its parsing by the xCDN library and src/record_decode.c, and its
-- application are arbitrary functions, `OpCodec` and `apply`. Nothing is assumed of them: an operation
-- is replayed as it is read back from its own text.
--
-- A transaction works on a disk, a function from paths to what the files hold. An operation on a file
-- succeeds, fails before the new contents show, or fails behind that, as the answers of the system
-- say.
--
-- Texts are lists of byte values. The native numbers stand for the unsigned machine integers, with
-- `% 2 ^ w` where the code wraps; a signed 64-bit value is an integer. What `malloc` and `realloc`
-- answer is a Boolean argument, but for clones, the escapes of record strings and the JSON codec,
-- where memory lasts. A buffer that is read up to a count is the list of the bytes counted. Doubles,
-- vectors, the object store, the xCDN parser, the random bytes and what a file read answers are
-- parameters. The operations of the store work on any table with the interface `TableOps`, which
-- Store/Apply/Table.antt fills with the record table, where memory lasts for its growth.
--
-- Loops recur on the list they read or on a number of rounds that is enough: the places left of a
-- UUID, the bytes left of a text, the digits of a number, the width of the range of the binary search,
-- the slots of the id map, the bytes of a journal, and the 64 places of a block for the padding. The
-- JSON parser has two rounds for a byte of the text and two more, which a written value never uses up;
-- its depth limit of 64 is that of the code.
--
-- Not modelled: model inference (llama, asmodel), the requests of the MCP server, operating system
-- services, logging, configuration, the compaction around its transaction, the event logs
-- and their index.
pub mod Base
pub mod Util
pub mod Uuid
pub mod Record
pub mod TurnQueue
pub mod Time
pub mod RecordTable
pub mod Sha256
pub mod EventFrame
pub mod Journal
pub mod Transaction
pub mod RecordStrings
pub mod Json
pub mod Index
pub mod Store
pub mod Examples
