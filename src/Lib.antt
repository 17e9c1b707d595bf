-- ===== src/Lib.antt =====
-- A model of logdb: an append-only database in one file, with a log beside it that says how many
-- bytes of each section of 2^16 bytes are valid. Writers lease a section, write behind its valid
-- bytes, and publish the data by a new entry in the log.
--
-- The parts, from the bottom:
--   Prelude      Boolean tests, lists and signed numbers over the native naturals, and 16-bit and
--                32-bit wrap-around.
--   File         a file of the operating system: bytes up to a size.
--   Io           src/logdb_io.c: the loops over pwrite and pread. A descriptor has a script with the
--                outcome of each coming system call. Streams has the loops over write and read, and
--                the calls of lseek and ftruncate.
--   Log.Layout   logdb_log_offset, logdb_log_index_from_offset and logdb_connection_offset.
--   Log.Entry    logdb_log_read_entry, logdb_log_write_entry of src/logdb_log.c.
--   Log.Lock     the in-process locks of entries: logdb_log_lock up to its call of fcntl, and
--                logdb_log_inproc_unlock. Exclusion has the threads that lock and unlock as a step
--                relation.
--   Log.Header   the header of a log, and logdb_log_read.
--   Log.Create   logdb_log_open, logdb_log_create and logdb_log_close, with the file at the path of
--                the log and the outcomes of open and unlink as a Dir.
--   Log.Merge    logdb_log_close_merge; Log.Copies has the files that it writes, and Log.Recreate
--                and Log.RoundTrip put it together with logdb_log_create.
--   Connection   logdb_connection_t; Locking has logdb_log_lock and logdb_log_unlock with fcntl, and
--                the read lock on the connection.
--   Lease        src/logdb_lease.c: the lease, reads, writes, release; Grant has
--                logdb_lease_acquire_write.
--   Heap, Buffer src/logdb_buffer.c: buffers with reference counts as cells of a heap, and commands
--                that return a value, meet a fault (NULL, freed memory), or run out of fuel. Holds
--                relates a buffer to the bytes that it stands for.
--   Sections     the abstract view of the two files: what each section holds.
--   Txn          src/logdb_txn.c: nested transactions, the commit of the outermost one (write, sync,
--                entry, sync, release), logdb_put, logdb_begin, logdb_commit, logdb_rollback. Put
--                follows logdb_put through the buffers that it makes and frees; Buffer.Append and
--                Buffer.Release have their steps. Calm has the commit that meets no failure, on a
--                connection that is ready for the next one; Put.Refines has logdb_put against the
--                lists of records of the sections, and Put.Ledger all records up to their order.
--   Disk         what logdb_open meets: the two paths, the header of the database file, and scripts.
--   Database     logdb_open and logdb_close of src/logdb_connection.c; Reopen has both in a row,
--                and Records the iteration after them.
--   Iter         src/logdb_iter.c: the iterator over the records of all sections. Records has the
--                bytes of a record, Dump the loop of stress/dump.c, Visit and Round one record, and
--                Sections, Loop and Whole the way through all of them.
--   Stress       stress/stress.c: thread_func in turns (its start, a round of its loop, its end), the
--                threads in any order of turns, and Main. Turns, Idle, Round and OneTurn have one
--                thread, Threads and AnyTurn a list of them, Runs, Ends and Whole all turns, and
--                Creation and Program the
--                whole program on a disk without the database (Database.Fresh), followed by
--                main of stress/dump.c (Dump).
--   SystemCheck  system_checks/check_pwrite_O_APPEND.c, on the calls of a platform.
--   Examples     the theorems at small inputs.
--
-- How they interact: logdb_commit and logdb_put end in txn_commit, which measures the buffer, takes a
-- lease by acquire_write (Lease.Grant), sends the buffer through it by txn_write_buf, lease_write and
-- io_pwrite, and publishes the data by log_write_entry. iter_next finds an entry by log_read_entry,
-- takes a lease by acquire_read, and reads through it by lease_read and io_pread. log_close_merge puts
-- the log behind the data of the last section, and log_create makes the log file from there again;
-- logdb_close and logdb_open call them. State is passed explicitly: a Conn for what threads of a
-- process share, a Lease, a Heap, a Disk, and the list of the buffers of a thread's transactions.
--
-- Bounds and fuel. A loop over a system call gets as many rounds as there are bytes to move, and a
-- round that goes on moves one at least. Walks over buffers take fuel; Holds counts the steps that a
-- list needs. The search for the next section takes a round for each entry, and the loop of dump.c one
-- for each record; theorems say how much is enough. The goto loop of logdb_lease_acquire_write gets a
-- number of rounds, and need not end. Numbers keep their width: logdb_size_t and unsigned int
-- modulo 2^32, entries modulo 2^16, size_t modulo 2^64. A thread of stress.c needs count + 2 turns.
--
-- Outside of the model: system calls and malloc are given by scripts of outcomes; pwrite writes at
-- its offset, also on a file opened with O_APPEND, as system_checks/check_pwrite_O_APPEND.c asks. One
-- operation on the locks is one step. malloc of a log or a buffer of bytes is given by which sizes it
-- grants. Other processes show in the outcomes of flock and fcntl only, and logdb_txn_rollback_all, at
-- a close, is the txn_destruct of Txn, on the heap. The threads of stress.c interleave between calls
-- of the library, not inside of one, and have their turns when all are created; its keys are as
-- sprintf gives them, with enough room. The read locks on an entry are a number without a
-- bound, where the source has an int. pthread_rwlock_wrlock at a close answers by the script, and
-- does not wait for the leases of other threads. Not modelled: the tests, and the bindings,
-- which are glue around the library.
pub mod Buffer
pub mod Connection
pub mod Database
pub mod Disk
pub mod Examples
pub mod File
pub mod Heap
pub mod Io
pub mod Iter
pub mod Lease
pub mod Log
pub mod Prelude
pub mod Sections
pub mod Stress
pub mod SystemCheck
pub mod Txn
