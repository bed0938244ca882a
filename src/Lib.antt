-- ===== src/Lib.antt =====
-- A model of the Bloom filter server, bloomServer.
--
-- The program keeps a table of named Bloom filters in memory. A thrift service
-- (src/module/ThriftManager.cpp) turns the calls of its clients into operations of the table
-- (src/module/bloomfilter/bloom_filter.cpp): `blooms_add` makes a filter, `blooms_set` puts a url
-- into it, `blooms_get` asks for one, `blooms_delete` removes the filter. The table is dumped to
-- "file.txt" by a thread and by a signal handler, and read back when the server starts.
--
-- The server was split from a crawler, whose parts share its source tree: the scheduler hands out the
-- tasks of sources whose time has come (`getNextTask`), a thread takes the object of a task and
-- inserts its urls, ids come from the checkpoint manager, clients reach the server through a pool of
-- connections, and the pool of data base connections, the locks by number and the functions on
-- strings and dates serve all of them. A fetched page goes into the record of its document.
--
-- Files:
--   Base           the numbers, lists, machine words and the result type `Run` that all parts share.
--   Bloom.Types    `bloom_t` and `blooms_t` of bloom_filter.h.
--   Bloom.Platform the C library and MurmurHash3, as parameters.
--   Bloom.Bitmap   bitmap_set, bitmap_clear, bitmap_check.
--   Bloom.Size     calculate.
--   Bloom.Filter   bloom_set, bloom_get. Bloom.Filter.Laws: a filter as a set of keys;
--                  Filter.Shared and Shared.Races, two lookups by turns.
--   Bloom.Chain    the walks over one bucket; Chain.Unlink and Chain.Sweep, the loops of
--                  blooms_delete and blooms_delete_all.
--   Bloom.Process  the global variables and the three read-write locks; code over them.
--   Bloom.Buckets  dictGenHashFunction, hashmask, and reads and writes of a bucket.
--   Bloom.Create   bloom_init.
--   Bloom.Store    blooms_add, blooms_set, blooms_get, blooms_delete, blooms_delete_all,
--                  bloom_status, blooms_search, blooms_init. Its children: the invariant
--                  (Store.Valid), the table as a map (Store.Table), and a file for each operation.
--   Bloom.History  sequences of requests.
--   Bloom.Archive  the serialize members, blooms_dump, blooms_dump1, blooms_load.
--   Server         the handlers of `ServHandler`; Server.Buffered, the class `BloomFilter`.
--   Pool           the connection pool of the client, thrift_filter/BloomfilterConnectionPool.cpp under
--                  src/module: Pool.Counts (how often a handle is free), Pool.Steps (clients and pool
--                  as a step relation), Pool.Laws, Pool.Opening, Pool.Waiting.
--   Ids            GetMaxID and getMaxUrlId of src/module/CheckpointManager.cpp.
--   Checkpoint     the state of the checkpoint manager, its dump and its thread.
--   Schedule       the task scheduler, src/module/TaskScheduleManager.cpp: a task, its next times and
--                  combineTask; Schedule.Backoff, recalculateTime over many rounds.
--   Schedule.Heap  std::priority_queue as a parameter, with its laws.
--   Schedule.Queue push, pop, getNextTask, putTask, remove, removeTaskFromPriorityQueue, getTask,
--                  getTaskClone, increaseFetchNum, retrieve. Its children: the invariant
--                  (Queue.Consistent), getNextTask against a timetable without queue and pointers
--                  (Queue.Timetable, Queue.HandOut, Queue.TakeOff, Queue.Next), remove
--                  (Queue.Removal, Queue.Kept), retrieve and putTask from an empty manager (Queue.History).
--   Schedule.Running  `TaskOtherInfo`, its map and counters, and the rounds of getTaskThread: threads
--                  as a step relation (Running.Steps), the invariant (Running.Claims,
--                  Running.Entries, Running.Branches, Running.Rounds, Running.Safety), and a task whose
--                  last url is finished during a round (Running.Stuck).
--   Schedule.Keywords  InsertKeywordMap, DelKeywordMap, keywordmapsize.
--   Text           src/tools/util.cpp: percent encodings (Text.Encode; Text.Decode reads them back),
--                  trimming (Text.Trim, Trim.Laws), splitting (Text.Split, Split.Pieces).
--   Locks          mylock::get and mylock::put of src/tools/mylock.cpp, as a step relation between
--                  threads: the invariant (Locks.Invariant, Locks.Moves) and Locks.Exclusion.
--   Database       the pool of data base connections, src/tools/MySQLConnectionPool.cpp, with the MySQL
--                  client as a parameter: Database.Dangling (a connection that breaks),
--                  Database.Closing.
--   Content        the records of fetched pages, src/module/LocalDbManager.cpp. Content.Format, what it uses
--                  of sprintf and sscanf; Content.Head, writeHead, readHead, appendPageHead;
--                  Content.PageText, writePageHead; Content.Zlib, `inf` of src/tools/util.cpp.
--   Content.Records  savecontent, saveUrl, readContent, altertotalpageforced, over DBAccess as a
--                  parameter. Its children: a record as a list of pages (Records.Documents,
--                  Records.Laws, Records.Branches), what the files hold (Records.Kept, Records.Reading).
--   Pages          the pages that wait in memory, src/module/PageManager.cpp: Pages.Record (SaveInDb for a
--                  buffer, MergePage, altermaptotalpageforced), Pages.Save (SavePage, dumpmap);
--                  Pages.Merging and Pages.Forced relate them to Content.Records, Pages.Sizes is about
--                  totalpagebufsize; Pages.Finish, decidesaveFetched and erasecontent of LocalDbManager.cpp,
--                  which use both.
--   Calendar       the tests on dates and times of src/tools/CDateTime.cpp.
--   Words          its searches for digits and for names of months.
--   Bloom.Example, Content.Records.Example, and the modules Tests: concrete states and the theorems at
--                  them.
--
-- Values: a word is its bit pattern, a number (an `int` of Calendar and Words is an integer), and
-- arithmetic on it wraps as the type says; a `double` is a bit pattern that only the mathematics
-- library looks into; a C string is the list of its bytes before the zero. What C++ leaves
-- undefined or ends the process with is a `Fault`. A pointer into a chain is the place of the entry
-- in the list of the bucket.
--
-- Concurrency: the operations of the table run one at a time. `bloom_get` keeps the begin of the vector in
-- two variables of the file, bloom_get_iter and bloom_get_addr, and sets them before each read; lookups
-- that run at the same time share them under the lock for reading. Only Bloom.Filter.Shared has these
-- variables, for two lookups by turns; everywhere else a lookup runs alone.
--
-- Locks: an operation is a function of the globals with the state of every lock, and asking for a
-- lock that is not free is the outcome `blocked`. Operations run one after the other, in the order
-- in which the locks let them through; the theorems on signal handlers start in the middle of one.
--
-- Each function of the scheduler is one step: the locks inside one are taken and freed in it. Times
-- are numbers of seconds far below 2 ^ 63. The laws of the priority queue order only what is a heap for the
-- times of its elements; getNextTask changes the time of the front before it is taken off, so that the
-- queue behind a task that is handed out is known only where it is a heap for the changed times, too.
--
-- Fuel: the loop that empties the queue of tasks has the length of the queue, and each turn takes one
-- element off. The loop of `split_inplace` has one more than the length of the string, and each turn
-- goes on behind a separator. The loop of `calculate` runs at most 98 times, since x goes from 2 to at most 100.
--
-- Records of pages are modelled as they are compiled without HTMLMEMCACHEDB and URLMEMCACHEDB. `inf` tries
-- at most six sizes of a destination; they are `int`s, and the theorems on it are about sources of less
-- than 2 ^ 25 bytes, where none overflows. `DBAccess::store` is given the number of the file that
-- `DBAccess::get` has left; with one it answers 0 also for a record of more than DATLEN_MAX bytes, which
-- it does not store, so that theorems on a record that is written again bound its size. The caller holds the lock of
-- the url around savecontent.
--
-- Not modelled: zlib and DBAccess (over a store of records in files that another project wrote) are
-- parameters with what they promise; MurmurHash3, boost::serialization, the thrift runtime, allocation and `double`
-- arithmetic are parameters; the thread that dumps, logging and printing are left out. The crawler's
-- other managers, the insertion of urls by getTaskThread, its SQL and the text
-- tools that work on files, sockets and code pages are not modelled.
mod Base
pub mod Bloom
pub mod Server
pub mod Pool
pub mod Ids
pub mod Calendar
pub mod Words
pub mod Checkpoint
pub mod Schedule
pub mod Text
pub mod Database
pub mod Locks
pub mod Content
pub mod Pages
