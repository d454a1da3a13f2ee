-- ===== src/Lib.antt =====
-- A verification library of final_libs, a collection of C libraries. So far it covers
--   the ring buffer of bytes, fmbuf/fmbuf.c (Mbuf),
--   the doubly linked list, flist/fdlist.c (Dlist),
--   the hash table, fhash/fhash_core.c, with string keys, fhash/fhash_str.c (Hash),
--   the cache of objects, fcache/fcache.c (Cache), over its lists, fcache/fcache_list.c (CacheList),
--   the timer service, fev/fev_timer_service.c with fev/fev_tmsvc_modules.c and
--   fev/fev_tmsvc_sl_mod.c (Timer),
--   the event loop, fev/fev.c with fev/fev_epoll.c (Fev),
--   the logger, flog/flog.c (Log), and
--   the reader of configuration files, fconf/fconf.c with fconf/fconf_core.c (Conf).
-- The cache keeps its nodes in two lists and finds them through a string table; the lists are those
-- of Dlist, and the table is one with the laws of Cache/Lookup, as that of Hash/Str is. The timer
-- service keeps its timers in two lists of Dlist. Each thread that logs has a buffer of Mbuf, from
-- which the logger takes the messages to the files.
--
-- How C is read. Every function is a function on explicit states, with one definition for each
-- function of the source and a few for the parts of a long one. A result of type Option is `none`
-- where the C program's behaviour is undefined or an `assert` fails: a read or a write outside an
-- object, a pointer that leaves its object. Allocation succeeds; what `realloc` leaves in new bytes
-- is the parameter `fresh`. Numbers are natural numbers; a computation in `size_t` or `uint32_t` that
-- could wrap keeps its wrap-around (`add_size`, `sub_size`, `% 2 ^ 32`). The machine has pointers of 8
-- bytes. An object is smaller than 2 ^ 63 bytes, so counts of nodes in memory do not wrap.
--
-- Prelude: shared names; Prelude/Tests has the Boolean tests, the conditional, the chain of fallible
-- steps, and `Ensures`, total correctness of such a chain; Prelude/Lists the list laws; Prelude/Int
-- integers; Prelude/Memory reads and writes of a block of an object.
--
-- Mbuf: `struct _mbuf`, its head and tail as offsets from MBUF_START.
--   Mbuf           fmbuf_create, _push, _pop, _rawget, _vpop, and the size macros
--   Mbuf/Inv       the representation invariant, and the bytes that a buffer holds
--   Mbuf/Queue     the abstract contract: a bounded queue of bytes, moved by blocks
--   Mbuf/Push, Mbuf/Pop, Mbuf/Run   the operations, and sequences of them, against the queue
--   Mbuf/Resize    fmbuf_head_seek, _tail_seek, _clear, _rewind, _alloc, _realloc, with children
--                  for rewind and alloc, and for realloc
--   Mbuf/Tests     concrete buffers
--
-- Dlist: lists in a store. A pointer is the number of a node or of a list; following NULL is undefined.
--   Dlist/Cells    fdlist_orig_node_t, struct _fdlist_mgr, and the store of both
--   Dlist          fdlist_create, _empty, _push, _pop, _delete_node, _move_node, _set_nodedata
--   Dlist/Chain    nodes that are linked one after the other
--   Dlist/Inv      which nodes each list of a store holds (IsList, IsStore)
--   Dlist/Push, Dlist/Detach, Dlist/Delete, Dlist/Move   the operations against those lists
--   Dlist/Kept     what the operations leave alone
--   Dlist/Tests    a concrete store
-- A store may count more or fewer bytes for a list than its nodes have; the invariant names the
-- difference, since updates of a node's size make one.
--
-- CacheList: the lists of the cache, over the store of Dlist.
--   CacheList      fcache_list_make_node, _push, _pop, _delete_node, _move_node, _update_node, the keys
--                  and the objects of nodes; a use of a freed node is undefined
--   CacheList/Keys     the key in the buffer of a node
--   CacheList/Laws     the operations against the lists of a heap (IsHeap)
--   CacheList/Resize   fcache_list_update_node
--
-- Cache: struct _fcache. The active nodes and the inactive nodes are two lists, from the oldest to the
-- latest, and the index is a map from keys to nodes (IsCache).
--   Cache/Lookup   what the cache asks of include/flibs/fhash_str.h
--   Cache/Strings  the table of fhash/fhash_str.c with those laws: it has no iterator, its values are
--                  pointers of 8 bytes, and its keys are not empty and have a length in key_sz_t
--   Cache          fcache_create, _destroy, _set_obj, _get_obj and their parts
--   Cache/Pair, Cache/Touch, Cache/Used   nodes that go from one list to the other
--   Cache/Inv      the invariant, and _fcache_balance_nodes
--   Cache/Get      fcache_get_obj
--   Cache/Removal, Cache/Drop, Cache/Room   nodes that are deleted to make room
--   Cache/Make, Cache/Add                   a new node
--   Cache/Books, Cache/Set, Cache/Unset     fcache_set_obj of a new key, and of NULL
--   Cache/Samples, Cache/Table, Cache/Tests  concrete caches, and tables of strings for them
--
-- Timer: the timers of the service and the lists that hold them. A timer that is destroyed is
-- freed, and using it is undefined, as is a sum or product that does not fit a `long`. The clock
-- counts from 0, and what it says is an argument, as is the callback, a function on the memory that
-- may be undefined. At a tick the timers go one by one from one list to the other.
--   Timer          fev_tmmod_timeout, fdlist_foreach, and _init, _process, _add, _top of the list module
--   Timer/Clock    times in nanoseconds
--   Timer/Visit    the fate of one timer at a tick, for callbacks that change timers only
--   Timer/Sweep    a whole tick against a walk of a plain list
--   Timer/Fate     a tick, for callbacks that change nothing: which timers fire, stay and go
--   Timer/Walk, Timer/Top   fdlist_foreach, and the timer that expires next
--   Timer/Service  fev_tmsvc_timer_add, _del, _reset, _resetn and what is read of a timer
--   Timer/Tests    a concrete service
--
-- Fev: the registry of events. A mask is its bits, a callback is a function on the state, and epoll is
-- an interface: the events that each descriptor is registered for.
--   Fev/Kernel     masks, and what is asked of epoll_ctl
--   Fev            fev_create, _reg_event, _add_event, _del_event, _poll, and those of fev_epoll.c
--   Fev/Synced     the masks and the events that epoll waits for
--   Fev/Fired      the descriptors that are deleted while the ready ones are handled
--   Fev/Tests      a concrete epoll
--
-- Log: a file is what has been written to it, with what the files hold that it has been renamed to,
-- and all that `write` has taken for it; a pointer to it is the number of the file. The name of a
-- full file has the time to a millisecond, and one that is renamed in the same millisecond takes
-- its place. What each call of `write` answers is a parameter, as is what `time` says, by the
-- number of calls so far, and what times are printed as; a callback is registered for the events. A
-- message is the list of its bytes, the lowest byte of a number first. The order in which the
-- threads are visited is an argument. A call of _log_async_write or of _log_async_process is one
-- step: what two threads do to a buffer at the same time is not modelled.
--   Log/Disk       struct flog_file_t, _log_write_to_kernel, _log_write, flushing and rolling
--   Log/Wire       log_fetch_msg_head_t, the head of a message
--   Log            _log_async_write, _log_async_process with its protocols, the rounds of _log_fetcher,
--                  and the functions that write at once
--   Log/Send       what a call leaves in the buffer of its thread
--   Log/Empty      a call with an empty text
--   Log/Fetch      a message that is found in a buffer, and written to its file
--   Log/Process    _log_async_process against a walk through a plain list of messages
--   Log/Order      messages of several threads, in the order of their numbers
--   Log/Numbers    the numbers that the files have given, and a message more that waits
--   Log/Serve      one thread is served while others wait
--   Log/Drain      the rounds, until all buffers are empty
--   Log/Post       a call that adds its message to those that wait
--   Log/Run        calls and fetches in any order, and the rounds after them; with children for what
--                  each of them keeps, and for what the files then hold
--   Log/Short      a short write
--   Log/Sync       a text that is too long for the array it is printed to
--   Log/Header     the time and the cookie in the header of a message; Log/Cookie a cookie that is set,
--                  Log/Stamp what a message gets of it
--   Log/Write      flog_write, for both kinds of files
--   Log/Settings   levels and limits
--   Log/Samples, Log/Tests   two threads that log to one file
--
-- Conf: a file is a list of bytes, and a string is one without the zero byte at its end. A walk through
-- a buffer is one through the bytes that are left of it, with the index beside it.
--   Conf           trim, fconf_readkv, fconf_readline of fconf/fconf_core.c, fconf_load
--   Conf/Trim      texts with blanks around them
--   Conf/Split     the key and the value of a line
--   Conf/Line, Conf/Load   one line, and a whole file
--   Conf/Tests     concrete files
--
-- Hash: the layers of fhash_core.c, each upon the one before.
--   Hash/Fnv       _hash_fnv_algorithm
--   Hash/Opt       `fhash_opt`: the hash and compare functions, and what the table asks of them
--   Hash/Node      _fhash_node and its memory: _hash_node_set and its parts
--   Hash/Mgr       _fhash_node_mgr, one bucket: _hash_nodemgr_find, _add, _set, _del, _get
--   Hash/Table     _fhash, the buckets and counters: _hash_tbl_set, _set_node, _set_only, _get, _del
--   Hash/Core      struct fhash: the walk of the iterator, _hash_rehash, _hash_perform_actions
--   Hash/Api       the open interface: fhash_create, _set, _get, _del, _fetch_and_del, _rehash; with a
--                  child for what calls without an iterator leave alone (Frame)
--   Hash/Str       fhash_str_create, _set, _get, _del, and their compare function, which is lawful
--   Hash/Samples, Hash/Tests   concrete tables
-- A bucket, a table and the whole structure each have an invariant (IsBucket, IsTable, IsFhash) and
-- stand for a map from keys to values (lookup, view, value_of); update is a change of that map at one
-- key. During an iteration a new key waits in the delayed nodes, and value_of reads through them.
--
-- The loop of _hash_rehash has fuel: one round for each node of the table and one to see the end
-- (`rounds`), which is enough because each round makes one node invalid. All other loops are
-- structural, but those of the cache that pop nodes until a list is empty or enough is dropped: they
-- have one round of fuel for each node that the list counts and one more, as has the loop of _process;
-- fdlist_foreach has one for each node that the list counts. The loop of fconf_load has one for each
-- byte of the file and one more, since every line has a byte. The loop of _log_async_process has one for
-- each byte in the buffer and one more, since a message has more than a byte. The rounds of _log_fetcher
-- and the loop around `write` end or not as the threads and the system will, and their number is an
-- argument (`patience` for the loop around `write`): one more than there are messages, and one.
--
-- Not modelled: memory that is released (fmbuf_delete, fhash_delete, fdlist_destroy,
-- fev_tmsvc_destroy), the set-up of the logger with its table of files and its threads, and its
-- formatted write into the buffer of a thread (flog_create, _log_async_write_f), the callback loop
-- fhash_foreach, the statistics of fhash_profile, the tables with integer keys and the iteration
-- over string keys (fhash_int.c, fhash_uint64.c, fhash_str_iter_new), the event timer that drives
-- the service, the modules of the event loop (fev_module_register), and the other libraries of the
-- repository.
pub mod Cache
pub mod CacheList
pub mod Conf
pub mod Dlist
pub mod Fev
pub mod Hash
pub mod Log
pub mod Mbuf
pub mod Prelude
pub mod Timer
