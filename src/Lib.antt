-- ===== src/Lib.antt =====
-- The C extension of the ZooKeeper client for Ruby, in ext/.
--
-- The ZooKeeper client library runs threads of its own. When a reply or a watch event arrives, one
-- of them calls a completion of ext/zookeeper_lib.c, which copies what it is handed into an event
-- and puts that into a queue; a byte in the queue's pipe wakes the Ruby thread that listens. That
-- thread takes the events out, turns each into a Ruby hash and frees it. The calls in the other
-- direction go through the wrappers of ext/zkrb_wrapper.c, which release the interpreter's lock
-- while the client works.
--
-- Base.antt: the names that the other files share.
-- Structs.antt: the structures of ext/zookeeper_lib.h, `zkrb_event_t` and its completions,
--   `zkrb_queue_t`, `zkrb_calling_context`, and the client's Stat, ACL and vectors.
-- Memory.antt: the heap and the pipes. A heap is a map from addresses to structures; malloc hands
--   out addresses in order and may return NULL, and a pipe holds a number of bytes. A command
--   returns a result and the world after it, or says that it faulted, that it waits for another
--   thread, or that it ran out of fuel.
-- Ruby.antt: Ruby's values, with hashes as lists of fields.
-- Translate.antt: the translations of ext/zookeeper_lib.c (`zkrb_stat_to_rarray`,
--   `zkrb_acl_vector_to_ruby`, `zkrb_clone_string_vector` and the like), the functions of
--   zookeeper.jute.h being parameters; those from Ruby to C are in Translate/FromRuby.
-- Event.antt: `zkrb_event_alloc`, `zkrb_event_free`, `zkrb_event_to_ruby`.
-- Queue.antt: `zkrb_queue_alloc`, `zkrb_queue_free`, `zkrb_enqueue`, `zkrb_peek`, `zkrb_dequeue`,
--   `zkrb_signal`. Each holds the global mutex while it touches the queue (`zkrb_dequeue` frees a
--   node that no one else can reach after it), so that a call is one step, and an interleaving of
--   threads is a list of calls.
-- Callbacks.antt: `zkrb_state_callback` and the seven completions.
-- Extension.antt: of ext/zookeeper_c.c, `method_get_next_event`, `method_has_events`,
--   `method_wake_event_loop_bang` and `method_close_handle`, on a record for `zkrb_instance_data`
--   and the flags of its Ruby object. What the other threads do while the listener waits is a list
--   of acts.
-- Requests.antt: of ext/zookeeper_c.c, STANDARD_PREAMBLE and what the request methods share; the
--   methods that read are in Requests/Reads, `method_get`, `method_exists`, `method_get_children`
--   and `method_get_acl`, those that write in Requests/Writes, `method_create`, `method_delete`,
--   `method_set`, `method_set_acl` and `method_sync`. A method is a body in the scope of the
--   preamble, its `switch` a function by cases on the type of the call. A local variable whose
--   address is taken is a block that goes when the method returns.
-- Session.antt: `method_zkrb_init`, and the methods that only ask the client about a session.
-- Wrapper.antt: the functions `zkrb_gvl_zoo_*` and `zkrb_call_zoo_*` of ext/zkrb_wrapper.c, over
--   any client and any interpreter.
-- System.antt: these parts together. An act is a request of Ruby, a callback of the client for a
--   context that it has, or a call of the listener; acts follow one another on one handle, in any
--   order, and the methods, callbacks and calls that they run are those of the files above.
--   System/Mailbox has what a user expects of them, with no memory and no threads: the numbers of
--   the open requests, and the replies not yet read.
-- Examples.antt: the theorems at concrete inputs.
--
-- Under a module M, what is proved of it stands in M/: the invariant of the queue in Queue/Chain,
-- what each call does to it in Queue/Fifo and Queue/Signal, its start and its end in Queue/Setup
-- and Queue/Drain, all calls against a list in Queue/History, the listener and the other threads
-- in Queue/Threads, Queue/Kept and Queue/Wakeup; what an event looks like to Ruby in Event/Show
-- and what it gives back in Event/Release and Event/Leak; the steps of a callback in
-- Callbacks/Finish, Callbacks/Clones, Callbacks/Copies, Callbacks/Vectors and
-- Callbacks/AclVectors, what one callback leaves for the next in Callbacks/Next, and each callback
-- as a whole in Callbacks/Delivery, Callbacks/Replies, Callbacks/Lists and Callbacks/Watcher; the
-- listener's loop in Extension/Listening and Extension/Waking, the close of a handle in
-- Extension/Handles; which requests are refused in Requests/Guard, what an asynchronous request
-- leaves for its reply in Requests/Replies and Requests/Asked, with its reply in
-- Requests/Answered, Requests/Bounds and Requests/Watches, and with the listener as well in
-- Requests/Served; the ACLs that a request passes on in Requests/AclVectors; synchronous requests
-- in Requests/Synced and Requests/Stored, and what requests leave allocated in Requests/Leaks; a
-- session from its start to its end in Session/Life, and a start that fails in Session/Failure;
-- which blocks an event owns in Event/Parcels and Event/Owned and how a callback brings them in
-- Callbacks/Arrival and Callbacks/Arrivals; the events of a queue with their blocks in
-- System/Letters, the contexts that the client has in System/Contexts and System/First, what holds
-- between two acts in System/State, one act of each kind in System/Growing, System/Asking,
-- System/Used, System/Answering, System/Taking and System/Reading, all of them against the mailbox
-- in System/Refines, the end of the handle in System/Closing, and a session with all of these in
-- System/Life.
--
-- Integers that the code only copies are unbounded. Where it casts a length or a word, or converts
-- an argument of Ruby, the range is written out: NUM2LL raises outside of 64 bits, FIX2INT and
-- NUM2INT outside of 32, `(int)` wraps at 2^32, and the machine word of a Fixnum has 64 bits. The
-- fuel is a bound on the loop of `zkrb_queue_free`, which takes one event per round: it is to be
-- more than the number of events. Not modelled: the lines that only print, with the macros of
-- ext/dbg.h; the classes that `Init_zookeeper_c` makes; the Ruby library above the extension and
-- the Java driver; and the client library itself, whose functions are parameters.
pub mod Base
pub mod Structs
pub mod Memory
pub mod Ruby
pub mod Translate
pub mod Event
pub mod Queue
pub mod Callbacks
pub mod Wrapper
pub mod Extension
pub mod Requests
pub mod Session
pub mod System
pub mod Examples
