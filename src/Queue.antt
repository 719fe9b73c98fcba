-- ===== src/Queue.antt =====
-- The event queue of ext/zookeeper_lib.c: a linked list with an empty node at its end, and a pipe
-- that wakes the listener. Each function holds the global mutex, so it is one step of the program.
pub mod Chain
pub mod Fifo
pub mod Drain
pub mod Frame
pub mod History
pub mod Setup
pub mod Signal
pub mod Threads
pub mod Kept
pub mod Wakeup
use zookeeper_fork.Base.{
  ℕ, zero, suc, Bool, true, false, Option, none, some, ℤ, pos, negsuc, eqb_ℤ, ◌==◌, if◌then◌else◌,
  ◌||◌,
}
use zookeeper_fork.Structs.{Ptr, null, EventLl, Queue, Cell, event_ll, queue, as_event_ll, as_queue}
use zookeeper_fork.Translate.{Jute}
use zookeeper_fork.Event.{zkrb_event_free}
use zookeeper_fork.Memory.{
  World, Cmd, Run, out_of_fuel, pure, ◌>>=◌, ◌>>◌, load_as, store, malloc, free, pipe, write, close,
  log_err, expect,
}

abbrev pub ll : Ptr → Ptr → Cell
ll e n = event_ll (record { event = e; next = n })

-- A failed write is logged; the event is in the queue all the same.
unfoldable pub zkrb_enqueue : Ptr → Ptr → Cmd (Unit {0})
zkrb_enqueue q elt = if q == null then pure tt else do
  s ← load_as as_queue q
  if s.tail == null then pure tt else do
    t ← load_as as_event_ll s.tail
    store s.tail (event_ll (record t { event = elt }))
    p ← malloc
    store s.tail (ll elt p)
    store q (queue (record s { tail = p }))
    store p (ll null null)
    ret ← write s.pipe_write
    if eqb_ℤ ret (negsuc 0) then log_err else pure tt

-- ZKRB_QUEUE_EMPTY, and the test of `zkrb_peek`: the first event, or NULL.
first_event : Queue → Cmd Ptr
first_event s =
    if s.head == null then pure null else do n ← load_as as_event_ll s.head; pure n.event

unfoldable pub zkrb_peek : Ptr → Cmd Ptr
unfolding first_event
zkrb_peek q = if q == null then pure null else do s ← load_as as_queue q; first_event s

unfoldable pub zkrb_dequeue : Ptr → Cmd Ptr
unfolding first_event
zkrb_dequeue q = if q == null then pure null else do
  s ← load_as as_queue q
  e ← first_event s
  if e == null then pure null else do
    n ← load_as as_event_ll s.head
    store q (queue (record s { head = n.next }))
    free s.head
    pure n.event

-- Wakes the listener. The C tests `!write(...)`, so what is logged is the result 0, and not -1.
unfoldable pub zkrb_signal : Ptr → Cmd (Unit {0})
unfolding load_as write log_err
zkrb_signal q = do
  s ← load_as as_queue q
  ret ← write s.pipe_write
  if eqb_ℤ ret (pos 0) then log_err else pure tt

unfoldable pub zkrb_event_ll_t_alloc : Cmd Ptr
unfolding malloc store
zkrb_event_ll_t_alloc = do
  rv ← malloc
  if rv == null then pure null else do store rv (ll null null); pure rv

-- The jump to `error`: a line is logged, and the structure freed. The descriptors stay open.
alloc_failed : Ptr → Cmd Ptr
unfolding log_err free
alloc_failed rq = do log_err; free rq; pure null

alloc_nodes : ℕ × ℕ → Cmd Ptr
unfolding malloc store zkrb_event_ll_t_alloc alloc_failed
alloc_nodes (r, w) = do
  rq ← malloc
  if rq == null then alloc_failed rq else do
    n ← zkrb_event_ll_t_alloc
    if n == null then alloc_failed rq else do
      store rq (queue (record { head = n; tail = n; pipe_read = r; pipe_write = w }))
      pure rq

unfoldable pub zkrb_queue_alloc : Cmd Ptr
unfolding pipe alloc_failed alloc_nodes
zkrb_queue_alloc = do pfd ← pipe; elim pfd [ none ↦ alloc_failed null | some fds ↦ alloc_nodes fds ]

module _ (jute : Jute) where
  -- The loop of `zkrb_queue_free`, for at most `fuel` events.
  drain_loop : ℕ → Ptr → Cmd (Unit {0})
  unfolding zkrb_dequeue zkrb_event_free
  drain_loop zero q = λ _. out_of_fuel
  drain_loop (suc fuel) q = do
    elt ← zkrb_dequeue q
    if elt == null then pure tt else do zkrb_event_free jute elt; drain_loop fuel q

  unfoldable pub zkrb_queue_free : ℕ → Ptr → Cmd (Unit {0})
  unfolding drain_loop load_as free close
  zkrb_queue_free fuel q = if q == null then pure tt else do
    drain_loop fuel q
    s ← load_as as_queue q
    free s.head
    close s.pipe_read
    close s.pipe_write
    free q
