-- ===== src/Examples/Listeners.antt =====
-- A queue from its allocation on, a listener on it, and the close of its handle.
use zookeeper_fork.Base.{
  ◌≡◌, refl, true, false, some, none, [], ◌∷◌, pos, negsuc, arith, ◌==◌, if◌then◌else◌,
}
use zookeeper_fork.Structs.{Queue, queue, event, zkrb_void}
use zookeeper_fork.Memory.{World, ok, write_cell}
use zookeeper_fork.Ruby.{no_fields}
use zookeeper_fork.Translate.{Jute}
use zookeeper_fork.Event.Show.{reply}
use zookeeper_fork.Event.Release.{dropped, event_free-void}
use zookeeper_fork.Queue.{zkrb_queue_alloc, zkrb_queue_free}
use zookeeper_fork.Queue.Drain.{Freed, gone, queue_free-released}
use zookeeper_fork.Queue.Chain.{IsQueue}
use zookeeper_fork.Queue.Fifo.{dequeued}
use zookeeper_fork.Queue.Signal.{signalled}
use zookeeper_fork.Queue.Setup.{Made, NoQueue, queue_alloc-empty, queue_alloc-null}
use zookeeper_fork.Extension.{value, nothing, Closing, method_get_next_event, method_close_handle}
use zookeeper_fork.Extension.Listening.{opened_at, after_read}
use zookeeper_fork.Extension.Waking.{
  shut_down, replies, Piped, taken_out, get_next_event-shut_down, get_next_event-replies,
}
use zookeeper_fork.Extension.Handles.{Refuses, close_handle-Refuses}
use zookeeper_fork.Examples.{
  os, handle, node, world, world-Fresh, empty, empty-IsQueue, empty-Ready,
}

queue_alloc-empty_example :
    (v : World) × (zkrb_queue_alloc (world []) ≡ ok 1 v) × Made (world []) 1 v
queue_alloc-empty_example = queue_alloc-empty (world []) (world-Fresh []) refl refl refl

-- No memory for the node.
abbrev one_block : World
one_block = record (world []) { oom = λ n. n == 1 }

queue_alloc-null_example : NoQueue one_block (zkrb_queue_alloc one_block)
queue_alloc-null_example = queue_alloc-null one_block (world-Fresh []) refl

abbrev pub jute : Jute
jute = record {
  allocate_string_vector = λ v n w. ok tt w;
  allocate_acl_vector = λ v n w. ok tt w;
  deallocate_acl_vector = λ v w. ok tt w;
}

-- A void event at 4.
abbrev one_handle : Queue
one_handle = record { head = 2; tail = 3; pipe_read = 0; pipe_write = 1 }

abbrev one : World
one = world (
    queue one_handle
    ∷ node 4 3
    ∷ node 0 0
    ∷ event (record { req_id = pos 7; rc = some (pos 0); type = zkrb_void; completion = 0 })
    ∷ [])

one-IsQueue : IsQueue one 1 one_handle ((2, 4) ∷ [])
one-IsQueue = record {
  here = record { ne_null = omega arith; there = refl };
  first = refl;
  chain = (record { ne_null = omega arith; there = refl }, omega arith, refl, tt);
  last = record { ne_null = omega arith; there = refl };
}

pub empty-Piped : Piped empty handle 0
empty-Piped = record { read_end = refl; write_end = refl; writes = refl }

get_next_event-shut_down_example :
    method_get_next_event jute (shut_down ∷ []) (opened_at 99 1 false) true empty
    ≡ ok nothing (after_read 0 (record empty { os = signalled 1 os }))
get_next_event-shut_down_example =
    get_next_event-shut_down jute [] (omega arith) empty-IsQueue empty-Piped refl

get_next_event-replies_example :
    method_get_next_event jute (replies (negsuc 100) 3 ∷ []) (opened_at 99 1 false) true empty
    ≡ ok
        (value (reply (pos 7) (negsuc 100) no_fields))
        (dropped (taken_out empty-Ready (negsuc 100) 0) 4)
get_next_event-replies_example =
    get_next_event-replies empty-Ready (negsuc 100) 0 jute [] (omega arith) empty-Piped

-- The client gives the context at 3 back, and closes.
abbrev closing : Closing
closing = record { zoo_get_context = λ zh w. ok 3 w; zookeeper_close = λ zh w. ok (pos 0) w }

abbrev shut : World
shut = record (write_cell (write_cell (write_cell empty 3 none) 2 none) 1 none) {
  os = record os { fds = λ d. if d == 1 then none else if d == 0 then none else os.fds d };
}

closes :
    method_close_handle jute closing 1 (opened_at 99 1 false) empty
    ≡ ok (nothing, record { zh = 0; queue = 0; closed = true; shutting_down = false }) shut
unfolding method_close_handle
closes = refl

close_handle-Refuses_example :
    Refuses jute closing 1 (record { zh = 0; queue = 0; closed = true; shutting_down = false }) shut
close_handle-Refuses_example =
    close_handle-Refuses jute closing 1 (opened_at 99 1 false)
      (record { zh = 0; queue = 0; closed = true; shutting_down = false }) nothing empty shut
      (omega arith) closes 1

-- The event is freed, and the queue is empty.
abbrev one_freed : World
one_freed = dropped (dequeued one 1 one_handle 2 3) 4

one-Freed : Freed jute 1 one one_handle ((2, 4) ∷ []) one_freed
unfolding dropped
one-Freed = (
  one_freed,
  event_free-void jute (record { ne_null = omega arith; there = refl }),
  record {
    here = record { ne_null = omega arith; there = refl };
    first = refl;
    chain = tt;
    last = record { ne_null = omega arith; there = refl };
  },
  refl,
)

queue_free-released_example : zkrb_queue_free jute 2 1 one ≡ ok tt (gone 1 one_handle one_freed)
queue_free-released_example =
    queue_free-released jute 1 2 one one_handle ((2, 4) ∷ []) one_freed one-IsQueue one-Freed
      (omega arith)
