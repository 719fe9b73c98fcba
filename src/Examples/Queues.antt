-- ===== src/Examples/Queues.antt =====
-- The queue's theorems at a queue that is empty, at one with an event, and at a pipe that is full.
use zookeeper_fork.Base.{◌≡◌, refl, true, false, [], ◌∷◌, arith, ◌<◌}
use zookeeper_fork.Structs.{Queue, queue}
use zookeeper_fork.Memory.{World, ok, Fresh}
use zookeeper_fork.Queue.{zkrb_enqueue, zkrb_dequeue, zkrb_signal}
use zookeeper_fork.Queue.Chain.{IsQueue}
use zookeeper_fork.Queue.Fifo.{
  enqueued, dequeued, enqueue-snoc, dequeue-nil, dequeue-cons, peek-first,
}
use zookeeper_fork.Queue.Signal.{signalled, signal-run}
use zookeeper_fork.Queue.History.{Served, enqueue, dequeue, serve_refines}
use zookeeper_fork.Queue.Threads.{State, Reach, Inv, miss, produce, here, later}
use zookeeper_fork.Queue.Wakeup.{no_lost_wakeup}
use zookeeper_fork.Examples.{handle, node, world, world-Fresh, empty, empty-IsQueue, os}

enqueue-snoc_example :
    (zkrb_enqueue 1 9 empty ≡ ok tt (enqueued empty 1 handle 9))
    × IsQueue (enqueued empty 1 handle 9) 1 (record handle { tail = 4 }) ((2, 9) ∷ [])
    × Fresh (enqueued empty 1 handle 9)
enqueue-snoc_example = enqueue-snoc empty-IsQueue 9 (omega arith) (world-Fresh _) refl refl

-- One event, 7, in the node at 2; the empty node is at 3.
abbrev one_handle : Queue
one_handle = record { head = 2; tail = 3; pipe_read = 0; pipe_write = 1 }

abbrev one : World
one = world (queue one_handle ∷ node 7 3 ∷ node 0 0 ∷ [])

one-IsQueue : IsQueue one 1 one_handle ((2, 7) ∷ [])
one-IsQueue = record {
  here = record { ne_null = omega arith; there = refl };
  first = refl;
  chain = (record { ne_null = omega arith; there = refl }, omega arith, refl, tt);
  last = record { ne_null = omega arith; there = refl };
}

dequeue-cons_example :
    (zkrb_dequeue 1 one ≡ ok 7 (dequeued one 1 one_handle 2 3))
    × IsQueue (dequeued one 1 one_handle 2 3) 1 (record one_handle { head = 3 }) []
dequeue-cons_example = dequeue-cons one-IsQueue

signal-run_example : zkrb_signal 1 one ≡ ok tt (record one { os = signalled 1 os })
signal-run_example = signal-run one-IsQueue.here refl

-- Two events in, three calls out: the last finds none.
serve_refines_example : Served 1 [] (enqueue 5 ∷ dequeue ∷ enqueue 6 ∷ dequeue ∷ dequeue ∷ []) empty
serve_refines_example =
    serve_refines 1 (enqueue 5 ∷ dequeue ∷ enqueue 6 ∷ dequeue ∷ dequeue ∷ []) empty handle []
      empty-IsQueue (world-Fresh _) (λ n. refl) (λ m. omega arith) (omega arith, (omega arith, tt))

empty-Inv : Inv 1 0 empty false
empty-Inv = record {
  s = handle;
  xs = [];
  is = empty-IsQueue;
  fresh = world-Fresh _;
  write_end = refl;
  read_end = refl;
  covered = λ h. omega arith;
}

abbrev looks : State
looks = record { world = empty; waiting = false }

abbrev waits : State
waits = record { world = empty; waiting = true }

abbrev woken_up : State
woken_up = record { world = enqueued empty 1 handle 9; waiting = true }

put :
    (zkrb_enqueue 1 9 empty ≡ ok tt (enqueued empty 1 handle 9))
    × IsQueue (enqueued empty 1 handle 9) 1 (record handle { tail = 4 }) ((2, 9) ∷ [])
    × Fresh (enqueued empty 1 handle 9)
put = enqueue-snoc empty-IsQueue 9 (omega arith) (world-Fresh _) refl refl

-- The listener finds the queue empty, and an event comes.
comes : Reach 1 looks woken_up
comes =
    later (later here (miss refl (dequeue-nil empty-IsQueue) refl))
      (produce 9 (omega arith) refl refl put.0 refl)

no_lost_wakeup_example : 0 < woken_up.world.os.pending 0
no_lost_wakeup_example =
    no_lost_wakeup {q = 1} {n = 0} {a = looks} {b = woken_up} 9 empty-Inv comes refl
      (peek-first ((2, 9) ∷ []) put.1) (omega arith)
