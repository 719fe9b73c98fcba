-- ===== src/Queue/Threads.antt =====
-- The calls of the listener's loop of ext/zookeeper_c.c (`method_get_next_event`) and of the threads that
-- queue events, as steps: each holds the mutex.
use zookeeper_fork.Base.{ℕ, ◌≡◌, ◌≢◌, Bool, true, false, some, ℤ, ◌≤◌, length}
use zookeeper_fork.Structs.{Ptr, null, Queue, queue}
use zookeeper_fork.Memory.{World, reader, writer, ok, Holds, Fresh, read}
use zookeeper_fork.Queue.{zkrb_enqueue, zkrb_dequeue, zkrb_signal}
use zookeeper_fork.Queue.Chain.{Nodes, IsQueue}

-- The listener has found the queue empty and waits for its pipe, or it is about to look.
pub record State : Type 0 where
  pub world : World
  pub waiting : Bool

-- `char buf[64]`
abbrev pub buf_size : ℕ
buf_size = 64

-- One call by some thread. The last three are the listener's.
pub data Step (q : Ptr) (a b : State) : Type 0 where
  produce :
      (e : Ptr)
      → e ≢ null
      → a.world.oom a.world.brk ≡ false
      → a.world.os.write_fails a.world.os.writes ≡ false
      → zkrb_enqueue q e a.world ≡ ok tt b.world
      → b.waiting ≡ a.waiting
      → Step q a b
  signal : zkrb_signal q a.world ≡ ok tt b.world → b.waiting ≡ a.waiting → Step q a b
  take :
      (e : Ptr)
      → a.waiting ≡ false
      → zkrb_dequeue q a.world ≡ ok e b.world
      → e ≢ null
      → b.waiting ≡ false
      → Step q a b
  miss :
      a.waiting ≡ false → zkrb_dequeue q a.world ≡ ok null b.world → b.waiting ≡ true → Step q a b
  wake :
      (s : Queue) (got : ℤ)
      → Holds a.world q (queue s)
      → read s.pipe_read buf_size a.world ≡ ok got b.world
      → b.waiting ≡ false
      → Step q a b

pub data Reach (q : Ptr) (a : State) : State → Type 0 where
  here : Reach q a a
  later : {b c : State} → Reach q a b → Step q b c → Reach q a c

-- While the listener waits, each event in the queue has a byte in the pipe.
pub record Inv (q : Ptr) (n : ℕ) (w : World) (waiting : Bool) : Type 0 where
  pub s : Queue
  pub xs : Nodes
  pub is : IsQueue w q s xs
  pub fresh : Fresh w
  pub write_end : w.os.fds s.pipe_write ≡ some (writer n)
  pub read_end : w.os.fds s.pipe_read ≡ some (reader n)
  pub covered : waiting ≡ true → length xs ≤ w.os.pending n
