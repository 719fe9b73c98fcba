-- ===== src/Examples.antt =====
-- The theorems at concrete inputs: an empty queue at address 1, its node at 2, and the context of
-- request 7 at 3.
mod Queues
mod Replies
mod Releases
mod Wrappers
mod Listeners
mod Requests
mod Answers
mod Sessions
mod Systems
use zookeeper_fork.Base.{
  suc, zero, ◌≡◌, refl, Option, false, some, none, List, [], ◌∷◌, pos, arith, ◌==◌, if◌then◌else◌,
  ◌<◌, length,
}
use zookeeper_fork.Structs.{Ptr, Queue, Cell, queue, event_ll, calling_context}
use zookeeper_fork.Memory.{World, Kernel, reader, writer, Fresh}
use zookeeper_fork.Queue.Chain.{IsQueue}
use zookeeper_fork.Callbacks.Finish.{Ready}

abbrev pub os : Kernel
os = record {
  fds = λ d. if d == 0 then some (reader 0) else if d == 1 then some (writer 0) else none;
  pending = λ m. 0;
  pipes = 1;
  writes = 0;
  logged = 0;
  capacity = 65536;
  pipe_fails = λ n. false;
  write_fails = λ n. false;
}

abbrev pub handle : Queue
handle = record { head = 2; tail = 2; pipe_read = 0; pipe_write = 1 }

abbrev pub node : Ptr → Ptr → Cell
node e n = event_ll (record { event = e; next = n })

-- The blocks of a list, at the addresses from 1 on.
abbrev pub at : List Cell → Ptr → Option Cell
at cells zero = none
at [] (suc p) = none
at (c ∷ cells) (suc zero) = some c
at (c ∷ cells) (suc (suc p)) = at cells (suc p)

abbrev pub world : List Cell → World
world cells = record { cell = at cells; brk = length cells; oom = λ n. false; os = os }

at-above : (cells : List Cell) (a : Ptr) → length cells < a → at cells a ≡ none
at-above [] zero h = refl
at-above [] (suc a) h = refl
at-above (c ∷ cells) zero h = refl
at-above (c ∷ cells) (suc zero) h = absurd (omega arith)
at-above (c ∷ cells) (suc (suc a)) h = at-above cells (suc a) (omega arith)

pub world-Fresh : (cells : List Cell) → Fresh (world cells)
world-Fresh cells a h = at-above cells a h

abbrev pub empty : World
empty =
    world (queue handle ∷ node 0 0 ∷ calling_context (record { req_id = pos 7; queue = 1 }) ∷ [])

pub empty-IsQueue : IsQueue empty 1 handle []
empty-IsQueue = record {
  here = record { ne_null = omega arith; there = refl };
  first = refl;
  chain = tt;
  last = record { ne_null = omega arith; there = refl };
}

pub empty-Ready : Ready empty 3 (pos 7) 1 handle []
empty-Ready = record {
  context_at = record { ne_null = omega arith; there = refl };
  is = empty-IsQueue;
  fresh = world-Fresh _;
  memory = λ n. refl;
  room = refl;
}
