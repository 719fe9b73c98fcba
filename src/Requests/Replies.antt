-- ===== src/Requests/Replies.antt =====
-- An asynchronous request: what it finds, and what its method leaves for the reply.
use zookeeper_fork.Base.{ℕ, suc, ◌≡◌, ◌≢◌, refl, ◌∙◌, true, some, ℤ}
use zookeeper_fork.Structs.{Ptr, null, Queue}
use zookeeper_fork.Memory.{World, Cmd, Run, ok, Fresh}
use zookeeper_fork.Ruby.{Value, num, array, item, no_items}
use zookeeper_fork.Queue.Chain.{Nodes}
use zookeeper_fork.Callbacks.Finish.{Ready, context, renewed}
use zookeeper_fork.Extension.{Handle, Answer, value}
use zookeeper_fork.Requests.{Arg, qfalse, string, CallType, async, truthy, fits, standard_preamble}
use zookeeper_fork.Requests.Guard.{number, preamble-runs}
use zookeeper_fork.Requests.Quiet.{Quiet, Quiet-Ready, Idle, Idle-Ready}

-- What a request without a watch gives back: the value `v`, with a context for request `n` that
-- stands at the address the client was given, ready for the reply; no other block is new or changed.
pub record Requested (n : ℤ) (v : Value) (w : World) (q : Ptr) (s : Queue) (xs : Nodes)
    (r : Run Answer) : Type 0 where
  pub world : World
  pub run : r ≡ ok (value v) world
  pub quiet : Quiet (renewed w (context n q)) world
  pub ready : Ready world (suc w.brk) n q s xs

-- The result of the client's call, alone in an array.
abbrev pub only_rc : ℤ → Value
only_rc rc = array (item (num rc) no_items)

-- A call that is accepted, asynchronous and without a watch: a number for the request that fits, an
-- open handle, and a queue and memory for the reply.
pub record Accepted (h : Handle) (reqid : Arg) (n : ℤ) (async_v : Arg) (w : World) (s : Queue)
    (xs : Nodes) : Type 0 where
  pub is_number : number reqid ≡ some n
  pub is_long : fits 63 n ≡ true
  pub zh_open : h.zh ≢ null
  pub is_async : truthy async_v ≡ true
  pub idle : Idle w h.queue s xs

module _ {h : Handle} {reqid : Arg} {n : ℤ} {async_v : Arg} {w : World} {s : Queue} {xs : Nodes}
    (t : Accepted h reqid n async_v w s xs) where
  abbrev pub begun : World
  begun = renewed w (context n h.queue)

  pub begun-Fresh : Fresh begun
  begun-Fresh = (Idle-Ready n t.idle).fresh

  pub asks :
      (p : Ptr) (len : ℕ) (k : Ptr → Ptr → Ptr → CallType → Cmd Answer)
      → standard_preamble h reqid (string p len) async_v qfalse k w
        ≡ k p (suc w.brk) null async begun
  asks p len k =
      preamble-runs h reqid p len async_v qfalse k w t.is_number t.is_long t.zh_open t.idle.memory
      ∙ rw t.is_async refl

  pub requested :
      {x : Value} {m : Run Answer} {v : World}
      → m ≡ ok (value x) v
      → Quiet begun v
      → Requested n x w h.queue s xs m
  requested {v} run k = record {
    world = v;
    run = run;
    quiet = k;
    ready = Quiet-Ready k (Idle-Ready n t.idle);
  }
