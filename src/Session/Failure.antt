-- ===== src/Session/Failure.antt =====
-- `method_zkrb_init` when the client makes no handle.
use zookeeper_fork.Base.{ℕ, suc, ◌≡◌, refl, none, some, [], ℤ, arith}
use zookeeper_fork.Structs.{Ptr, null, zkrb_global_req}
use zookeeper_fork.Memory.{World, ok, Holds}
use zookeeper_fork.Translate.{Jute}
use zookeeper_fork.Queue.Drain.{gone, queue_free-released}
use zookeeper_fork.Queue.Setup.{fresh_queue}
use zookeeper_fork.Callbacks.Finish.{context}
use zookeeper_fork.Extension.{Handle, raised, Closing, free_zkrb_instance_data, close_zh}
use zookeeper_fork.Requests.{Functions, string}
use zookeeper_fork.Session.{Session, Options, debug_level, method_zkrb_init}
use zookeeper_fork.Session.Life.{
  Serves, Supplied, opened, opened-Ready, context_at, queue_at, init-run,
}

module _ {w : World} (x : Supplied w) where
  -- If the client makes no handle and leaves memory alone, `zkrb_init`, with a string for the
  -- host, options that are accepted, a pipe and memory, raises, and the
  -- object stays as it was. When the collector later gives the structure back that was made, with any fuel from 1 on, the queue is freed, but the context stays allocated,
  -- with the address of the freed queue in it.
  pub init-leaks :
      (client : Session) (fns : Functions) (closing : Closing) (p : Ptr) (timeout : ℤ)
      → Serves client closing fns p timeout null (context_at x)
      → (l : ℤ) (n : ℕ) (opts : Options) (h : Handle) (jute : Jute) (fuel : ℕ)
      → debug_level opts ≡ some l
      → (k : Handle) × (v : World) × (u : World) × (method_zkrb_init client fns timeout
            (string p n)
            opts
            h
            w
          ≡ ok (raised, h, some k) v)
        × (free_zkrb_instance_data jute closing (suc fuel) k v ≡ ok tt u)
        × Holds u (context_at x) (context zkrb_global_req (queue_at x))
        × (u.cell (queue_at x) ≡ none)
  unfolding free_zkrb_instance_data close_zh
  init-leaks client fns closing p timeout c l n opts h jute fuel e =
      let g =
        queue_free-released jute (queue_at x) (suc fuel) (opened x) (fresh_queue w) [] (opened x)
          (opened-Ready x).is refl (omega arith) in
      (
        record h { zh = null; queue = (queue_at x) },
        (opened x),
        gone (queue_at x) (fresh_queue w) (opened x),
        init-run x client fns closing c l n opts h e,
        ground (arith, g),
        record { ne_null = omega arith; there = ground arith },
        ground arith,
      )
