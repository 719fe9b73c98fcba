-- ===== src/Session/Life.antt =====
-- A session from `method_zkrb_init` to `method_close_handle`, with what the client does to memory left out:
-- its functions return and change nothing that this code sees.
use zookeeper_fork.Base.{
  ℕ, suc, ◌+◌, ◌*◌, ◌≡◌, ◌≢◌, refl, ◌∙◌, true, false, Option, none, some, [], ℤ, pos, arith, ◌<◌,
  ◌==◌, if◌then◌else◌, eqb_ℤ,
}
use zookeeper_fork.Structs.{Ptr, null, Bytes, zkrb_global_req}
use zookeeper_fork.Memory.{World, ok, not_null, Fresh, write_cell, malloc, store, free}
use zookeeper_fork.Translate.{Jute}
use zookeeper_fork.Queue.Chain.{IsQueue}
use zookeeper_fork.Queue.Frame.{IsQueue-frame, Keeps-write}
use zookeeper_fork.Queue.Drain.{gone, queue_free-released}
use zookeeper_fork.Queue.Setup.{fresh_queue, set_up, alloc-run, set_up-IsQueue}
use zookeeper_fork.Callbacks.{zkrb_state_callback, zoo_session_event, zkrb_calling_context_alloc}
use zookeeper_fork.Callbacks.Finish.{Ready, context, renewed}
use zookeeper_fork.Callbacks.Delivery.{Delivered}
use zookeeper_fork.Callbacks.Watcher.{watched, state_callback-Delivered}
use zookeeper_fork.Extension.{Handle, Answer, nothing, raised, Closing, method_close_handle}
use zookeeper_fork.Requests.{Functions, string, to_int}
use zookeeper_fork.Requests.Guard.{null-no}
use zookeeper_fork.Requests.Quiet.{Idle-Ready}
use zookeeper_fork.Session.{
  Session, Options, debug_level, fixnum_word, open_session, method_zkrb_init,
}

-- The client makes the handle `zh`, or fails if that is NULL, for one call of `zookeeper_init` alone:
-- with the address of the host's bytes, `zkrb_state_callback` for the watcher, the word of the
-- timeout, the context `ctx` and no flags. It gives `ctx` back at the end.
pub record Serves (client : Session) (closing : Closing) (fns : Functions) (host : Ptr)
    (timeout : ℤ) (zh ctx : Ptr) : Type 0 where
  pub level : (l : ℤ) (u : World) → client.zoo_set_debug_level l u ≡ ok tt u
  pub order : (u : World) → client.zoo_deterministic_conn_order false u ≡ ok tt u
  pub init :
      (u : World)
      → client.zookeeper_init host fns.state_fn (to_int (fixnum_word timeout)) ctx (pos 0) u
        ≡ ok zh u
  pub get_context : (u : World) → closing.zoo_get_context zh u ≡ ok ctx u

-- From `u` on, closing the handle leaves memory alone: no request is open, whose completion the client
-- would call.
pub record Closes (closing : Closing) (zh : Ptr) (u : World) : Type 0 where
  pub rv : ℤ
  pub close : closing.zookeeper_close zh u ≡ ok rv u

-- A pipe and memory are there, and a new pipe is empty.
pub record Supplied (w : World) : Type 0 where
  pub fresh : Fresh w
  pub memory : (n : ℕ) → w.oom n ≡ false
  pub a_pipe : w.os.pipe_fails w.os.pipes ≡ false
  pub unused : w.os.pending w.os.pipes ≡ 0
  pub capacity : 0 < w.os.capacity

context_alloc-ok :
    (w : World) (q : Ptr)
    → w.oom w.brk ≡ false
    → zkrb_calling_context_alloc zkrb_global_req q w
      ≡ ok (suc w.brk) (renewed w (context zkrb_global_req q))
unfolding zkrb_calling_context_alloc malloc store
context_alloc-ok w q o = ground arith

-- What is left of a session once it is closed: every block is given back that was allocated since
-- `w`, and both ends of the pipe are closed.
pub record Undone (w u : World) : Type 0 where
  pub same : (a : Ptr) → u.cell a ≡ w.cell a
  pub read_end : u.os.fds (2 * w.os.pipes) ≡ none
  pub write_end : u.os.fds (2 * w.os.pipes + 1) ≡ none

module _ {w : World} (x : Supplied w) where
  -- The queue, and the context of the session.
  abbrev pub queue_at : Ptr
  queue_at = suc w.brk

  abbrev pub context_at : Ptr
  context_at = suc (suc (suc w.brk))

  abbrev pub opened : World
  opened = renewed (set_up w) (context zkrb_global_req queue_at)

  set_up-Fresh : Fresh (set_up w)
  set_up-Fresh a above = ground (arith, x.fresh a)

  pub opened-Ready : Ready opened context_at zkrb_global_req queue_at (fresh_queue w) []
  opened-Ready = Idle-Ready zkrb_global_req (record {
    is = set_up-IsQueue w x.fresh;
    fresh = set_up-Fresh;
    memory = x.memory;
    room = ground (arith, x.unused, x.capacity);
  })

  module _ (client : Session) (fns : Functions) (closing : Closing) {p : Ptr} {timeout : ℤ}
      {zh : Ptr} (c : Serves client closing fns p timeout zh context_at) where
    abbrev pub made : Handle → Handle
    made h = record h { zh = zh; queue = queue_at }

    -- What `zkrb_init` returns, for a client that makes a handle or not.
    abbrev pub made_of : Handle → Answer × Handle × Option Handle
    made_of h = if zh == null then (raised, h, some (made h)) else (nothing, made h, some (made h))

    open_session-run : (h : Handle) → open_session client fns timeout p h w ≡ ok (made_of h) opened
    unfolding open_session
    open_session-run h =
        rw
          (
            alloc-run w x.fresh x.a_pipe (x.memory w.brk) (x.memory (suc w.brk)),
            not_null (opened-Ready.is.here),
            c.order (set_up w),
            context_alloc-ok (set_up w) queue_at (x.memory (suc (suc w.brk))),
            c.init opened,
          )
          refl

    pub init-run :
        (l : ℤ) (n : ℕ) (opts : Options) (h : Handle)
        → debug_level opts ≡ some l
        → method_zkrb_init client fns timeout (string p n) opts h w ≡ ok (made_of h) opened
    unfolding method_zkrb_init
    init-run l n opts h e = ground (arith, e, c.level l w, open_session-run h)

    -- With a pipe and memory, and a client that leaves memory alone and makes a handle if it is called
    -- with the host's string, `zkrb_state_callback`, the word of the timeout, the new context and no
    -- flags, `zkrb_init` with a string for the host and options that it accepts returns nil, and the
    -- object has a structure with what the client made and a new queue. When the client then calls `zkrb_state_callback`, as the watcher of
    -- the session with the context it was given, the queue has an event for the session's request with
    -- the type, the state and the path.
    pub init-Watched :
        (l : ℤ) (n : ℕ) (opts : Options) (h : Handle) (type state : ℤ) (path : Bytes)
        → zh ≢ null
        → debug_level opts ≡ some l
        → (v : World) × (method_zkrb_init client fns timeout (string p n) opts h w
            ≡ ok (nothing, made h, some (made h)) v)
          × Delivered context_at zkrb_global_req
              (eqb_ℤ type zoo_session_event)
              queue_at
              (fresh_queue w)
              []
              (watched zkrb_global_req type state path)
              (zkrb_state_callback type state (some path) context_at v)
    init-Watched l n opts h type state path ne e = (
      opened,
      init-run l n opts h e ∙ rw (null-no ne) refl,
      state_callback-Delivered type state path opened-Ready,
    )

    -- The memory of `w`, and the two ends of its next pipe closed.
    abbrev closed_again : World
    closed_again = gone queue_at (fresh_queue w) (write_cell opened context_at none)

    context_gone : IsQueue (write_cell opened context_at none) queue_at (fresh_queue w) []
    context_gone =
        IsQueue-frame opened-Ready.is
          (Keeps-write opened context_at _ none opened-Ready.context_at.there (refl, refl))

    close-run :
        (jute : Jute) (fuel : ℕ) (h : Handle)
        → Closes closing zh opened
        → zh ≢ null
        → method_close_handle jute closing
            (suc fuel)
            (record h { zh = zh; queue = queue_at })
            opened
          ≡ ok
              (
                nothing,
                record { zh = null; queue = null; closed = true; shutting_down = h.shutting_down },
              )
              closed_again
    unfolding method_close_handle free
    close-run jute fuel h d ne =
        let v = write_cell opened context_at none in
        let g =
          queue_free-released jute queue_at (suc fuel) v (fresh_queue w) [] v context_gone refl
            (omega arith) in
        ground (arith, c.get_context opened, d.close, ne, g)

    closed_again-Undone : Undone w closed_again
    closed_again-Undone = record {
      same = λ a. ground (arith, x.fresh a);
      read_end = ground arith;
      write_end = ground arith;
    }

    -- A session from `zkrb_init` to `method_close_handle`, with a string for the host and options
    -- that are accepted, a pipe and memory, a client that makes a handle for that call, leaves memory alone and
    -- gives the context back at the end, and any fuel from 1 on: both return nil, and memory is as
    -- it was before. The context, the queue and its node are freed, the two descriptors of the
    -- pipe are closed, and the handle is empty.
    pub init-close-Undone :
        (l : ℤ) (n : ℕ) (opts : Options) (h : Handle) (jute : Jute) (fuel : ℕ)
        → Closes closing zh opened
        → zh ≢ null
        → debug_level opts ≡ some l
        → (k : Handle) × (v : World) × (u : World) × (method_zkrb_init client fns timeout
              (string p n)
              opts
              h
              w
            ≡ ok (nothing, k, some k) v)
          × (method_close_handle jute closing (suc fuel) k v
              ≡ ok
                  (
                    nothing,
                    record {
                      zh = null;
                      queue = null;
                      closed = true;
                      shutting_down = h.shutting_down;
                    },
                  )
                  u)
          × Undone w u
    init-close-Undone l n opts h jute fuel d ne e = (
      record h { zh = zh; queue = queue_at },
      opened,
      closed_again,
      init-run l n opts h e ∙ rw (null-no ne) refl,
      close-run jute fuel h d ne,
      closed_again-Undone,
    )
