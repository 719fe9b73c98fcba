-- ===== src/Callbacks/Watcher.antt =====
-- The watcher `zkrb_state_callback`: what it delivers, and how long its context lives.
use zookeeper_fork.Base.{suc, ◌≡◌, refl, some, none, ℤ, eqb_ℤ, arith}
use zookeeper_fork.Structs.{Ptr, null, Bytes, Queue, Cell, zkrb_watcher, watcher_completion}
use zookeeper_fork.Memory
use zookeeper_fork.Memory.{World, Holds, Fresh-apart, load, load_as, store, malloc, free, ok}
use zookeeper_fork.Ruby.{Value, hash, num, str, field, no_fields}
use zookeeper_fork.Translate.Frame.{BytesAt-frame}
use zookeeper_fork.Event.{zkrb_event_alloc}
use zookeeper_fork.Event.Show.{watcher-shows}
use zookeeper_fork.Queue.{zkrb_enqueue}
use zookeeper_fork.Queue.Chain.{Nodes}
use zookeeper_fork.Callbacks.{finish_watch, zkrb_state_callback, zoo_session_event}
use zookeeper_fork.Callbacks.Finish.{Ready, made, context}
use zookeeper_fork.Callbacks.Copies.{new-Copied, strdup-Copied}
use zookeeper_fork.Callbacks.Delivery.{Delivered, filled-Delivered, filled-Ready, Holds-kept}

pub finish_watch-run :
    {w : World} {ctx q : Ptr} {req : ℤ} {s : Queue} {xs : Nodes} (type : ℤ) (c : Ptr)
    → Ready w ctx req q s xs
    → finish_watch type c ctx w
      ≡ zkrb_enqueue q
          (suc w.brk)
          (made w ctx req (eqb_ℤ type zoo_session_event) none zkrb_watcher c)
unfolding finish_watch load_as load store malloc free zkrb_event_alloc
finish_watch-run {w} {ctx} {q} {req} type c r =
    let f = Fresh-apart w ctx (context req q) r.fresh r.context_at.there in
    ground (arith, r.memory w.brk)

abbrev pub watched : ℤ → ℤ → ℤ → Bytes → Value
watched req type state path = hash (
    field "req_id" (num req)
      (field "type" (num type) (field "state" (num state) (field "path" (str path) no_fields))))

-- If the context and its queue are well-formed, memory does not run out and the pipe has room, and the path is not NULL,
-- `zkrb_state_callback` delivers an event that Ruby sees with the context's request, the type, the state and
-- the path, and with no return code. The context is kept after a session event and freed after any other.
pub state_callback-Delivered :
    {w : World} {ctx q : Ptr} {req : ℤ} {s : Queue} {xs : Nodes} (type state : ℤ) (path : Bytes)
    → Ready w ctx req q s xs
    → Delivered ctx req
        (eqb_ℤ type zoo_session_event)
        q
        s
        xs
        (watched req type state path)
        (zkrb_state_callback type state (some path) ctx w)
unfolding zkrb_state_callback
state_callback-Delivered type state path r =
    let n = new-Copied r (at null) in
    let c = strdup-Copied n.ready path in
    let h = Holds-kept {v = c.world} n.result (at null) c.kept n.at in
    let keep = eqb_ℤ type zoo_session_event in
    rw (n.run, c.run, Memory.store-ok h (at c.result))
      (filled-Delivered c.ready n.result (at null) (at c.result) h refl refl keep none zkrb_watcher
        (finish_watch-run type n.result (
          filled-Ready c.ready n.result (at null) (at c.result) h refl refl keep none zkrb_watcher))
        λ u e ev a k. watcher-shows path ev a (BytesAt-frame k c.result (some path) c.at))
  where
    at : Ptr → Cell
    at p = watcher_completion (record { type = type; state = state; path = p })
