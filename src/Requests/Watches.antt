-- ===== src/Requests/Watches.antt =====
-- A request with a watch: its two contexts, one for the reply and one for the watcher.
use zookeeper_fork.Base.{
  [], arith, ◌∷◌, false, ◌++◌, ℕ, suc, ◌≡◌, refl, ◌∙◌, true, Option, some, ℤ, eqb_ℤ,
}
use zookeeper_fork.Structs.{Ptr, Bytes, Stat, Queue, raw}
use zookeeper_fork.Memory.{World, Cmd, ok, alloca, leave, malloc, free}
use zookeeper_fork.Ruby.{rb_ary_push, num, array, item, no_items, field, no_fields}
use zookeeper_fork.Translate.{zkrb_stat_to_rarray}
use zookeeper_fork.Translate.Show.{or_nil}
use zookeeper_fork.Event.Show.{reply}
use zookeeper_fork.Queue.Chain.{Nodes}
use zookeeper_fork.Queue.Frame.{allocated}
use zookeeper_fork.Callbacks.{zkrb_stat_callback, zkrb_state_callback, zoo_session_event}
use zookeeper_fork.Callbacks.Finish.{Ready, Ready-renewed, context, renewed}
use zookeeper_fork.Callbacks.Delivery.{Delivered, lasting}
use zookeeper_fork.Callbacks.Next.{room_for_two, stat_callback-Ahead}
use zookeeper_fork.Callbacks.Replies.{stat_callback-Delivered}
use zookeeper_fork.Callbacks.Watcher.{watched, state_callback-Delivered}
use zookeeper_fork.Extension.{Handle, Answer, value}
use zookeeper_fork.Wrapper.{Client}
use zookeeper_fork.Wrapper.Region.{Interpreter}
use zookeeper_fork.Wrapper.AsyncNodes.{zkrb_call_zoo_awexists, zkrb_call_zoo_awget}
use zookeeper_fork.Wrapper.AsyncLists.{zkrb_call_zoo_awget_children2}
use zookeeper_fork.Requests.{
  Arg, string, Functions, async_watch, truthy, standard_preamble, CallType,
}
use zookeeper_fork.Requests.Guard.{preamble-runs}
use zookeeper_fork.Requests.Quiet.{Quiet-Ready, Idle, Idle-Ready}
use zookeeper_fork.Requests.Reads.{
  exists_call, exists_body, method_exists, get_call, get_body, method_get, get_children_call,
  get_children_body, method_get_children,
}
use zookeeper_fork.Requests.Replies.{Accepted, begun}
use zookeeper_fork.Requests.Locals.{
  after_local, after_local-Quiet, after_locals, after_get, with_buffer,
}

module _ {h : Handle} {reqid : Arg} {n : ℤ} {async_v : Arg} {w : World} {s : Queue} {xs : Nodes}
    (t : Accepted h reqid n async_v w s xs) where
  -- With both contexts.
  abbrev pub watching : World
  watching = renewed (begun t) (context n h.queue)

  reply-Ready : Ready watching (suc w.brk) n h.queue s xs
  reply-Ready = Ready-renewed (Idle-Ready n t.idle) (context n h.queue)

  begun-Idle : Idle (begun t) h.queue s xs
  begun-Idle =
      let r = Idle-Ready n t.idle in
      record { is = r.is; fresh = r.fresh; memory = r.memory; room = r.room }

  pub watch-Ready : Ready watching (suc (suc w.brk)) n h.queue s xs
  watch-Ready = Idle-Ready n begun-Idle

  asks :
      (p : Ptr) (len : ℕ) (watch : Arg) (k : Ptr → Ptr → Ptr → CallType → Cmd Answer)
      → truthy watch ≡ true
      → standard_preamble h reqid (string p len) async_v watch k w
        ≡ k p (suc w.brk) (suc (suc w.brk)) async_watch watching
  asks p len watch k e =
      preamble-runs h reqid p len async_v watch k w t.is_number t.is_long t.zh_open t.idle.memory
      ∙ rw (t.is_async, e) refl

  module _ (client : Client) (ruby : Interpreter) (fns : Functions) (p : Ptr) (len : ℕ)
      (rc rc' : ℤ) where
    exists-run :
        (zkrb_call_zoo_awexists client ruby h.zh p fns.state_fn
            (suc (suc w.brk))
            fns.stat_fn
            (suc w.brk)
            (allocated watching raw)
          ≡ ok rc (allocated watching raw))
        → exists_body client ruby fns h p (suc w.brk) (suc (suc w.brk)) async_watch watching
          ≡ ok (value (array (item (num rc) no_items))) (after_local watching)
    unfolding exists_body exists_call alloca leave rb_ary_push
    exists-run c = rw c refl

    pub exists_watch-run :
        (watch : Arg)
        → truthy watch ≡ true
        → (zkrb_call_zoo_awexists client ruby h.zh p fns.state_fn
              (suc (suc w.brk))
              fns.stat_fn
              (suc w.brk)
              (allocated watching raw)
            ≡ ok rc (allocated watching raw))
        → method_exists client ruby fns h reqid (string p len) async_v watch w
          ≡ ok (value (array (item (num rc) no_items))) (after_local watching)
    unfolding method_exists
    exists_watch-run watch e c = asks p len watch (exists_body client ruby fns h) e ∙ exists-run c

    -- The same for `get`, whose buffer is given back, and for `get_children`.
    pub get_watch-run :
        (watch : Arg)
        → truthy watch ≡ true
        → (zkrb_call_zoo_awget client ruby h.zh p fns.state_fn
              (suc (suc w.brk))
              fns.data_fn
              (suc w.brk)
              (with_buffer watching)
            ≡ ok rc (with_buffer watching))
        → method_get client ruby fns h reqid (string p len) async_v watch w
          ≡ ok (value (array (item (num rc) no_items))) (after_get watching)
    unfolding method_get get_body get_call alloca leave rb_ary_push malloc free
    get_watch-run watch e c =
        asks p len watch (get_body client ruby fns h) e
        ∙ ground (arith, t.idle.memory watching.brk, c)

    pub children_watch-run :
        (watch : Arg)
        → truthy watch ≡ true
        → (zkrb_call_zoo_awget_children2 client ruby h.zh p fns.state_fn
              (suc (suc w.brk))
              fns.strings_stat_fn
              (suc w.brk)
              (allocated (allocated watching raw) raw)
            ≡ ok rc (allocated (allocated watching raw) raw))
        → method_get_children client ruby fns h reqid (string p len) async_v watch w
          ≡ ok (value (array (item (num rc) no_items))) (after_locals watching)
    unfolding method_get_children get_children_body get_children_call alloca leave rb_ary_push
    children_watch-run watch e c =
        asks p len watch (get_children_body client ruby fns h) e ∙ rw c refl

    -- What the two callbacks deliver, from `u` on.
    pub record Both (o : Option Stat) (type state : ℤ) (path : Bytes) (u : World) : Type 0 where
      pub reply_first :
          Delivered
            (suc w.brk)
            n
            (lasting n)
            h.queue
            s
            xs
            (reply n rc' (field "stat" (or_nil zkrb_stat_to_rarray o) no_fields))
            (zkrb_stat_callback rc' o (suc w.brk) u)
      pub watch_first :
          Delivered
            (suc (suc w.brk))
            n
            (eqb_ℤ type zoo_session_event)
            h.queue
            s
            xs
            (watched n type state path)
            (zkrb_state_callback type state (some path) (suc (suc w.brk)) u)
      pub replied : World
      pub reply_run : zkrb_stat_callback rc' o (suc w.brk) u ≡ ok tt replied
      pub after : Queue
      pub elt : Ptr
      pub watch_next :
          Delivered
            (suc (suc w.brk))
            n
            (eqb_ℤ type zoo_session_event)
            h.queue
            after
            (xs ++ (s.tail, elt) ∷ [])
            (watched n type state path)
            (zkrb_state_callback type state (some path) (suc (suc w.brk)) replied)

    -- An asynchronous `exists` with a watch. On an open handle, with a request number that fits and
    -- memory and room for two events: if the client takes the call and leaves memory alone, the method
    -- returns its result. From then on either callback delivers an event with the number of the request:
    -- `zkrb_stat_callback` with the first context the reply's Stat, `zkrb_state_callback` with the second
    -- the type, the state and the path of the watch; and after the reply the second still does, with
    -- its event behind that of the reply.
    pub exists-Watched :
        (watch : Arg)
        → truthy watch ≡ true
        → room_for_two s w ≡ false
        → ((u : World)
            → zkrb_call_zoo_awexists client ruby h.zh p fns.state_fn
                (suc (suc w.brk))
                fns.stat_fn
                (suc w.brk)
                u
              ≡ ok rc u)
        → (o : Option Stat) (type state : ℤ) (path : Bytes)
        → (u : World) × (method_exists client ruby fns h reqid (string p len) async_v watch w
            ≡ ok (value (array (item (num rc) no_items))) u)
          × Both o type state path u
    exists-Watched watch e more c o type state path =
        let quiet = after_local-Quiet watching watch-Ready.fresh in
        let reply_ready = Quiet-Ready quiet reply-Ready in
        let watch_ready = Quiet-Ready quiet watch-Ready in
        let next =
          stat_callback-Ahead reply_ready
            (record { there = watch_ready.context_at; apart = ground arith }) more rc' o in
        (
          after_local watching,
          exists_watch-run watch e (c (allocated watching raw)),
          record {
            reply_first = stat_callback-Delivered reply_ready rc' o;
            watch_first = state_callback-Delivered type state path watch_ready;
            replied = next.world;
            reply_run = next.run;
            after = next.after;
            elt = next.elt;
            watch_next = state_callback-Delivered type state path next.ready;
          },
        )
