-- ===== src/System/Asking.antt =====
-- A request of Ruby: the client gets its contexts, and no letter changes.
use zookeeper_fork.Base.{
  ℕ, suc, ◌+◌, arith, ◌≡◌, ◌≢◌, refl, true, false, [], ◌∷◌, ◌++◌, ℤ, pos, List, append_assoc,
  Option,
}
use zookeeper_fork.Structs
use zookeeper_fork.Structs.{Ptr, null}
use zookeeper_fork.Memory.{World, Cmd, Run, ok}
use zookeeper_fork.Ruby.{Value}
use zookeeper_fork.Translate.{Jute}
use zookeeper_fork.Extension.{Answer, value}
use zookeeper_fork.Extension.Listening.{opened_at}
use zookeeper_fork.Wrapper.{Client}
use zookeeper_fork.Wrapper.Region.{Interpreter}
use zookeeper_fork.Wrapper.AsyncNodes.{
  zkrb_call_zoo_aget, zkrb_call_zoo_aexists, zkrb_call_zoo_acreate, zkrb_call_zoo_adelete,
  zkrb_call_zoo_aset, zkrb_call_zoo_awexists, zkrb_call_zoo_awget,
}
use zookeeper_fork.Wrapper.AsyncLists.{
  zkrb_call_zoo_aget_children2, zkrb_call_zoo_awget_children2, zkrb_call_zoo_async,
}
use zookeeper_fork.Requests.{Functions, fixnum, qtrue, string, to_int, fits}
use zookeeper_fork.Requests.Quiet.{Quiet}
use zookeeper_fork.Requests.Locals.{after_local-Quiet, after_locals-Quiet, after_get-Quiet}
use zookeeper_fork.Requests.Replies.{Accepted, Requested}
use zookeeper_fork.Requests.Asked.{
  exists-Requested, get-Requested, get_children-Requested, create-Requested, delete-Requested,
  sync-Requested,
}
use zookeeper_fork.Requests.Bounds.{set-Requested}
use zookeeper_fork.Requests.Watches.{
  watching, watch-Ready, exists_watch-run, get_watch-run, children_watch-run,
}
use zookeeper_fork.System.{
  Pending, handed, perform, Request, exists_request, exists_watch, get_request, get_watch,
  children_request, children_watch, sync_request, watches, delete_request, set_request,
  create_request,
}
use zookeeper_fork.System.Mailbox.{returns, FitRequest}
use zookeeper_fork.System.Letters.{Letter}
use zookeeper_fork.System.Growing.{Sys-renewed, Sys-Quiet}
use zookeeper_fork.System.State.{Sys, Sys-Idle}

-- How many blocks a request allocates from its context to the client's call: the context of a watch, and
-- those of its local variables.
abbrev pub since : Request → ℕ
since (exists_request p len) = 1
since (exists_watch p len) = 2
since (get_request p len) = 3
since (get_watch p len) = 4
since (children_request p len) = 2
since (children_watch p len) = 3
since (sync_request p len) = 0
since (delete_request p len v) = 0
since (set_request p len b size v) = 1
since (create_request p len b size flags) = 1

module _ (client : Client) (ruby : Interpreter) (fns : Functions) (z : Ptr) where
  -- The client's function that a request calls, with the context at `ctx`, and that of the watch
  -- behind it.
  abbrev pub call : Request → Ptr → Cmd ℤ
  call (exists_request p len) ctx = zkrb_call_zoo_aexists client ruby z p (pos 0) fns.stat_fn ctx
  call (exists_watch p len) ctx =
      zkrb_call_zoo_awexists client ruby z p fns.state_fn (suc ctx) fns.stat_fn ctx
  call (get_request p len) ctx = zkrb_call_zoo_aget client ruby z p (pos 0) fns.data_fn ctx
  call (get_watch p len) ctx =
      zkrb_call_zoo_awget client ruby z p fns.state_fn (suc ctx) fns.data_fn ctx
  call (children_watch p len) ctx =
      zkrb_call_zoo_awget_children2 client ruby z p fns.state_fn (suc ctx) fns.strings_stat_fn ctx
  call (sync_request p len) ctx = zkrb_call_zoo_async client ruby z p fns.string_fn ctx
  call (children_request p len) ctx =
      zkrb_call_zoo_aget_children2 client ruby z p (pos 0) fns.strings_stat_fn ctx
  call (delete_request p len v) ctx = zkrb_call_zoo_adelete client ruby z p v fns.void_fn ctx
  call (set_request p len b size v) ctx =
      zkrb_call_zoo_aset client ruby z p b (pos size) v fns.stat_fn ctx
  call (create_request p len b size flags) ctx =
      zkrb_call_zoo_acreate client ruby z p b (to_int size) null flags fns.string_fn ctx

  -- The client takes each call whose context is the block that the request allocated first, and no other:
  -- at the call it stands exactly so many blocks below the newest one as the method has allocated
  -- after it. It returns `rc` and leaves memory and pipes alone.
  pub record Takes (rc : Request → ℤ) : Type 0 where
    pub takes :
        (r : Request) (ctx : Ptr) (u : World) → u.brk ≡ ctx + since r → call r ctx u ≡ ok (rc r) u

module _ {jute : Jute} {rest : Ptr → Option Structs.Cell} {q : Ptr} {w : World} {ps : Pending}
    {ls : List Letter} {k : ℕ} (s : Sys jute rest q w ps ls (suc k)) (n : ℤ) where
  -- The method ends and the client has its contexts.
  pub record Asking (z : Ptr) (client : Client) (ruby : Interpreter) (fns : Functions)
      (rc : Request → ℤ) (r : Request) : Type 0 where
    pub world : World
    pub run :
        perform jute client ruby fns (opened_at z q false) n r w
        ≡ ok (value (returns r (rc r))) world
    pub sys : Sys jute rest q world (ps ++ handed n r (suc w.brk)) ls (suc k)

  Requested-Sys :
      {v : Value} {m : Run Answer}
      → (x : Requested n v w q s.queue s.nodes m)
      → Sys jute rest q x.world (ps ++ (suc w.brk, n) ∷ []) ls (suc k)
  Requested-Sys x = Sys-Quiet x.quiet (Sys-renewed s n)

  module _ (z : Ptr) (has_zh : z ≢ null) (fit : fits 63 n ≡ true) (client : Client)
      (ruby : Interpreter) (fns : Functions) where
    taken : Accepted (opened_at z q false) (fixnum n) n qtrue w s.queue s.nodes
    taken = record {
      is_number = refl;
      is_long = fit;
      zh_open = has_zh;
      is_async = refl;
      idle = Sys-Idle s;
    }

    abbrev Asks : (Request → ℤ) → Request → Type 0
    Asks rc r = Asking z client ruby fns rc r

    -- Without a watch there is one context, with one there are two.
    one_context :
        (rc : Request → ℤ) (r : Request)
        → watches r ≡ false
        → Requested n
            (returns r (rc r))
            w
            q
            s.queue
            s.nodes
            (perform jute client ruby fns (opened_at z q false) n r w)
        → Asks rc r
    one_context rc r e x = record { world = x.world; run = x.run; sys = rw e (Requested-Sys x) }

    two_contexts :
        (rc : Request → ℤ) (r : Request) {v : World}
        → watches r ≡ true
        → perform jute client ruby fns (opened_at z q false) n r w ≡ ok (value (returns r (rc r))) v
        → Quiet (watching taken) v
        → Asks rc r
    two_contexts rc r {v} e run k = record {
      world = v;
      run = run;
      sys = rw e (
          rw (← append_assoc ps ((suc w.brk, n) ∷ []) ((suc (suc w.brk), n) ∷ []))
            (Sys-Quiet k (Sys-renewed (Sys-renewed s n) n)));
    }

    pub perform-Asking :
        {rc : Request → ℤ} → Takes client ruby fns z rc → (r : Request) → FitRequest r → Asks rc r
    unfolding perform
    perform-Asking {rc} t (exists_request p len) f =
        let r = exists_request p len in
        one_context rc r refl (
          exists-Requested taken client ruby fns p len (rc r)
            (t.takes r (suc w.brk) _ (omega arith)))
    perform-Asking {rc} t (get_request p len) f =
        let r = get_request p len in
        one_context rc r refl
          (get-Requested taken client ruby fns p len (rc r) (t.takes r (suc w.brk) _ (omega arith)))
    perform-Asking {rc} t (children_request p len) f =
        let r = children_request p len in
        one_context rc r refl (
          get_children-Requested taken client ruby fns p len (rc r)
            (t.takes r (suc w.brk) _ (omega arith)))
    perform-Asking {rc} t (sync_request p len) f =
        let r = sync_request p len in
        one_context rc r refl (
          sync-Requested taken client ruby fns p len (rc r) refl
            (t.takes r (suc w.brk) _ (omega arith)))
    perform-Asking {rc} t (delete_request p len v) f =
        let r = delete_request p len v in
        one_context rc r refl (
          delete-Requested taken client ruby fns p len (rc r) v f
            (t.takes r (suc w.brk) _ (omega arith)))
    perform-Asking {rc} t (set_request p len b size v) f =
        let r = set_request p len b size v in
        one_context rc r refl (
          set-Requested taken client ruby fns p len (rc r) (string b size) v refl f.0 f.1
            (t.takes r (suc w.brk) _ (omega arith)))
    perform-Asking {rc} t (create_request p len b size flags) f =
        let r = create_request p len b size flags in
        one_context rc r refl (
          create-Requested taken client ruby fns p len (rc r) jute b size flags f
            (t.takes r (suc w.brk) _ (omega arith)))
    perform-Asking {rc} t (exists_watch p len) f =
        let r = exists_watch p len in
        two_contexts rc r refl
          (exists_watch-run taken client ruby fns p len (rc r) (pos 0) qtrue refl
            (t.takes r (suc w.brk) _ (omega arith)))
          (after_local-Quiet (watching taken) (watch-Ready taken).fresh)
    perform-Asking {rc} t (get_watch p len) f =
        let r = get_watch p len in
        two_contexts rc r refl
          (get_watch-run taken client ruby fns p len (rc r) (pos 0) qtrue refl
            (t.takes r (suc w.brk) _ (omega arith)))
          (after_get-Quiet (watching taken) (watch-Ready taken).fresh)
    perform-Asking {rc} t (children_watch p len) f =
        let r = children_watch p len in
        two_contexts rc r refl
          (children_watch-run taken client ruby fns p len (rc r) (pos 0) qtrue refl
            (t.takes r (suc w.brk) _ (omega arith)))
          (after_locals-Quiet (watching taken) (watch-Ready taken).fresh)
