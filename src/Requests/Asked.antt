-- ===== src/Requests/Asked.antt =====
-- The asynchronous requests without a watch, method by method: what each returns, and the context that
-- it leaves for the reply.
use zookeeper_fork.Base.{ℕ, suc, ◌≡◌, refl, ◌∙◌, true, ℤ, pos, arith}
use mathlib.Core.Path.{subst}
use zookeeper_fork.Structs.{Ptr, null, Queue, raw}
use zookeeper_fork.Memory.{World, ok, alloca, leave, malloc, free}
use zookeeper_fork.Ruby.{num, rb_ary_push}
use zookeeper_fork.Translate.{Jute}
use zookeeper_fork.Queue.Chain.{Nodes}
use zookeeper_fork.Queue.Frame.{allocated}
use zookeeper_fork.Extension.{Handle, value}
use zookeeper_fork.Wrapper.{Client}
use zookeeper_fork.Wrapper.Region.{Interpreter}
use zookeeper_fork.Wrapper.AsyncNodes.{
  zkrb_call_zoo_aget, zkrb_call_zoo_aexists, zkrb_call_zoo_acreate, zkrb_call_zoo_adelete,
}
use zookeeper_fork.Wrapper.AsyncLists.{zkrb_call_zoo_aget_children2, zkrb_call_zoo_async}
use zookeeper_fork.Requests.{
  to_int, fixnum, qnil, Arg, qfalse, qtrue, string, Functions, async, fits, standard_preamble,
}
use zookeeper_fork.Requests.Reads.{
  get_children_call, get_children_body, method_get_children, exists_call, get_call, exists_body,
  get_body, method_exists, method_get,
}
use zookeeper_fork.Requests.Writes.{
  create_call, create_body, acl_arg, method_create, delete_call, delete_body, method_delete,
  sync_body, method_sync,
}
use zookeeper_fork.Requests.Locals.{
  after_local, after_local-Quiet, after_locals, after_locals-Quiet, with_buffer, after_get,
  after_get-Quiet,
}
use zookeeper_fork.Requests.Quiet.{Quiet-refl}
use zookeeper_fork.Requests.Replies.{
  Requested, Accepted, only_rc, begun, begun-Fresh, asks, requested,
}

module _ {h : Handle} {reqid : Arg} {n : ℤ} {async_v : Arg} {w : World} {s : Queue} {xs : Nodes}
    (t : Accepted h reqid n async_v w s xs) where
  module _ (client : Client) (ruby : Interpreter) (fns : Functions) (p : Ptr) (len : ℕ)
      (rc : ℤ) where
    exists-run :
        (zkrb_call_zoo_aexists client ruby h.zh p
            (pos 0)
            fns.stat_fn
            (suc w.brk)
            (allocated (begun t) raw)
          ≡ ok rc (allocated (begun t) raw))
        → exists_body client ruby fns h p (suc w.brk) null async (begun t)
          ≡ ok (value (only_rc rc)) (after_local (begun t))
    unfolding exists_body exists_call alloca leave rb_ary_push
    exists-run c = rw c refl

    get-run :
        (zkrb_call_zoo_aget client ruby h.zh p
            (pos 0)
            fns.data_fn
            (suc w.brk)
            (with_buffer (begun t))
          ≡ ok rc (with_buffer (begun t)))
        → get_body client ruby fns h p (suc w.brk) null async (begun t)
          ≡ ok (value (only_rc rc)) (after_get (begun t))
    unfolding get_body get_call alloca leave rb_ary_push malloc free
    get-run c = ground (arith, t.idle.memory (begun t).brk, c)

    -- An asynchronous `exists` that the client takes returns what the client returned, and nothing
    -- else, and leaves the context it handed over ready for the reply.
    pub exists-Requested :
        (zkrb_call_zoo_aexists client ruby h.zh p
            (pos 0)
            fns.stat_fn
            (suc w.brk)
            (allocated (begun t) raw)
          ≡ ok rc (allocated (begun t) raw))
        → Requested n
            (only_rc rc)
            w
            h.queue
            s
            xs
            (method_exists client ruby fns h reqid (string p len) async_v qfalse w)
    unfolding method_exists
    exists-Requested c =
        requested t (asks t p len (exists_body client ruby fns h) ∙ exists-run c)
          (after_local-Quiet (begun t) (begun-Fresh t))

    -- An asynchronous `get` likewise, whose buffer is given back.
    pub get-Requested :
        (zkrb_call_zoo_aget client ruby h.zh p
            (pos 0)
            fns.data_fn
            (suc w.brk)
            (with_buffer (begun t))
          ≡ ok rc (with_buffer (begun t)))
        → Requested n
            (only_rc rc)
            w
            h.queue
            s
            xs
            (method_get client ruby fns h reqid (string p len) async_v qfalse w)
    unfolding method_get
    get-Requested c =
        requested t (asks t p len (get_body client ruby fns h) ∙ get-run c)
          (after_get-Quiet (begun t) (begun-Fresh t))

    children-run :
        (zkrb_call_zoo_aget_children2 client ruby h.zh p
            (pos 0)
            fns.strings_stat_fn
            (suc w.brk)
            (allocated (allocated (begun t) raw) raw)
          ≡ ok rc (allocated (allocated (begun t) raw) raw))
        → get_children_body client ruby fns h p (suc w.brk) null async (begun t)
          ≡ ok (value (only_rc rc)) (after_locals (begun t))
    unfolding get_children_body get_children_call alloca leave rb_ary_push
    children-run c = rw c refl

    -- An asynchronous `get_children` likewise.
    pub get_children-Requested :
        (zkrb_call_zoo_aget_children2 client ruby h.zh p
            (pos 0)
            fns.strings_stat_fn
            (suc w.brk)
            (allocated (allocated (begun t) raw) raw)
          ≡ ok rc (allocated (allocated (begun t) raw) raw))
        → Requested n
            (only_rc rc)
            w
            h.queue
            s
            xs
            (method_get_children client ruby fns h reqid (string p len) async_v qfalse w)
    unfolding method_get_children
    get_children-Requested c =
        requested t (asks t p len (get_children_body client ruby fns h) ∙ children-run c)
          (after_locals-Quiet (begun t) (begun-Fresh t))

    pub delete-run :
        (v : ℤ)
        → fits 31 v ≡ true
        → (zkrb_call_zoo_adelete client ruby h.zh p v fns.void_fn (suc w.brk) (begun t)
            ≡ ok rc (begun t))
        → method_delete client ruby fns h reqid (string p len) (fixnum v) async_v w
          ≡ ok (value (num rc)) (begun t)
    unfolding method_delete delete_body delete_call
    delete-run v e c = asks t p len (delete_body client ruby fns h (fixnum v)) ∙ rw (e, c) refl

    -- An asynchronous `delete` likewise, which returns the result itself.
    pub delete-Requested :
        (v : ℤ)
        → fits 31 v ≡ true
        → (zkrb_call_zoo_adelete client ruby h.zh p v fns.void_fn (suc w.brk) (begun t)
            ≡ ok rc (begun t))
        → Requested n
            (num rc)
            w
            h.queue
            s
            xs
            (method_delete client ruby fns h reqid (string p len) (fixnum v) async_v w)
    delete-Requested v e c = requested t (delete-run v e c) (Quiet-refl (begun t))

    -- `sync` likewise, which is always asynchronous.
    pub sync-Requested :
        async_v ≡ qtrue
        → (zkrb_call_zoo_async client ruby h.zh p fns.string_fn (suc w.brk) (begun t)
            ≡ ok rc (begun t))
        → Requested n (num rc) w h.queue s xs (method_sync client ruby fns h reqid (string p len) w)
    unfolding method_sync sync_body
    sync-Requested e c =
        requested t
          (subst
              (λ a.
                standard_preamble h reqid (string p len) a qfalse (sync_body client ruby fns h) w
                ≡ sync_body client ruby fns h p (suc w.brk) null async (begun t))
              e (asks t p len (sync_body client ruby fns h))
            ∙ rw c refl)
          (Quiet-refl (begun t))

    module _ (jute : Jute) (b : Ptr) (size : ℕ) (flags : ℤ) (g : fits 31 flags ≡ true) where
      create-run :
          (zkrb_call_zoo_acreate client ruby h.zh p b
              (to_int size)
              null
              flags
              fns.string_fn
              (suc w.brk)
              (allocated (begun t) raw)
            ≡ ok rc (allocated (begun t) raw))
          → create_body jute client ruby fns h
              (string b size)
              qnil
              (fixnum flags)
              p
              (suc w.brk)
              null
              async
              (begun t)
            ≡ ok (value (only_rc rc)) (after_local (begun t))
      unfolding create_body create_call acl_arg alloca leave rb_ary_push
      create-run c = rw (g, c) refl

      -- An asynchronous `create` of a node with data and no ACLs likewise.
      pub create-Requested :
          (zkrb_call_zoo_acreate client ruby h.zh p b
              (to_int size)
              null
              flags
              fns.string_fn
              (suc w.brk)
              (allocated (begun t) raw)
            ≡ ok rc (allocated (begun t) raw))
          → Requested n (only_rc rc) w h.queue s xs (
              method_create jute client ruby fns h reqid
                (string p len)
                (string b size)
                async_v
                qnil
                (fixnum flags)
                w)
      unfolding method_create
      create-Requested c =
          requested t
            (asks t p len (create_body jute client ruby fns h (string b size) qnil (fixnum flags))
              ∙ create-run c)
            (after_local-Quiet (begun t) (begun-Fresh t))
