-- ===== src/Requests/Answered.antt =====
-- A request from its method to the event of its reply: the composition of the extension's methods,
-- the callbacks and the queue.
use zookeeper_fork.Base.{ℕ, suc, ◌≡◌, true, Option, List, ℤ, pos}
use zookeeper_fork.Structs.{Ptr, null, Bytes, Stat, Queue}
use zookeeper_fork.Memory.{World, Run, ok}
use zookeeper_fork.Ruby.{num, str, array, item, no_items, field, no_fields, Value}
use zookeeper_fork.Translate.{Jute, zkrb_stat_to_rarray}
use zookeeper_fork.Translate.Show.{or_nil, strings_value}
use zookeeper_fork.Event.Show.{reply}
use zookeeper_fork.Queue.Chain.{Nodes}
use zookeeper_fork.Callbacks.{zkrb_data_callback, zkrb_string_callback, zkrb_strings_stat_callback}
use zookeeper_fork.Callbacks.Clones.{Readable, cut}
use zookeeper_fork.Callbacks.Arrays.{IsJute}
use zookeeper_fork.Callbacks.Delivery.{Delivered, lasting}
use zookeeper_fork.Callbacks.Replies.{data_callback-Delivered, string_callback-Delivered}
use zookeeper_fork.Callbacks.Lists.{strings_stat_callback-Delivered}
use zookeeper_fork.Extension.{Handle, Answer, value}
use zookeeper_fork.Wrapper.{Client}
use zookeeper_fork.Wrapper.Region.{Interpreter}
use zookeeper_fork.Wrapper.AsyncNodes.{zkrb_call_zoo_aget, zkrb_call_zoo_acreate}
use zookeeper_fork.Wrapper.AsyncLists.{zkrb_call_zoo_aget_children2}
use zookeeper_fork.Requests.{Arg, qfalse, qnil, fixnum, string, Functions, fits, to_int}
use zookeeper_fork.Requests.Reads.{method_get, method_get_children}
use zookeeper_fork.Requests.Writes.{method_create}
use zookeeper_fork.Requests.Replies.{Accepted}
use zookeeper_fork.Requests.Asked.{get-Requested, get_children-Requested, create-Requested}

-- The method returns `[rc]`, and the callback, when it comes, delivers an event for request `n`.
abbrev pub Answered :
    ℤ → ℤ → World → Ptr → Queue → Nodes → Value → Run Answer → (World → Run (Unit {0})) → Type 0
Answered n rc w q s xs v m callback =
    (u : World) × (m ≡ ok (value (array (item (num rc) no_items))) u)
    × Delivered (suc w.brk) n (lasting n) q s xs v (callback u)

module _ {h : Handle} {reqid : Arg} {n : ℤ} {async_v : Arg} {w : World} {s : Queue} {xs : Nodes}
    (t : Accepted h reqid n async_v w s xs) (client : Client) (ruby : Interpreter) (fns : Functions)
    (p : Ptr) (len : ℕ) (rc rc' : ℤ) where
  -- An asynchronous `get` is answered. On an open handle, with a request number that fits and memory
  -- and room for the reply: if the client takes the call and leaves memory alone, the method returns
  -- its result, and when the client then calls `zkrb_data_callback` with the context it was given,
  -- the queue gets an event that Ruby sees with the same request number and the reply's data and Stat.
  pub get-Answered :
      ((u : World)
        → zkrb_call_zoo_aget client ruby h.zh p (pos 0) fns.data_fn (suc w.brk) u ≡ ok rc u)
      → (b : Option Bytes) (m : ℤ) (o : Option Stat) → Readable b m
      → Answered n rc w h.queue s xs
          (reply n rc' (
            field "data"
              (or_nil str (cut b m))
              (field "stat" (or_nil zkrb_stat_to_rarray o) no_fields)))
          (method_get client ruby fns h reqid (string p len) async_v qfalse w)
          (zkrb_data_callback rc' b m o (suc w.brk))
  get-Answered c b m o r =
      let q = get-Requested t client ruby fns p len rc (c _) in
      (q.world, q.run, data_callback-Delivered q.ready rc' b m o r)

  -- An asynchronous `get_children` is answered. On an open handle, with a request number that fits
  -- and memory and room for the reply: if the client takes the call and leaves memory alone, the
  -- method returns its result, and when the client then calls `zkrb_strings_stat_callback` with
  -- the context it was given, the queue gets an event that Ruby sees with the same request number,
  -- the names in order and the Stat. The client's vectors are allocated as documented.
  pub get_children-Answered :
      (jute : Jute)
      → IsJute jute
      → ((u : World)
          → zkrb_call_zoo_aget_children2 client ruby h.zh p
              (pos 0)
              fns.strings_stat_fn
              (suc w.brk)
              u
            ≡ ok rc u)
      → (l : Option (List Bytes)) (o : Option Stat)
      → Answered n rc w h.queue s xs
          (reply n rc' (
            field "strings"
              (or_nil strings_value l)
              (field "stat" (or_nil zkrb_stat_to_rarray o) no_fields)))
          (method_get_children client ruby fns h reqid (string p len) async_v qfalse w)
          (zkrb_strings_stat_callback jute rc' l o (suc w.brk))
  get_children-Answered jute lawful c l o =
      let q = get_children-Requested t client ruby fns p len rc (c _) in
      (q.world, q.run, strings_stat_callback-Delivered jute lawful q.ready rc' l o)

  -- An asynchronous `create` of a node with data and no ACLs is answered. On an open handle, with
  -- a request number that fits and memory and room for the reply, and flags that fit an `int`: if
  -- the client takes the call, which passes the data's address and its length as an `int`, and
  -- leaves memory alone, the method returns its result, and when the client then calls
  -- `zkrb_string_callback` with the context it was given, the queue gets an event that Ruby sees
  -- with the same request number and the path of the node.
  pub create-Answered :
      (jute : Jute) (b : Ptr) (size : ℕ) (flags : ℤ)
      → fits 31 flags ≡ true
      → ((u : World)
          → zkrb_call_zoo_acreate client ruby h.zh p b
              (to_int size)
              null
              flags
              fns.string_fn
              (suc w.brk)
              u
            ≡ ok rc u)
      → (o : Option Bytes)
      → Answered n rc w h.queue s xs
          (reply n rc' (field "string" (or_nil str o) no_fields))
          (method_create jute client ruby fns h reqid
            (string p len)
            (string b size)
            async_v
            qnil
            (fixnum flags)
            w)
          (zkrb_string_callback rc' o (suc w.brk))
  create-Answered jute b size flags g c o =
      let q = create-Requested t client ruby fns p len rc jute b size flags g (c _) in
      (q.world, q.run, string_callback-Delivered q.ready rc' o)
