-- ===== src/Requests/Served.antt =====
-- A request from its method to the listener that returns its reply: nothing is left over.
use zookeeper_fork.Base.{ℕ, suc, ◌≡◌, refl, true, false, none, List, [], ◌∷◌, ℤ, arith, ◌==◌, eqb_ℤ}
use zookeeper_fork.Structs.{Ptr, Queue, zkrb_global_req}
use zookeeper_fork.Memory.{World, ok}
use zookeeper_fork.Ruby.{num, no_fields}
use zookeeper_fork.Translate.{Jute}
use zookeeper_fork.Event.Show.{reply}
use zookeeper_fork.Event.Release.{dropped}
use zookeeper_fork.Queue.Chain.{IsQueue}
use zookeeper_fork.Callbacks.Finish.{Ready}
use zookeeper_fork.Extension.{value, Act, method_get_next_event}
use zookeeper_fork.Extension.Listening.{opened_at}
use zookeeper_fork.Extension.Waking.{replies, Piped, taken_out, get_next_event-replies}
use zookeeper_fork.Wrapper.{Client}
use zookeeper_fork.Wrapper.Region.{Interpreter}
use zookeeper_fork.Wrapper.AsyncNodes.{zkrb_call_zoo_adelete}
use zookeeper_fork.Requests.{Arg, fixnum, string, Functions, fits}
use zookeeper_fork.Requests.Writes.{method_delete}
use zookeeper_fork.Requests.Quiet.{Idle-Ready}
use zookeeper_fork.Requests.Replies.{Accepted, begun}
use zookeeper_fork.Requests.Asked.{delete-run}

-- The queue is empty again, its empty node another, and all other blocks are those of `w`.
pub record Restored (w : World) (q : Ptr) (s : Queue) (v : World) : Type 0 where
  pub after : Queue
  pub is : IsQueue v q after []
  pub old_node : v.cell s.tail ≡ none
  pub same :
      (a : Ptr)
      → (a == q) ≡ false
      → (a == s.tail) ≡ false
      → (a == after.tail) ≡ false
      → v.cell a ≡ w.cell a

module _ {z q : Ptr} {reqid : Arg} {n : ℤ} {async_v : Arg} {w : World} {s : Queue}
    (t : Accepted (opened_at z q false) reqid n async_v w s []) where
  begun-Ready : Ready (begun t) (suc w.brk) n q s []
  begun-Ready = Idle-Ready n t.idle

  -- When the listener has returned.
  abbrev finished : ℤ → ℕ → World
  finished rc k = dropped (taken_out begun-Ready rc k) (suc (suc w.brk))

  finished-Restored :
      (rc : ℤ) (k : ℕ) → eqb_ℤ n zkrb_global_req ≡ false → Restored w q s (finished rc k)
  unfolding dropped
  finished-Restored rc k e =
      let i = t.idle.is.here in
      let l = t.idle.is.last in
      let f = t.idle.fresh in
      record {
        after = record s { head = suc (suc (suc w.brk)); tail = suc (suc (suc w.brk)) };
        is = record {
          here = record {
            ne_null = i.ne_null;
            there = ground (
              arith,
              e,
              f (suc w.brk),
              f (suc (suc w.brk)),
              f (suc (suc (suc w.brk))),
              i.there,
              l.there,
              i.ne_null,
            );
          };
          first = refl;
          chain = tt;
          last = record {
            ne_null = omega arith;
            there = ground (
              arith,
              e,
              f (suc w.brk),
              f (suc (suc w.brk)),
              f (suc (suc (suc w.brk))),
              i.there,
              l.there,
              i.ne_null,
            );
          };
        };
        old_node = ground (
          arith,
          e,
          f (suc w.brk),
          f (suc (suc w.brk)),
          f (suc (suc (suc w.brk))),
          i.there,
          l.there,
          i.ne_null,
        );
        same = λ a x y u.
            ground (arith, e, f (suc w.brk), f (suc (suc w.brk)), i.there, l.there, i.ne_null);
      }

  module _ (jute : Jute) (client : Client) (ruby : Interpreter) (fns : Functions) (p : Ptr)
      (len : ℕ) (rc rc' : ℤ) where
    -- An asynchronous `delete` from the method to the listener. On an open handle with an empty queue,
    -- a request number that fits, and memory and an open pipe with room for the reply, for a version
    -- that fits an `int`: if the client takes the call and leaves memory alone, the method returns its
    -- result. When the listener then waits, and the client calls `zkrb_void_callback` with the context
    -- it was given, the listener returns the reply's hash with the request number, and the context,
    -- the event and the used node are freed: the queue is empty again, and all other memory is as it
    -- was. The number is not that of the session.
    pub delete-Served :
        (v : ℤ) {k : ℕ} (others : List Act)
        → fits 31 v ≡ true
        → eqb_ℤ n zkrb_global_req ≡ false
        → Piped w s k
        → ((u : World)
            → zkrb_call_zoo_adelete client ruby z p v fns.void_fn (suc w.brk) u ≡ ok rc u)
        → (u x : World) × (method_delete client ruby fns
              (opened_at z q false)
              reqid
              (string p len)
              (fixnum v)
              async_v
              w
            ≡ ok (value (num rc)) u)
          × (method_get_next_event jute
                (replies rc' (suc w.brk) ∷ others)
                (opened_at z q false)
                true
                u
              ≡ ok (value (reply n rc' no_fields)) x)
          × Restored w q s x
    delete-Served v {k} others e not_global piped c = (
      begun t,
      finished rc' k,
      delete-run t client ruby fns p len rc v e (c _),
      get_next_event-replies begun-Ready rc' k jute others t.zh_open (record {
        read_end = piped.read_end;
        write_end = piped.write_end;
        writes = piped.writes;
      }),
      finished-Restored rc' k not_global,
    )
