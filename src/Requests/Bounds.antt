-- ===== src/Requests/Bounds.antt =====
-- The length of the data that a request passes on: a `size_t` cast to an `int`.
use zookeeper_fork.Base.{
  ℕ, suc, ◌≡◌, refl, ap, ◌∙◌, Bool, true, Option, some, none, ℤ, pos, negsuc, ltb, arith, ◌^◌,
}
use zookeeper_fork.Structs.{Ptr, null, Stat, Queue, raw}
use zookeeper_fork.Memory.{World, Cmd, ok, pure, ◌>>=◌, ◌>>◌, alloca, leave}
use zookeeper_fork.Ruby.{rb_ary_push, num, array, item, no_items, field, no_fields}
use zookeeper_fork.Translate.{zkrb_stat_to_rarray}
use zookeeper_fork.Translate.Show.{or_nil}
use zookeeper_fork.Event.Show.{reply}
use zookeeper_fork.Queue.Chain.{Nodes}
use zookeeper_fork.Queue.Frame.{allocated}
use zookeeper_fork.Callbacks.{zkrb_stat_callback}
use zookeeper_fork.Callbacks.Replies.{stat_callback-Delivered}
use zookeeper_fork.Event.{stat_value}
use zookeeper_fork.Extension.{Handle, Answer, value}
use zookeeper_fork.Wrapper.{Client}
use zookeeper_fork.Wrapper.Region.{Interpreter}
use zookeeper_fork.Wrapper.AsyncNodes.{zkrb_call_zoo_aset}
use zookeeper_fork.Requests.{
  answer_with, Arg, qnil, qfalse, qtrue, fixnum, bignum, string, acl_array, other, Functions, async,
  fits, to_int, with_data,
}
use zookeeper_fork.Requests.Writes.{set_call, set_body, method_set}
use zookeeper_fork.Requests.Replies.{
  Accepted, Requested, only_rc, asks, begun, requested, begun-Fresh,
}
use zookeeper_fork.Requests.Locals.{after_local, after_local-Quiet}
use zookeeper_fork.Requests.Answered.{Answered}

-- The address and the length that the client documents: a string's, or NULL and -1 for no data.
abbrev pub documented : Arg → Option (Ptr × ℤ)
documented qnil = some (null, negsuc 0)
documented (string p n) = some (p, pos n)
documented _ = none

-- Below 2 GiB.
abbrev pub is_short : Arg → Bool
is_short (string p n) = ltb n (2 ^ 31)
is_short _ = true

pub to_int-pos : (n : ℕ) → ltb n (2 ^ 31) ≡ true → to_int n ≡ pos n
to_int-pos n e = ground arith

-- The cast gives the documented length.
pub with_data-exact :
    (d : Arg) {b : Ptr} {z : ℤ} (send : Ptr → ℤ → Cmd Answer)
    → documented d ≡ some (b, z)
    → is_short d ≡ true
    → with_data d (λ p n. send p (to_int n)) ≡ send b z
with_data-exact qnil send e f = ground (arith, e)
with_data-exact (string p n) send e f = rw (to_int-pos n f) (ground (arith, e))
with_data-exact qfalse send e f = cc
with_data-exact qtrue send e f = cc
with_data-exact (fixnum n) send e f = cc
with_data-exact (bignum n) send e f = cc
with_data-exact (acl_array l) send e f = cc
with_data-exact other send e f = cc

module _ {h : Handle} {reqid : Arg} {n : ℤ} {async_v : Arg} {w : World} {s : Queue} {xs : Nodes}
    (t : Accepted h reqid n async_v w s xs) (client : Client) (ruby : Interpreter) (fns : Functions)
    (p : Ptr) (len : ℕ) (rc : ℤ) where
  set-run :
      (d : Arg) {b : Ptr} {z : ℤ} (v : ℤ)
      → documented d ≡ some (b, z)
      → is_short d ≡ true
      → fits 31 v ≡ true
      → (zkrb_call_zoo_aset client ruby h.zh p b z v fns.stat_fn
            (suc w.brk)
            (allocated (begun t) raw)
          ≡ ok rc (allocated (begun t) raw))
      → set_body client ruby fns h d (fixnum v) p (suc w.brk) null async (begun t)
        ≡ ok (value (array (item (num rc) no_items))) (after_local (begun t))
  unfolding set_body set_call alloca leave rb_ary_push
  set-run d {b} {z} v e f g c =
      let more = λ (r : ℤ).
        answer_with async r
          λ output. (do x ← stat_value (suc (begun t).brk); pure (rb_ary_push output x)) in
      let send = λ (q : Ptr) (l : ℤ).
        zkrb_call_zoo_aset client ruby h.zh p q l v fns.stat_fn (suc w.brk) >>= more in
      let finish = λ (m : Cmd Answer).
        (m >>= λ a. leave (suc (begun t).brk) >> pure a) (allocated (begun t) raw) in
      rw g (ap finish (with_data-exact d send e f) ∙ rw c refl)

  pub set-Requested :
      (d : Arg) {b : Ptr} {z : ℤ} (v : ℤ)
      → documented d ≡ some (b, z)
      → is_short d ≡ true
      → fits 31 v ≡ true
      → (zkrb_call_zoo_aset client ruby h.zh p b z v fns.stat_fn
            (suc w.brk)
            (allocated (begun t) raw)
          ≡ ok rc (allocated (begun t) raw))
      → Requested n
          (only_rc rc)
          w
          h.queue
          s
          xs
          (method_set client ruby fns h reqid (string p len) d async_v (fixnum v) w)
  unfolding method_set
  set-Requested d v e f g c =
      requested t (asks t p len (set_body client ruby fns h d (fixnum v)) ∙ set-run d v e f g c)
        (after_local-Quiet (begun t) (begun-Fresh t))

  -- An asynchronous `set` is answered, and hands on exactly the data's address and length, or NULL and -1
  -- for nil. On an open handle, with a request number that fits and memory and room for the
  -- reply, for data of less than 2^31 bytes and a version that fits an `int`: if the client takes
  -- that call and leaves memory alone, the method returns its result, and when the client calls
  -- `zkrb_stat_callback` with the context it was given, Ruby sees the reply's Stat.
  pub set-Answered :
      (d : Arg) {b : Ptr} {z : ℤ} (v : ℤ)
      → documented d ≡ some (b, z)
      → is_short d ≡ true
      → fits 31 v ≡ true
      → ((u : World)
          → zkrb_call_zoo_aset client ruby h.zh p b z v fns.stat_fn (suc w.brk) u ≡ ok rc u)
      → (rc' : ℤ) (o : Option Stat)
      → Answered n rc w h.queue s xs
          (reply n rc' (field "stat" (or_nil zkrb_stat_to_rarray o) no_fields))
          (method_set client ruby fns h reqid (string p len) d async_v (fixnum v) w)
          (zkrb_stat_callback rc' o (suc w.brk))
  set-Answered d v e f g c rc' o =
      let q = set-Requested d v e f g (c _) in
      (q.world, q.run, stat_callback-Delivered q.ready rc' o)
