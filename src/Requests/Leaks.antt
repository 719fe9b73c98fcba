-- ===== src/Requests/Leaks.antt =====
-- Blocks that a request leaves allocated with no pointer to them left.
use zookeeper_fork.Base.{ℕ, suc, ◌≡◌, refl, ap, ◌∙◌, Bool, true, false, none, List, ℤ, pos, arith}
use zookeeper_fork.Structs.{Ptr, null, Bytes, Stat, Queue, raw, stat, strings}
use zookeeper_fork.Memory.{World, Cmd, ok, pure, Holds, alloca, leave, load, load_as, write_cell}
use zookeeper_fork.Ruby.{num, array, item, no_items, rb_ary_push}
use zookeeper_fork.Translate.{Jute, zkrb_stat_to_rarray}
use zookeeper_fork.Translate.Show.{Strings, strings_value, zkrb_string_vector_to_ruby-map}
use zookeeper_fork.Event.{stat_value}
use zookeeper_fork.Queue.Chain.{Nodes}
use zookeeper_fork.Queue.Frame.{allocated}
use zookeeper_fork.Callbacks.Finish.{context}
use zookeeper_fork.Extension.{Handle, Answer, value, raised}
use zookeeper_fork.Wrapper.{Client}
use zookeeper_fork.Wrapper.Region.{Interpreter}
use zookeeper_fork.Wrapper.SyncLists.{zkrb_call_zoo_get_children2}
use zookeeper_fork.Requests.{
  Arg, qfalse, qnil, string, fixnum, bignum, acl_array, qtrue, other, Functions, sync, check_fixnum,
  zok,
}
use zookeeper_fork.Requests.Reads.{method_get_children, get_children_body, get_children_call}
use zookeeper_fork.Requests.Writes.{method_create, create_body}
use zookeeper_fork.Requests.Quiet.{Idle-Ready}
use zookeeper_fork.Requests.Replies.{Accepted, asks, begun}
use zookeeper_fork.Requests.Synced
use zookeeper_fork.Requests.Synced.{Direct}

abbrev pub is_fixnum : Arg → Bool
is_fixnum (fixnum n) = true
is_fixnum _ = false

check_fixnum-raises :
    (flags : Arg) (k : Cmd Answer) → is_fixnum flags ≡ false → check_fixnum flags k ≡ pure raised
check_fixnum-raises (fixnum n) k e = cc
check_fixnum-raises (bignum n) k e = refl
check_fixnum-raises qnil k e = refl
check_fixnum-raises qfalse k e = refl
check_fixnum-raises qtrue k e = refl
check_fixnum-raises (string p l) k e = refl
check_fixnum-raises (acl_array l) k e = refl
check_fixnum-raises other k e = refl

module _ {h : Handle} {reqid : Arg} {n : ℤ} {async_v : Arg} {w : World} {s : Queue} {xs : Nodes}
    (t : Accepted h reqid n async_v w s xs) where
  -- An asynchronous `create` on an open handle, with a request number that fits, a string for the
  -- data, memory and room in the queue, but flags that are no Fixnum, raises, whatever the client
  -- does, and the calling context that it has made by then stays allocated.
  pub create-leaks :
      (jute : Jute) (client : Client) (ruby : Interpreter) (fns : Functions) (p : Ptr) (len : ℕ)
      (b : Ptr) (size : ℕ) (acls flags : Arg)
      → is_fixnum flags ≡ false
      → (v : World) × (method_create jute client ruby fns h reqid
            (string p len)
            (string b size)
            async_v
            acls
            flags
            w
          ≡ ok raised v)
        × (w.cell (suc w.brk) ≡ none)
        × Holds v (suc w.brk) (context n h.queue)
  unfolding method_create create_body
  create-leaks jute client ruby fns p len b size acls flags e = (
    begun t,
    asks t p len (create_body jute client ruby fns h (string b size) acls flags)
        ∙ ap (λ (m : Cmd Answer). m (begun t)) (check_fixnum-raises flags _ e),
    t.idle.fresh (suc w.brk) (omega arith),
    (Idle-Ready n t.idle).context_at,
  )

-- What `zoo_get_children2` leaves: a vector at `vec` whose array is a block of its own, and a Stat.
pub record Listed (v : World) (vec st : Ptr) (bs : List Bytes) (s : Stat) : Type 0 where
  pub names : Strings v vec bs
  pub array_at : Holds v names.items (strings names.ptrs)
  pub stat_at : Holds v st (stat s)

-- The world when the vector and the Stat, which `w` has no blocks for yet, have gone.
abbrev pub left_over : World → World → World
left_over w v = write_cell (write_cell v (suc (suc w.brk)) none) (suc w.brk) none

module _ {h : Handle} {reqid async_v : Arg} {n : ℤ} {w : World} (t : Direct h reqid async_v n w)
    (client : Client) (ruby : Interpreter) (fns : Functions) (p : Ptr) (v : World) (bs : List Bytes)
    (s : Stat) where
  abbrev vec_at : Ptr
  vec_at = suc w.brk

  abbrev stat_at : Ptr
  stat_at = suc (suc w.brk)

  children-run :
      zkrb_call_zoo_get_children2 client ruby h.zh p
          (pos 0)
          vec_at
          stat_at
          (allocated (allocated w raw) raw)
        ≡ ok zok v
      → Listed v vec_at stat_at bs s
      → get_children_body client ruby fns h p null null sync w
        ≡ ok
            (value (
              array
                (item (num zok) (item (strings_value bs) (item (zkrb_stat_to_rarray s) no_items)))))
            (left_over w v)
  unfolding get_children_body get_children_call alloca leave rb_ary_push stat_value load load_as
  children-run c l =
      let g = l.stat_at in rw (c, zkrb_string_vector_to_ruby-map l.names) (ground arith)

  -- A synchronous `get_children` that the client answers returns the result 0, the names in order and the
  -- Stat, and leaves the array of the names, which the client allocated, behind: the vector that led
  -- to it was a local variable. The handle is open, the request a number, and memory does not run out.
  pub get_children-leaks :
      (len : ℕ)
      → zkrb_call_zoo_get_children2 client ruby h.zh p
          (pos 0)
          vec_at
          stat_at
          (allocated (allocated w raw) raw)
        ≡ ok zok v
      → (l : Listed v vec_at stat_at bs s)
      → (method_get_children client ruby fns h reqid (string p len) async_v qfalse w
          ≡ ok
              (value (
                array (
                  item
                    (num zok)
                    (item (strings_value bs) (item (zkrb_stat_to_rarray s) no_items)))))
              (left_over w v))
        × Holds (left_over w v) l.names.items (strings l.names.ptrs)
        × ((left_over w v).cell vec_at ≡ none)
  unfolding method_get_children
  get_children-leaks len c l =
      let a = l.array_at in
      let b = l.names.head in
      let d = l.stat_at in
      (
        Synced.asks t p len (get_children_body client ruby fns h) ∙ children-run c l,
        record { ne_null = a.ne_null; there = ground arith },
        ground arith,
      )
