-- ===== src/Callbacks/Delivery.antt =====
-- What each callback delivers: with memory and room in the pipe it ends, and puts behind the other
-- events one that `zkrb_event_to_ruby` turns into a hash of exactly what the client handed over.
use zookeeper_fork.Base.{
  suc, ◌≡◌, refl, ◌∙◌, Bool, true, false, Option, some, none, [], ◌∷◌, ◌++◌, ℤ, eqb_ℤ, arith,
  if◌then◌else◌,
}
use zookeeper_fork.Structs.{
  Ptr, null, Queue, Cell, EventType, zkrb_void, zkrb_global_req, data_completion, stat_completion,
  string_completion, strings_completion, strings_stat_completion, acl_completion,
  watcher_completion, as_event_ll, as_queue, as_calling_context, bytes, stat, vector, strings, acls,
}
use zookeeper_fork.Memory
use zookeeper_fork.Memory.{store, ◌>>=◌, ◌>>◌, World, Run, ok, Holds, Fresh, write_cell, new}
use zookeeper_fork.Ruby.{Value, no_fields}
use zookeeper_fork.Translate.Frame.{KeepsData}
use zookeeper_fork.Event.{zkrb_event_to_ruby}
use zookeeper_fork.Event.Show.{EventAt, reply, void-shows}
use zookeeper_fork.Queue.Chain.{Nodes, IsQueue}
use zookeeper_fork.Callbacks.{finish, zkrb_void_callback}
use zookeeper_fork.Queue.{zkrb_enqueue}
use zookeeper_fork.Callbacks.Finish.{
  made, Ready, Ready-write, queue-ok, finish-run, survives, event_at, context_after, done, context,
}
use zookeeper_fork.Callbacks.Copies.{Extends}

-- The context of the session's requests is kept.
abbrev pub lasting : ℤ → Bool
lasting req = eqb_ℤ req zkrb_global_req

-- The run `r` ends; its event stands last in the queue and reads as `v`, and the context is gone
-- unless it is kept.
pub record Delivered (ctx : Ptr) (req : ℤ) (keep : Bool) (q : Ptr) (s : Queue) (xs : Nodes)
    (v : Value) (r : Run (Unit {0})) : Type 0 where
  pub world : World
  pub after : Queue
  pub elt : Ptr
  pub run : r ≡ ok tt world
  pub is : IsQueue world q after (xs ++ (s.tail, elt) ∷ [])
  pub fresh : Fresh world
  pub shown : zkrb_event_to_ruby elt world ≡ ok v world
  pub context_after : world.cell ctx ≡ (if keep then some (context req q) else none)

module _ {w : World} {ctx q : Ptr} {req : ℤ} {s : Queue} {xs : Nodes}
    (r : Ready w ctx req q s xs) where
  queued :
      (keep : Bool) (rc : Option ℤ) (type : EventType) (c : Ptr) {v : Value} {m : Run (Unit {0})}
      → m ≡ zkrb_enqueue q (suc w.brk) (made w ctx req keep rc type c)
      → zkrb_event_to_ruby (suc w.brk) (done r keep rc type c) ≡ ok v (done r keep rc type c)
      → Delivered ctx req keep q s xs v m
  queued keep rc type c e shown =
      let (run, is, fresh) = queue-ok r keep rc type c in
      record {
        world = done r keep rc type c;
        after = record s { tail = suc (suc w.brk) };
        elt = suc w.brk;
        run = e ∙ run;
        is = is;
        fresh = fresh;
        shown = shown;
        context_after = context_after r keep rc type c;
      }

  event_made :
      (keep : Bool) (rc : Option ℤ) (type : EventType) (c : Ptr)
      → EventAt (done r keep rc type c) (suc w.brk) req rc type c
  event_made keep rc type c = record { ne_null = omega arith; there = event_at r keep rc type c }

  -- If the context and its queue are well-formed, memory does not run out and the pipe has room,
  -- `zkrb_void_callback` delivers an event that Ruby sees with the context's request and the return code.
  pub void_callback-Delivered :
      (rc : ℤ)
      → Delivered ctx req
          (lasting req)
          q
          s
          xs
          (reply req rc no_fields)
          (zkrb_void_callback rc ctx w)
  unfolding zkrb_void_callback
  void_callback-Delivered rc =
      queued (lasting req) (some rc) zkrb_void null (finish-run rc zkrb_void null r)
        (void-shows (event_made (lasting req) (some rc) zkrb_void null))

abbrev pub is_completion : Cell → Bool
is_completion (data_completion c) = true
is_completion (stat_completion c) = true
is_completion (string_completion c) = true
is_completion (strings_completion c) = true
is_completion (strings_stat_completion c) = true
is_completion (acl_completion c) = true
is_completion (watcher_completion c) = true
is_completion _ = false

-- A completion is none of the other structures.
record IsOther (c : Cell) : Type 0 where
  not_ll : as_event_ll c ≡ none
  not_queue : as_queue c ≡ none
  not_context : as_calling_context c ≡ none

IsOther-completion : (c : Cell) → is_completion c ≡ true → IsOther c
IsOther-completion c h = record {
  not_ll = ground arith;
  not_queue = ground arith;
  not_context = ground arith;
}

-- The last steps of a callback: the completion at `p`, blank so far, is filled, and the event made.
module _ {w : World} {ctx q : Ptr} {req : ℤ} {s : Queue} {xs : Nodes} (r : Ready w ctx req q s xs)
    (p : Ptr) (blank full : Cell) (at : Holds w p blank) (b : is_completion blank ≡ true)
    (f : is_completion full ≡ true) (keep : Bool) (rc : Option ℤ) (type : EventType) where
  abbrev pub filled : World
  filled = write_cell w p (some full)

  pub filled-Ready : Ready filled ctx req q s xs
  filled-Ready =
      let o = IsOther-completion blank b in
      Ready-write r p blank full at.there o.not_ll o.not_queue o.not_context

  abbrev pub end : World
  end = done filled-Ready keep rc type p

  pub end-Holds : Holds end p full
  end-Holds =
      let o = IsOther-completion full f in
      record {
        ne_null = at.ne_null;
        there =
            survives filled-Ready keep rc type p p full (ground arith) o.not_ll o.not_queue
              o.not_context;
      }

  pub end-KeepsData : KeepsData w end
  end-KeepsData = record {
    byte = λ a d e.
        survives filled-Ready keep rc type p a (bytes d) (other a (bytes d) refl e) refl refl refl;
    stats = λ a d e.
        survives filled-Ready keep rc type p a (stat d) (other a (stat d) refl e) refl refl refl;
    vectors = λ a d e.
        survives filled-Ready keep rc type p a (vector d) (other a (vector d) refl e) refl refl
          refl;
    arrays = λ a d e.
        survives filled-Ready keep rc type p a (strings d) (other a (strings d) refl e) refl refl
          refl;
    acl_arrays = λ a d e.
        survives filled-Ready keep rc type p a (acls d) (other a (acls d) refl e) refl refl refl;
  }
    where
      other :
          (a : Ptr) (d : Cell)
          → is_completion d ≡ false
          → w.cell a ≡ some d
          → filled.cell a ≡ some d
      other a d n e = let g = at.there in ground arith

  pub filled-Delivered :
      {v : Value} {m : Run (Unit {0})}
      → m ≡ zkrb_enqueue q (suc w.brk) (made filled ctx req keep rc type p)
      → ((u : World) (e : Ptr)
          → EventAt u e req rc type p
          → Holds u p full
          → KeepsData w u
          → zkrb_event_to_ruby e u ≡ ok v u)
      → Delivered ctx req keep q s xs v m
  filled-Delivered e shows =
      queued filled-Ready keep rc type p e
        (shows end (suc w.brk) (event_made filled-Ready keep rc type p) end-Holds end-KeepsData)

pub Holds-kept : {w v : World} (p : Ptr) (c : Cell) → Extends w v → Holds w p c → Holds v p c
Holds-kept p c k h = record { ne_null = h.ne_null; there = k p c h.there }

module _ {w : World} {ctx q : Ptr} {req : ℤ} {s : Queue} {xs : Nodes} (r : Ready w ctx req q s xs)
    (rc : ℤ) (type : EventType) where
  -- The last steps of a completion, on the blank structure at `p`.
  pub completed :
      {p : Ptr} {blank : Cell} (full : Cell) {v : Value}
      → Holds w p blank
      → is_completion blank ≡ true
      → is_completion full ≡ true
      → ((u : World) (e : Ptr)
          → EventAt u e req (some rc) type p
          → Holds u p full
          → KeepsData w u
          → zkrb_event_to_ruby e u ≡ ok v u)
      → Delivered ctx req (lasting req) q s xs v ((do store p full; finish rc type p ctx) w)
  completed {p} {blank} full h b f shows = rw (Memory.store-ok h full) (
      filled-Delivered r p blank full h b f (lasting req) (some rc) type
        (finish-run rc type p (filled-Ready r p blank full h b f (lasting req) (some rc) type))
        shows)
