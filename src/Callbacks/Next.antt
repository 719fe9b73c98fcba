-- ===== src/Callbacks/Next.antt =====
-- A second context of the same queue while another callback runs: it stays ready for its own.
use zookeeper_fork.Base.{
  suc, ◌≡◌, refl, Bool, true, false, Option, some, none, [], ◌∷◌, ◌++◌, ℤ, arith, ◌==◌,
}
use zookeeper_fork.Structs.{
  EventLl, event_ll, Ptr, null, Stat, Queue, Cell, EventType, zkrb_stat, stat_completion, stat,
  queue,
}
use zookeeper_fork.Memory
use zookeeper_fork.Memory.{
  Run, write_cell, Fresh, World, ok, Holds, Fresh-apart, full, new, store, ◌>>=◌, ◌>>◌,
}
use zookeeper_fork.Queue.Chain.{Nodes}
use zookeeper_fork.Queue.Fifo.{woken}
use zookeeper_fork.Callbacks.{finish, clone_stat, zkrb_stat_callback}
use zookeeper_fork.Callbacks.Finish.{
  Ready, Ready-renewed, context, done, finish-run, queue-ok, renewed, new-ok,
}
use zookeeper_fork.Callbacks.Delivery.{lasting, filled-Ready, is_completion}

-- Room for one byte more, once another is in.
abbrev pub room_for_two : Queue → World → Bool
room_for_two s w = full s.pipe_write (woken s.pipe_write w.os)

-- A context that is not the one of the callback.
pub record Another (w : World) (ctx ctx2 : Ptr) (req2 : ℤ) (q : Ptr) : Type 0 where
  pub there : Holds w ctx2 (context req2 q)
  pub apart : (ctx2 == ctx) ≡ false

-- It is neither the queue nor a node, nor a new block.
not_queue :
    (w : World) {p q ctx : Ptr} {req : ℤ} {s : Queue}
    → w.cell p ≡ some (context req ctx)
    → w.cell q ≡ some (queue s)
    → (p == q) ≡ false
not_queue w e f = ground arith

not_node :
    (w : World) {p a ctx : Ptr} {req : ℤ} {n : EventLl}
    → w.cell p ≡ some (context req ctx)
    → w.cell a ≡ some (event_ll n)
    → (p == a) ≡ false
not_node w e f = ground arith

not_next :
    (w : World) {p : Ptr} {c : Cell} → Fresh w → w.cell p ≡ some c → (p == suc (suc w.brk)) ≡ false
not_next w f e = let g = f (suc (suc w.brk)) (omega arith) in ground arith

module _ {w : World} {ctx q ctx2 : Ptr} {req req2 : ℤ} {s : Queue} {xs : Nodes}
    (r : Ready w ctx req q s xs) (a : Another w ctx ctx2 req2 q)
    (more : room_for_two s w ≡ false) where
  stays :
      (keep : Bool) (rc : Option ℤ) (type : EventType) (c : Ptr)
      → (done r keep rc type c).cell ctx2 ≡ some (context req2 q)
  stays false rc type c =
      let e = a.there.there in
      rw
        (
          not_next w r.fresh e,
          not_queue w e r.is.here.there,
          not_node w e r.is.last.there,
          Fresh-apart w ctx2 (context req2 q) r.fresh e,
          a.apart,
        )
        e
  stays true rc type c =
      let e = a.there.there in
      rw
        (
          not_next w r.fresh e,
          not_queue w e r.is.here.there,
          not_node w e r.is.last.there,
          Fresh-apart w ctx2 (context req2 q) r.fresh e,
        )
        e

  pub done-Ready :
      (keep : Bool) (rc : Option ℤ) (type : EventType) (c : Ptr)
      → Ready
          (done r keep rc type c)
          ctx2
          req2
          q
          (record s { tail = suc (suc w.brk) })
          (xs ++ (s.tail, suc w.brk) ∷ [])
  done-Ready keep rc type c =
      let (run, is, fresh) = queue-ok r keep rc type c in
      record {
        context_at = record { ne_null = a.there.ne_null; there = stays keep rc type c };
        is = is;
        fresh = fresh;
        memory = r.memory;
        room = more;
      }

-- What a callback leaves for the other context: the queue with one event more.
pub record Ahead (ctx2 : Ptr) (req2 : ℤ) (q : Ptr) (s : Queue) (xs : Nodes) (m : Run (Unit {0}))
    : Type 0 where
  pub world : World
  pub run : m ≡ ok tt world
  pub elt : Ptr
  pub after : Queue
  pub ready : Ready world ctx2 req2 q after (xs ++ (s.tail, elt) ∷ [])

-- The last steps of a completion, from the blank structure at `p`.
module _ {w : World} {ctx q ctx2 : Ptr} {req req2 : ℤ} {s : Queue} {xs : Nodes}
    (r : Ready w ctx req q s xs) (a : Another w ctx ctx2 req2 q)
    (more : room_for_two s w ≡ false) where
  filled-Another :
      (p : Ptr) (blank full : Cell)
      → Holds w p blank
      → is_completion blank ≡ true
      → Another (write_cell w p (some full)) ctx ctx2 req2 q
  filled-Another p blank full at b = record {
    there = record {
      ne_null = a.there.ne_null;
      there = let e = a.there.there in let f = at.there in ground arith;
    };
    apart = a.apart;
  }

  pub completed-Ahead :
      (rc : ℤ) (type : EventType) (p : Ptr) (blank full : Cell)
      → Holds w p blank
      → is_completion blank ≡ true
      → is_completion full ≡ true
      → Ahead ctx2 req2 q s xs ((do store p full; finish rc type p ctx) w)
  completed-Ahead rc type p blank full at b f =
      let rd = filled-Ready r p blank full at b f (lasting req) (some rc) type in
      let keep = lasting req in
      record {
        world = done rd keep (some rc) type p;
        run =
            rw (Memory.store-ok at full, finish-run rc type p rd)
              (queue-ok rd keep (some rc) type p).0;
        elt = suc w.brk;
        after = record s { tail = suc (suc w.brk) };
        ready = done-Ready rd (filled-Another p blank full at b) more keep (some rc) type p;
      }

module _ {w : World} {ctx q ctx2 : Ptr} {req req2 : ℤ} {s : Queue} {xs : Nodes}
    (r : Ready w ctx req q s xs) (a : Another w ctx ctx2 req2 q)
    (more : room_for_two s w ≡ false) where
  Another-renewed : (c : Cell) → Another (renewed w c) ctx ctx2 req2 q
  Another-renewed c = record {
    there = record {
      ne_null = a.there.ne_null;
      there =
          let f = Fresh-apart w ctx2 (context req2 q) r.fresh a.there.there in
          let e = a.there.there in ground arith;
    };
    apart = a.apart;
  }

module _ {w : World} {ctx q ctx2 : Ptr} {req req2 : ℤ} {s : Queue} {xs : Nodes}
    (r : Ready w ctx req q s xs) (a : Another w ctx ctx2 req2 q) (more : room_for_two s w ≡ false)
    (rc : ℤ) where
  pub stat_callback-Ahead :
      (o : Option Stat) → Ahead ctx2 req2 q s xs (zkrb_stat_callback rc o ctx w)
  unfolding zkrb_stat_callback clone_stat
  stat_callback-Ahead none =
      let blank = stat_completion (record { stat = null }) in
      rw (new-ok w blank (r.memory w.brk)) (
        completed-Ahead (Ready-renewed r blank) (Another-renewed r a more blank) more rc zkrb_stat
          (suc w.brk) blank blank (record { ne_null = omega arith; there = ground arith }) refl
          refl)
  stat_callback-Ahead (some st) =
      let blank = stat_completion (record { stat = null }) in
      let v = renewed w blank in
      let b = Ready-renewed r blank in
      let o = Another-renewed r a more blank in
      rw (new-ok w blank (r.memory w.brk), new-ok v (stat st) (r.memory v.brk))
        (completed-Ahead (Ready-renewed b (stat st)) (Another-renewed b o more (stat st)) more rc
          zkrb_stat (suc w.brk) blank (stat_completion (record { stat = suc v.brk }))
          (record { ne_null = omega arith; there = ground arith }) refl refl)
