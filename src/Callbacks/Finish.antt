-- ===== src/Callbacks/Finish.antt =====
-- What the completions share: the event is made, the context is done with, the event is queued.
use zookeeper_fork.Base.{
  ℕ, suc, ◌≡◌, refl, Bool, false, Option, some, none, [], ◌∷◌, ◌++◌, ℤ, eqb_ℤ, arith, if◌then◌else◌,
  ◌==◌,
}
use zookeeper_fork.Structs.{
  Ptr, Queue, Cell, EventType, raw, event, calling_context, queue, zkrb_global_req, as_event_ll,
  as_queue, as_calling_context,
}
use zookeeper_fork.Memory.{
  World, ok, load, load_as, store, malloc, free, new, free, Holds, Fresh, Fresh-apart, full,
  write_cell,
}
use zookeeper_fork.Queue.{zkrb_enqueue}
use zookeeper_fork.Queue.Chain.{Nodes, IsQueue}
use zookeeper_fork.Queue.Fifo.{enqueued, enqueue-snoc}
use zookeeper_fork.Queue.Frame.{
  Keeps, Keeps-trans, Keeps-allocated, Keeps-write, IsQueue-frame, Fresh-allocated, Fresh-write,
  allocated,
}
use zookeeper_fork.Event.{zkrb_event_alloc}
use zookeeper_fork.Callbacks.{finish, setup_event}

abbrev pub context : ℤ → Ptr → Cell
context req q = calling_context (record { req_id = req; queue = q })

-- What a callback finds: its context, a queue, memory, and room in the pipe.
pub record Ready (w : World) (ctx : Ptr) (req : ℤ) (q : Ptr) (s : Queue) (xs : Nodes) : Type 0 where
  pub context_at : Holds w ctx (context req q)
  pub is : IsQueue w q s xs
  pub fresh : Fresh w
  pub memory : (n : ℕ) → w.oom n ≡ false
  pub room : full s.pipe_write w.os ≡ false

-- The world without the context `ctx`, unless it is kept.
abbrev pub released : World → Ptr → Bool → World
released w ctx keep = record w { cell = if keep then w.cell else (write_cell w ctx none).cell }

abbrev pub made : World → Ptr → ℤ → Bool → Option ℤ → EventType → Ptr → World
made w ctx req keep rc type c =
    write_cell (released (allocated w raw) ctx keep) (suc w.brk)
      (some (event (record { req_id = req; rc = rc; type = type; completion = c })))

pub finish-run :
    {w : World} {ctx q : Ptr} {req : ℤ} {s : Queue} {xs : Nodes} (rc : ℤ) (type : EventType)
    (c : Ptr)
    → Ready w ctx req q s xs
    → finish rc type c ctx w
      ≡ zkrb_enqueue q (suc w.brk) (made w ctx req (eqb_ℤ req zkrb_global_req) (some rc) type c)
unfolding finish load_as load store malloc free zkrb_event_alloc setup_event
finish-run {w} {ctx} {q} {req} rc type c r =
    let f = Fresh-apart w ctx (context req q) r.fresh r.context_at.there in
    ground (arith, r.memory w.brk)

Keeps-released :
    (w : World) (ctx q : Ptr) (req : ℤ) (keep : Bool)
    → w.cell ctx ≡ some (context req q)
    → Keeps w (released w ctx keep)
Keeps-released w ctx q req keep e = record {
  nodes = λ a n h. ground arith;
  queues = λ a n h. ground arith;
}

module _ {w : World} {ctx q : Ptr} {req : ℤ} {s : Queue} {xs : Nodes}
    (r : Ready w ctx req q s xs) where
  -- The world after a callback whose completion stands at `c`.
  abbrev pub done : Bool → Option ℤ → EventType → Ptr → World
  done keep rc type c = enqueued (made w ctx req keep rc type c) q s (suc w.brk)

  there : (allocated w raw).cell ctx ≡ some (context req q)
  there =
      let f = Fresh-apart w ctx (context req q) r.fresh r.context_at.there in
      let e = r.context_at.there in ground arith

  at_event : (keep : Bool) → (released (allocated w raw) ctx keep).cell (suc w.brk) ≡ some raw
  at_event keep =
      let f = Fresh-apart w ctx (context req q) r.fresh r.context_at.there in ground arith

  made-Keeps :
      (keep : Bool) (rc : Option ℤ) (type : EventType) (c : Ptr)
      → Keeps w (made w ctx req keep rc type c)
  made-Keeps keep rc type c =
      Keeps-trans
        (Keeps-trans (Keeps-allocated w raw r.fresh)
          (Keeps-released (allocated w raw) ctx q req keep there))
        (Keeps-write _ (suc w.brk) raw _ (at_event keep) (refl, refl))

  made-Fresh :
      (keep : Bool) (rc : Option ℤ) (type : EventType) (c : Ptr)
      → Fresh (made w ctx req keep rc type c)
  made-Fresh keep rc type c a above = let f = r.fresh a (omega arith) in ground arith

  pub queue-ok :
      (keep : Bool) (rc : Option ℤ) (type : EventType) (c : Ptr)
      → (zkrb_enqueue q (suc w.brk) (made w ctx req keep rc type c) ≡ ok tt (done keep rc type c))
        × IsQueue
            (done keep rc type c)
            q
            (record s { tail = suc (suc w.brk) })
            (xs ++ (s.tail, suc w.brk) ∷ [])
        × Fresh (done keep rc type c)
  queue-ok keep rc type c =
      let is = IsQueue-frame r.is (made-Keeps keep rc type c) in
      let (run, q', f') =
        enqueue-snoc is (suc w.brk) (omega arith) (made-Fresh keep rc type c) (r.memory (suc w.brk))
          r.room in
      (run, q', f')

  -- All other blocks but nodes and queues stay.
  pub spared :
      (keep : Bool) (rc : Option ℤ) (type : EventType) (c a : Ptr) (d : Cell)
      → w.cell a ≡ some d
      → as_event_ll d ≡ none
      → as_queue d ≡ none
      → (a == ctx) ≡ false
      → (done keep rc type c).cell a ≡ some d
  spared keep rc type c a d e p1 p2 ne =
      let f = Fresh-apart w a d r.fresh e in
      let g = r.fresh (suc (suc w.brk)) (omega arith) in
      let y = r.is.here.there in let z = r.is.last.there in ground arith

  -- What has no part in the callback is as it was.
  pub same_apart :
      (keep : Bool) (rc : Option ℤ) (type : EventType) (c a : Ptr)
      → (a == suc w.brk) ≡ false
      → (a == suc (suc w.brk)) ≡ false
      → (a == q) ≡ false
      → (a == s.tail) ≡ false
      → (a == ctx) ≡ false
      → (done keep rc type c).cell a ≡ w.cell a
  same_apart keep rc type c a n1 n2 n3 n4 n5 = ground arith

  pub survives :
      (keep : Bool) (rc : Option ℤ) (type : EventType) (c a : Ptr) (d : Cell)
      → w.cell a ≡ some d
      → as_event_ll d ≡ none
      → as_queue d ≡ none
      → as_calling_context d ≡ none
      → (done keep rc type c).cell a ≡ some d
  survives keep rc type c a d e p1 p2 p3 =
      spared keep rc type c a d e p1 p2 (let x = r.context_at.there in ground arith)

  pub event_at :
      (keep : Bool) (rc : Option ℤ) (type : EventType) (c : Ptr)
      → (done keep rc type c).cell (suc w.brk)
        ≡ some (event (record { req_id = req; rc = rc; type = type; completion = c }))
  event_at keep rc type c =
      let f = Fresh-apart w q (queue s) r.fresh r.is.here.there in
      let g = Fresh-apart w s.tail _ r.fresh r.is.last.there in ground arith

  pub context_after :
      (keep : Bool) (rc : Option ℤ) (type : EventType) (c : Ptr)
      → (done keep rc type c).cell ctx ≡ (if keep then some (context req q) else none)
  context_after keep rc type c =
      let f = Fresh-apart w ctx (context req q) r.fresh r.context_at.there in
      let g = r.fresh (suc (suc w.brk)) (omega arith) in
      let x = r.context_at.there in
      let y = r.is.here.there in let z = r.is.last.there in ground arith

-- The world after `new`, write by write.
abbrev pub renewed : World → Cell → World
renewed w c = write_cell (allocated w raw) (suc w.brk) (some c)

pub new-ok : (w : World) (c : Cell) → w.oom w.brk ≡ false → new c w ≡ ok (suc w.brk) (renewed w c)
unfolding new malloc store
new-ok w c o = ground arith

module _ {w : World} {ctx q : Ptr} {req : ℤ} {s : Queue} {xs : Nodes}
    (r : Ready w ctx req q s xs) where
  pub Ready-allocated : (c : Cell) → Ready (allocated w c) ctx req q s xs
  Ready-allocated c = record {
    context_at =
        let f = Fresh-apart w ctx (context req q) r.fresh r.context_at.there in
        let x = r.context_at in ground arith;
    is = IsQueue-frame r.is (Keeps-allocated w c r.fresh);
    fresh = Fresh-allocated w c r.fresh;
    memory = r.memory;
    room = r.room;
  }

  pub Ready-write :
      (p : Ptr) (c d : Cell)
      → w.cell p ≡ some c
      → as_event_ll c ≡ none
      → as_queue c ≡ none
      → as_calling_context c ≡ none
      → Ready (write_cell w p (some d)) ctx req q s xs
  Ready-write p c d e p1 p2 p3 = record {
    context_at = let x = r.context_at in ground arith;
    is = IsQueue-frame r.is (Keeps-write w p c (some d) e (p1, p2));
    fresh = Fresh-write w p c (some d) e r.fresh;
    memory = r.memory;
    room = r.room;
  }

module _ {w : World} {ctx q : Ptr} {req : ℤ} {s : Queue} {xs : Nodes}
    (r : Ready w ctx req q s xs) where
  pub Ready-renewed : (c : Cell) → Ready (renewed w c) ctx req q s xs
  Ready-renewed c =
      Ready-write (Ready-allocated r raw) (suc w.brk) raw c (ground arith) refl refl refl
