-- ===== src/Callbacks/Arrival.antt =====
-- What a callback brings: an event with all its blocks, which are new, while the rest of memory stays.
use zookeeper_fork.Base.{
  ℕ, suc, ◌≡◌, refl, ◌∙◌, Bool, true, false, Option, some, none, [], ◌∷◌, ◌++◌, ℤ, arith, ◌==◌,
  if◌then◌else◌, List, Bool-cases, Option-cases, sym, inl, inr, ◌||◌,
}
use zookeeper_fork.Structs.{Ptr, null, Queue, Cell, EventType, as_event_ll, as_queue}
use zookeeper_fork.Memory
use zookeeper_fork.Memory.{World, Run, ok, Holds, Fresh, write_cell, store, ◌>>=◌, ◌>>◌}
use zookeeper_fork.Ruby.{Value}
use zookeeper_fork.Translate.{Jute}
use zookeeper_fork.Event.Show.{EventAt}
use zookeeper_fork.Translate.Frame.{KeepsData}
use zookeeper_fork.Event.Leak.{mem}
use zookeeper_fork.Event.Parcels.{Parcel, Each, Each-mem, Each-append}
use zookeeper_fork.Queue.{zkrb_enqueue}
use zookeeper_fork.Queue.Chain.{Nodes, IsQueue}
use zookeeper_fork.Queue.Fifo.{woken}
use zookeeper_fork.Callbacks.{finish}
use zookeeper_fork.Callbacks.Finish.{
  Ready, context, made, done, finish-run, queue-ok, spared, same_apart, event_at, context_after,
}
use zookeeper_fork.Callbacks.Clones.{Grown, IsNew}
use zookeeper_fork.Callbacks.Delivery.{
  lasting, filled-Ready, end-Holds, end-KeepsData, is_completion,
}

pub Grown-write :
    {w v : World}
    → Fresh w
    → Grown w v
    → (p : Ptr) (d : Option Cell) → IsNew w p
    → Grown w (write_cell v p d)
Grown-write {w} f g p d n = record {
  kept = λ a c e. let u = f p n in let k = g.kept a c e in ground arith;
  more = g.more;
  system = g.system;
}

-- The run `m` from `w` ends; its event stands last in the queue, reads as `v` and owns `boxes`. The
-- context is gone unless it is kept; of the other blocks only the queue and its nodes have changed.
pub record Arrived (jute : Jute) (ctx : Ptr) (req : ℤ) (keep : Bool) (q : Ptr) (s : Queue)
    (xs : Nodes) (v : Value) (w : World) (m : Run (Unit {0})) : Type 0 where
  pub world : World
  pub after : Queue
  pub elt : Ptr
  pub boxes : List Ptr
  pub run : m ≡ ok tt world
  pub is : IsQueue world q after (xs ++ (s.tail, elt) ∷ [])
  pub fresh : Fresh world
  pub memory : (n : ℕ) → world.oom n ≡ false
  pub system : world.os ≡ woken s.pipe_write w.os
  pub parcel : Parcel jute world elt v boxes
  pub unused : (a : Ptr) → mem a boxes ≡ true → (a == null) ≡ false → w.cell a ≡ none
  pub node_unused : w.cell after.tail ≡ none
  pub same_apart :
      (a : Ptr)
      → mem a boxes ≡ false
      → (a == q) ≡ false
      → (a == s.tail) ≡ false
      → (a == after.tail) ≡ false
      → (a == ctx) ≡ false
      → world.cell a ≡ w.cell a
  pub others :
      (a : Ptr) (d : Cell)
      → w.cell a ≡ some d
      → as_event_ll d ≡ none
      → as_queue d ≡ none
      → (a == ctx) ≡ false
      → world.cell a ≡ some d
  pub context_after : world.cell ctx ≡ (if keep then some (context req q) else none)

same :
    {w u : World}
    → Grown w u
    → (a : Ptr) → (w.cell a ≡ none → u.cell a ≡ none)
    → u.cell a ≡ w.cell a
same {w} {u} g a only = elim (Option-cases (w.cell a)) [
  | inl e ↦ only e ∙ sym e
  | inr (c, e) ↦ g.kept a c e ∙ sym e
]

differs : (ps : List Ptr) (a b : Ptr) → mem a ps ≡ false → mem b ps ≡ true → (a == b) ≡ false
differs [] a b m n = cc
differs (p ∷ ps) a b m n = elim (Bool-cases (b == p)) [
  | inl y ↦ ground arith
  | inr x ↦ differs ps a b (ground arith) (ground arith)
]

mem-append : (a : Ptr) (ps rs : List Ptr) → mem a (ps ++ rs) ≡ (mem a ps || mem a rs)
mem-append a [] rs = refl
mem-append a (p ∷ ps) rs = ground (arith, mem-append a ps rs)

module _ (jute : Jute) {w : World} (f : Fresh w) {u : World} (g : Grown w u) {ctx q : Ptr} {req : ℤ}
    {s : Queue} {xs : Nodes} where
  -- From the world `u` in which the event is to be made.
  pub arrived :
      (r : Ready u ctx req q s xs) (keep : Bool) (rc : Option ℤ) (type : EventType) (c : Ptr)
      (boxes : List Ptr) {v : Value} {m : Run (Unit {0})}
      → m ≡ zkrb_enqueue q (suc u.brk) (made u ctx req keep rc type c)
      → (EventAt (done r keep rc type c) (suc u.brk) req rc type c
          → Parcel jute (done r keep rc type c) (suc u.brk) v boxes)
      → Each (IsNew w) boxes
      → mem (suc u.brk) boxes ≡ true
      → ((a : Ptr) → mem a boxes ≡ false → w.cell a ≡ none → u.cell a ≡ none)
      → Arrived jute ctx req keep q s xs v w m
  arrived r keep rc type c boxes e parcel new its only =
      let (run, is, fresh) = queue-ok r keep rc type c in
      record {
        world = done r keep rc type c;
        after = record s { tail = suc (suc u.brk) };
        elt = suc u.brk;
        boxes = boxes;
        run = e ∙ run;
        is = is;
        fresh = fresh;
        memory = r.memory;
        system = let k = g.system in cc;
        parcel = parcel (record { ne_null = omega arith; there = event_at r keep rc type c });
        unused = λ a m n. f a (Each-mem (IsNew w) boxes new a m n);
        node_unused = f (suc (suc u.brk)) (let k = g.more in omega arith);
        same_apart = λ a m n1 n2 n3 n4.
            same_apart r keep rc type c a (let k = differs boxes a (suc u.brk) m its in k) n3 n1 n2
              n4
            ∙ same g a (only a m);
        others = λ a d h x y n. spared r keep rc type c a d (g.kept a d h) x y n;
        context_after = context_after r keep rc type c;
      }

-- The last steps of a callback that copies: the completion at `p`, blank so far, is filled.
module _ (jute : Jute) {w : World} (f : Fresh w) {u : World} (g : Grown w u) {ctx q : Ptr} {req : ℤ}
    {s : Queue} {xs : Nodes} (r : Ready u ctx req q s xs) {p : Ptr} {blank : Cell} (full : Cell)
    (h : Holds u p blank) (new : IsNew w p) (b : is_completion blank ≡ true)
    (c : is_completion full ≡ true) (inner : List Ptr)
    (only : (a : Ptr)
      → mem a inner ≡ false
      → (a == p) ≡ false
      → w.cell a ≡ none
      → u.cell a ≡ none) where
  pub filled-Arrived :
      (keep : Bool) (rc : Option ℤ) (type : EventType) {v : Value} {m : Run (Unit {0})}
      → m ≡ zkrb_enqueue q (suc u.brk) (made (write_cell u p (some full)) ctx req keep rc type p)
      → Each (IsNew w) inner
      → ((x : World) (e : Ptr)
          → EventAt x e req rc type p
          → Holds x p full
          → KeepsData u x
          → Parcel jute x e v (inner ++ p ∷ e ∷ []))
      → Arrived jute ctx req keep q s xs v w m
  filled-Arrived keep rc type e news parcel =
      arrived jute f (Grown-write f g p (some full) new)
        (filled-Ready r p blank full h b c keep rc type) keep rc type p
        (inner ++ p ∷ suc u.brk ∷ []) e
        (λ ev.
          parcel _ (suc u.brk) ev (end-Holds r p blank full h b c keep rc type)
            (end-KeepsData r p blank full h b c keep rc type))
        (Each-append (IsNew w) inner (p ∷ suc u.brk ∷ []) news
          ((λ n. new), ((λ n. let k = g.more in omega arith), tt)))
        (let k = mem-append (suc u.brk) inner (p ∷ suc u.brk ∷ []) in ground arith)
        λ a n e.
          let k = mem-append a inner (p ∷ suc u.brk ∷ []) in
          let o = only a (ground arith) (ground arith) e in ground arith

  pub completed-Arrived :
      (rc : ℤ) (type : EventType) {v : Value}
      → Each (IsNew w) inner
      → ((x : World) (e : Ptr)
          → EventAt x e req (some rc) type p
          → Holds x p full
          → KeepsData u x
          → Parcel jute x e v (inner ++ p ∷ e ∷ []))
      → Arrived jute ctx req (lasting req) q s xs v w ((do store p full; finish rc type p ctx) u)
  completed-Arrived rc type news parcel = rw (Memory.store-ok h full) (
      filled-Arrived (lasting req) (some rc) type
        (finish-run rc type p (filled-Ready r p blank full h b c (lasting req) (some rc) type)) news
        parcel)
