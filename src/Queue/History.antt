-- ===== src/Queue/History.antt =====
-- A history of calls on one queue against the same calls on a list: first in, first out.
use zookeeper_fork.Base.{
  ◌≡◌, ◌≢◌, refl, length, ◌+◌, ◌≤◌, suc, false, ℕ, List, [], ◌∷◌, ◌++◌, arith, ap,
}
use zookeeper_fork.Structs.{Ptr, null, Queue}
use zookeeper_fork.Memory.{Kernel, full, World, Cmd, ok, pure, ◌>>=◌, ◌>>◌, Fresh}
use zookeeper_fork.Queue.{zkrb_enqueue, zkrb_dequeue}
use zookeeper_fork.Queue.Chain.{Nodes, events, IsQueue}
use zookeeper_fork.Queue.Fifo.{
  woken, enqueued, enqueue-snoc, dequeue-nil, dequeue-cons, dequeued-Fresh,
}

pub data Call : Type 0 where
  enqueue : Ptr → Call
  dequeue : Call

-- The calls in turn, and what the calls of `zkrb_dequeue` return.
pub serve : Ptr → List Call → Cmd (List Ptr)
serve q [] = pure []
serve q (enqueue e ∷ cs) = zkrb_enqueue q e >> serve q cs
serve q (dequeue ∷ cs) = do e ← zkrb_dequeue q; es ← serve q cs; pure (e ∷ es)

-- The same on a list of events: what is returned, and what is left.
abbrev pub returned : List Ptr → List Call → List Ptr
returned es [] = []
returned es (enqueue e ∷ cs) = returned (es ++ e ∷ []) cs
returned [] (dequeue ∷ cs) = null ∷ returned [] cs
returned (e ∷ es) (dequeue ∷ cs) = e ∷ returned es cs

abbrev pub left : List Ptr → List Call → List Ptr
left es [] = es
left es (enqueue e ∷ cs) = left (es ++ e ∷ []) cs
left [] (dequeue ∷ cs) = left [] cs
left (e ∷ es) (dequeue ∷ cs) = left es cs

abbrev pub NoNull : List Call → Type 0
NoNull [] = Unit {0}
NoNull (enqueue e ∷ cs) = (e ≢ null) × NoNull cs
NoNull (dequeue ∷ cs) = NoNull cs

-- `serve` ends, with these results, and leaves a queue of these events.
pub record Served (q : Ptr) (es : List Ptr) (cs : List Call) (w : World) : Type 0 where
  pub world : World
  pub queue : Queue
  pub nodes : Nodes
  pub run : serve q cs w ≡ ok (returned es cs) world
  pub is : IsQueue world q queue nodes
  pub rest : events nodes ≡ left es cs

events-snoc : (xs : Nodes) (a e : Ptr) → events (xs ++ (a, e) ∷ []) ≡ events xs ++ e ∷ []
events-snoc [] a e = refl
events-snoc (x ∷ xs) a e = ap (◌∷◌ x.1) (events-snoc xs a e)

-- Room for the bytes of `n` calls more, in every pipe.
abbrev pub Room : ℕ → Kernel → Type 0
Room n os = (m : ℕ) → os.pending m + n ≤ os.capacity

pub Room-full : (n fd : ℕ) (os : Kernel) → Room (suc n) os → full fd os ≡ false
Room-full n fd os r = grind arith

pub Room-woken : (n fd : ℕ) (os : Kernel) → Room (suc n) os → Room n (woken fd os)
Room-woken n fd os r m = ground (arith, r m)

-- Any calls of `zkrb_enqueue` and `zkrb_dequeue` in turn on a well-formed queue end, and return what the same calls on a
-- list return: the events in the order they were put in, each once, and NULL when there is none. What
-- is left is a well-formed queue of the events left in the list. It is a condition that memory never
-- runs out, that each pipe has room for a byte per call, and that no event is NULL.
pub serve_refines :
    (q : Ptr) (cs : List Call) (w : World) (s : Queue) (xs : Nodes)
    → IsQueue w q s xs
    → Fresh w
    → ((n : ℕ) → w.oom n ≡ false)
    → Room (length cs) w.os
    → NoNull cs
    → Served q (events xs) cs w
unfolding serve
serve_refines q [] w s xs is f o r n = record {
  world = w;
  queue = s;
  nodes = xs;
  run = refl;
  is = is;
  rest = refl;
}
serve_refines q (enqueue e ∷ cs) w s xs is f o r n =
    let (run, is', f') =
      enqueue-snoc is e n.0 f (o w.brk) (Room-full (length cs) s.pipe_write w.os r) in
    let next =
      serve_refines q cs (enqueued w q s e) (record s { tail = suc w.brk }) (xs ++ (s.tail, e) ∷ [])
        is' f' o (Room-woken (length cs) s.pipe_write w.os r) n.1 in
    record {
      world = next.world;
      queue = next.queue;
      nodes = next.nodes;
      run = rw run (rw (← events-snoc xs s.tail e) next.run);
      is = next.is;
      rest = rw (← events-snoc xs s.tail e) next.rest;
    }
serve_refines q (dequeue ∷ cs) w s [] is f o r n =
    let next = serve_refines q cs w s [] is f o (λ m. omega (arith, r m)) n in
    record {
      world = next.world;
      queue = next.queue;
      nodes = next.nodes;
      run = rw (dequeue-nil is, next.run);
      is = next.is;
      rest = next.rest;
    }
serve_refines q (dequeue ∷ cs) w s ((a, e) ∷ xs) is f o r n =
    let (run, is') = dequeue-cons is in
    let next = serve_refines q cs _ _ xs is' (dequeued-Fresh is f) o (λ m. omega (arith, r m)) n in
    record {
      world = next.world;
      queue = next.queue;
      nodes = next.nodes;
      run = rw (run, next.run);
      is = next.is;
      rest = next.rest;
    }
