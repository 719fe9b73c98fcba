-- ===== src/Queue/Fifo.antt =====
-- `zkrb_enqueue`, `zkrb_dequeue` and `zkrb_peek` against a list of events.
use zookeeper_fork.Base.{
  ◌∙◌, sym, suc, ℕ, ◌≡◌, ◌≢◌, refl, true, false, some, none, List, [], ◌∷◌, ◌++◌, arith, ◌==◌,
  if◌then◌else◌, Bool-cases, inl, inr,
}
use zookeeper_fork.Structs.{Ptr, null, Queue, queue, event_ll, raw}
use zookeeper_fork.Memory.{
  World, Kernel, reader, writer, ok, load, load_as, store, malloc, free, write, log_err, Fresh,
  write_cell, Fresh-apart, full, blocked,
}
use zookeeper_fork.Queue.{ll, zkrb_enqueue, zkrb_dequeue, zkrb_peek}
use zookeeper_fork.Queue.Chain.{
  Nodes, events, has, start, Chain, IsQueue, Chain-node, Chain-frame, Chain-snoc, start-append,
}

-- The pipe after the write of `zkrb_enqueue`, and the line that a failure logs.
abbrev pub woken : ℕ → Kernel → Kernel
woken fd os =
    let tried = record os { writes = suc os.writes } in
    let failed = record tried { logged = suc os.logged } in
    if os.write_fails os.writes then failed else elim (os.fds fd) [
      | none ↦ failed
      | some (reader n) ↦ failed
      | some (writer n) ↦ record tried {
        pending = λ m. if m == n then suc (os.pending n) else os.pending m;
      }
    ]

-- The world after `zkrb_enqueue`, write by write.
abbrev pub enqueued : World → Ptr → Queue → Ptr → World
enqueued w q s elt =
    let p = suc w.brk in
    let w = write_cell w s.tail (some (ll elt null)) in
    let w = write_cell w p (some raw) in
    let w = write_cell w s.tail (some (ll elt p)) in
    let w = write_cell w q (some (queue (record s { tail = p }))) in
    record (write_cell w p (some (ll null null))) { brk = p; os = woken s.pipe_write w.os }

module _ {w : World} {q : Ptr} {s : Queue} {xs : Nodes} (is : IsQueue w q s xs) where
  enqueue-run :
      (elt : Ptr)
      → w.oom w.brk ≡ false
      → Fresh w
      → full s.pipe_write w.os ≡ false
      → zkrb_enqueue q elt w ≡ ok tt (enqueued w q s elt)
  unfolding zkrb_enqueue load_as load store malloc write log_err
  enqueue-run elt o f room = ground arith

  apart : (a : Ptr) → has a xs ≡ true → (a == q) ≡ false × ((a == s.tail) ≡ false)
  apart a i = let (n, e, ne) = Chain-node w s.tail a xs is.chain i in ground arith

  unused : Fresh w → (a : Ptr) → has a xs ≡ true → (a == suc w.brk) ≡ false
  unused f a i =
      let (n, e, ne) = Chain-node w s.tail a xs is.chain i in Fresh-apart w a (event_ll n) f e

  enqueued-same :
      (elt : Ptr) → Fresh w → (a : Ptr) → has a xs ≡ true → (enqueued w q s elt).cell a ≡ w.cell a
  enqueued-same elt f a i = let (p, r) = apart a i in let u = unused f a i in ground arith

  tail-not-mem : has s.tail xs ≡ false
  tail-not-mem = elim (Bool-cases (has s.tail xs)) [
    | inl i ↦ let (p, r) = apart s.tail i in ground arith
    | inr o ↦ o
  ]

  enqueued-Chain :
      (elt : Ptr)
      → elt ≢ null
      → Fresh w
      → Chain (enqueued w q s elt) (xs ++ (s.tail, elt) ∷ []) (suc w.brk)
  enqueued-Chain elt ne f =
      Chain-snoc _ xs s.tail elt (suc w.brk)
        (Chain-frame w _ s.tail xs is.chain (enqueued-same elt f))
        (ground (arith, Fresh-apart w s.tail (ll null null) f)) ne tail-not-mem

  enqueued-IsQueue :
      (elt : Ptr)
      → elt ≢ null
      → Fresh w
      → IsQueue (enqueued w q s elt) q (record s { tail = suc w.brk }) (xs ++ (s.tail, elt) ∷ [])
  enqueued-IsQueue elt ne f = record {
    here = ground (arith, Fresh-apart w q (queue s) f);
    first = is.first ∙ sym (start-append xs s.tail elt (suc w.brk));
    chain = enqueued-Chain elt ne f;
    last = ground arith;
  }

  enqueued-Fresh : (elt : Ptr) → Fresh w → Fresh (enqueued w q s elt)
  enqueued-Fresh elt f a above = ground (arith, f a, f s.tail, f q)

  -- On a well-formed queue whose pipe is full, with memory for a node, `zkrb_enqueue` waits in its
  -- write.
  pub enqueue-blocked :
      (elt : Ptr)
      → Fresh w
      → w.oom w.brk ≡ false
      → full s.pipe_write w.os ≡ true
      → zkrb_enqueue q elt w ≡ blocked
  unfolding zkrb_enqueue load_as load store malloc write log_err
  enqueue-blocked elt f o no_room = ground arith

  -- On a well-formed queue, with memory for a node and a write that need not wait, `zkrb_enqueue` of an event
  -- that is not NULL ends. The event stands behind the others, in the node that was empty, the queue
  -- is well-formed, and the pipe has one byte more or a line is logged that the write failed.
  pub enqueue-snoc :
      (elt : Ptr)
      → elt ≢ null
      → Fresh w
      → w.oom w.brk ≡ false
      → full s.pipe_write w.os ≡ false
      → (zkrb_enqueue q elt w ≡ ok tt (enqueued w q s elt))
        × IsQueue (enqueued w q s elt) q (record s { tail = suc w.brk }) (xs ++ (s.tail, elt) ∷ [])
        × Fresh (enqueued w q s elt)
  enqueue-snoc elt ne f o room =
      (enqueue-run elt o f room, enqueued-IsQueue elt ne f, enqueued-Fresh elt f)

-- The world after `zkrb_dequeue` of the node at `a` before the node at `n`.
abbrev pub dequeued : World → Ptr → Queue → Ptr → Ptr → World
dequeued w q s a n = write_cell (write_cell w q (some (queue (record s { head = n })))) a none

module _ {w : World} {q : Ptr} {s : Queue} where
  -- `zkrb_dequeue` of an empty queue returns NULL and changes nothing.
  pub dequeue-nil : IsQueue w q s [] → zkrb_dequeue q w ≡ ok null w
  unfolding zkrb_dequeue load_as load
  dequeue-nil is = ground arith

  dequeue-run :
      {a e : Ptr} {xs : Nodes}
      → IsQueue w q s ((a, e) ∷ xs)
      → zkrb_dequeue q w ≡ ok e (dequeued w q s a (start xs s.tail))
  unfolding zkrb_dequeue load_as load store free
  dequeue-run is = ground arith

  dequeued-IsQueue :
      {a e : Ptr} {xs : Nodes}
      → IsQueue w q s ((a, e) ∷ xs)
      → IsQueue (dequeued w q s a (start xs s.tail)) q (record s { head = start xs s.tail }) xs
  dequeued-IsQueue {a} {e} {xs} is = record {
    here = ground arith;
    first = refl;
    chain = Chain-frame w _ s.tail xs is.chain.3 same;
    last = ground arith;
  }
    where
      same : (b : Ptr) → has b xs ≡ true → (dequeued w q s a (start xs s.tail)).cell b ≡ w.cell b
      same b i = let (p, r) = apart is b (ground arith) in let out = is.chain.2 in ground arith

  pub dequeued-Fresh :
      {a e : Ptr} {xs : Nodes}
      → IsQueue w q s ((a, e) ∷ xs)
      → Fresh w
      → Fresh (dequeued w q s a (start xs s.tail))
  dequeued-Fresh is f b above = ground (arith, f b, f q)

  -- `zkrb_dequeue` of a well-formed queue that is not empty returns the first event, frees the node
  -- that carried it, and leaves a well-formed queue of the others in order.
  pub dequeue-cons :
      {a e : Ptr} {xs : Nodes}
      → IsQueue w q s ((a, e) ∷ xs)
      → (zkrb_dequeue q w ≡ ok e (dequeued w q s a (start xs s.tail)))
        × IsQueue (dequeued w q s a (start xs s.tail)) q (record s { head = start xs s.tail }) xs
  dequeue-cons is = (dequeue-run is, dequeued-IsQueue is)

abbrev pub first_or_null : List Ptr → Ptr
first_or_null [] = null
first_or_null (e ∷ es) = e

-- `zkrb_peek` of a well-formed queue returns the first event, or NULL if there is none, and changes
-- nothing.
pub peek-first :
    {w : World} {q : Ptr} {s : Queue} (xs : Nodes)
    → IsQueue w q s xs
    → zkrb_peek q w ≡ ok (first_or_null (events xs)) w
unfolding zkrb_peek load_as load
peek-first [] is = ground arith
peek-first ((a, e) ∷ xs) is = ground arith
