-- ===== src/Queue/Drain.antt =====
-- `zkrb_queue_free`: its loop ends, and what is given back.
use zookeeper_fork.Base.{
  ℕ, zero, suc, ◌≡◌, ◌≢◌, refl, ap, ◌∙◌, false, some, none, [], ◌∷◌, arith, ◌==◌, if◌then◌else◌,
  ◌<◌, length,
}
use mathlib.Core.Path.{subst}
use zookeeper_fork.Structs.{Ptr, null, Queue, queue, as_queue}
use zookeeper_fork.Memory.{
  World, Run, ok, ◌>>=◌, ◌>>◌, and_then, write_cell, load_as, free, close, not_null,
}
use zookeeper_fork.Translate.{Jute}
use zookeeper_fork.Translate.Show.{load_as-ok}
use zookeeper_fork.Event.{zkrb_event_free}
use zookeeper_fork.Queue.{drain_loop, zkrb_queue_free}
use zookeeper_fork.Queue.Chain.{Nodes, IsQueue, start}
use zookeeper_fork.Queue.Fifo.{dequeued, dequeue-nil, dequeue-cons}

-- Each event can be freed in turn, once it is taken out, and that leaves the rest of the queue alone;
-- `v` is the world after the last.
abbrev pub Freed : Jute → Ptr → World → Queue → Nodes → World → Type 0
Freed jute q w s [] v = w ≡ v
Freed jute q w s ((a, e) ∷ xs) v =
    (u : World) × (zkrb_event_free jute e (dequeued w q s a (start xs s.tail)) ≡ ok tt u)
    × IsQueue u q (record s { head = start xs s.tail }) xs
    × Freed jute q u (record s { head = start xs s.tail }) xs v

event_not_null : {e : Ptr} → e ≢ null → (e == null) ≡ false
event_not_null ne = ground arith

-- The queue that is left: no event, and the empty node.
abbrev pub emptied : Queue → Queue
emptied s = record s { head = s.tail }

-- The world once the empty node, the descriptors and the queue are given back as well.
abbrev pub gone : Ptr → Queue → World → World
gone q s v =
    write_cell
      (record (write_cell v s.tail none) {
        os = record v.os {
          fds = λ d.
              if d == s.pipe_write then none else if d == s.pipe_read then none else v.os.fds d;
        };
      })
      q none

module _ (jute : Jute) (q : Ptr) where
  pub drained-IsQueue :
      (w : World) (s : Queue) (xs : Nodes) (v : World)
      → IsQueue w q s xs
      → Freed jute q w s xs v
      → IsQueue v q (emptied s) []
  drained-IsQueue w s [] v is f =
      subst (λ u. IsQueue u q (emptied s) []) f
        (record {
          here = record {
            ne_null = is.here.ne_null;
            there = is.here.there ∙ ap (λ x. some (queue (record s { head = x }))) is.first;
          };
          first = refl;
          chain = tt;
          last = is.last;
        })
  drained-IsQueue w s ((a, e) ∷ xs) v is (u, run, is', f) =
      drained-IsQueue u (record s { head = start xs s.tail }) xs v is' f

  drain_loop-ends :
      (fuel : ℕ) (w : World) (s : Queue) (xs : Nodes) (v : World)
      → IsQueue w q s xs
      → Freed jute q w s xs v
      → length xs < fuel
      → drain_loop jute fuel q w ≡ ok tt v
  unfolding drain_loop
  drain_loop-ends zero w s xs v is f enough = absurd (omega arith)
  drain_loop-ends (suc fuel) w s [] v is f enough = rw (dequeue-nil is) (ap (ok tt) f)
  drain_loop-ends (suc fuel) w s ((a, e) ∷ xs) v is (u, run, is', f) enough =
      rw ((dequeue-cons is).0, event_not_null is.chain.1, run)
        (drain_loop-ends fuel u (record s { head = start xs s.tail }) xs v is' f (omega arith))

  -- What comes after the loop.
  abbrev rest : World → Run (Unit {0})
  rest = do s ← load_as as_queue q; free s.head; close s.pipe_read; close s.pipe_write; free q

  queue_free-loop :
      (fuel : ℕ) (w : World)
      → (q == null) ≡ false
      → zkrb_queue_free jute fuel q w ≡ and_then (drain_loop jute fuel q w) (λ _. rest)
  unfolding zkrb_queue_free
  queue_free-loop fuel w n = rw n refl

  last_steps : (s : Queue) (v : World) → IsQueue v q (emptied s) [] → rest v ≡ ok tt (gone q s v)
  unfolding free close
  last_steps s v is = rw (load_as-ok as_queue is.here refl) (
      let h = is.here.there in
      let n = is.here.ne_null in let l = is.last.there in let m = is.last.ne_null in ground arith)

  -- `zkrb_queue_free` of a well-formed queue whose events can be freed one after the other ends, with
  -- any fuel above their number: each event is taken out and freed, and then the empty node, the two
  -- descriptors and the queue are given back.
  pub queue_free-released :
      (fuel : ℕ) (w : World) (s : Queue) (xs : Nodes) (v : World)
      → IsQueue w q s xs
      → Freed jute q w s xs v
      → length xs < fuel
      → zkrb_queue_free jute fuel q w ≡ ok tt (gone q s v)
  queue_free-released fuel w s xs v is f enough =
      queue_free-loop fuel w (not_null is.here)
      ∙ ap (λ r. and_then r (λ _. rest)) (drain_loop-ends fuel w s xs v is f enough)
      ∙ last_steps s v (drained-IsQueue w s xs v is f)
