-- ===== src/System/Reading.antt =====
-- The calls of the listener: the first letter is read and all its blocks are given back.
use zookeeper_fork.Base.{
  ℕ, suc, ◌≡◌, ◌≢◌, refl, sym, false, not, List, [], ◌∷◌, arith, ◌==◌, ◌<◌, Option,
}
use mathlib.Core.Path.{subst}
use zookeeper_fork.Structs
use zookeeper_fork.Queue.Fifo
use zookeeper_fork.Queue.Chain
use zookeeper_fork.Structs.{Ptr, null, calling_context, as_event_ll, as_queue, Cell}
use zookeeper_fork.Memory.{World, Kernel, ok, Fresh}
use zookeeper_fork.Translate.{Jute}
use zookeeper_fork.Event.Parcels.{without-Shrunk}
use zookeeper_fork.Queue.Chain.{Nodes, start, IsQueue}
use zookeeper_fork.Queue.Frame.{IsQueue-frame}
use zookeeper_fork.Queue.Fifo.{dequeued, dequeue-cons, dequeued-Fresh, peek-first}
use zookeeper_fork.Queue.Signal.{signalled, signal-run}
use zookeeper_fork.Queue.History.{Room, Room-full}
use zookeeper_fork.Extension.{
  value, truth, nothing, method_get_next_event, method_has_events, method_wake_event_loop_bang,
}
use zookeeper_fork.Extension.Listening.{opened_at, null-no, get_next_event-nil, get_next_event-cons}
use zookeeper_fork.System.{Pending}
use zookeeper_fork.System.Mailbox.{is_some}
use zookeeper_fork.System.Letters.{Letter, values, Post, Post-kept}
use zookeeper_fork.System.Contexts.{Contexts, Contexts-kept}
use zookeeper_fork.System.Taking.{
  out, freed, out-Post, freed-IsQueue, freed-Post, freed-Contexts, freed-Account, freed-run,
}
use zookeeper_fork.System.State.{Sys, Account}

-- What a call that takes a letter leaves.
pub record Taken (jute : Jute) (rest : Ptr → Option Structs.Cell) (z q : Ptr) (w : World)
    (ps : Pending) (n : ℕ) (l : Letter) (ls : List Letter) : Type 0 where
  pub world : World
  pub run : method_get_next_event jute [] (opened_at z q false) false w ≡ ok (value l.shows) world
  pub sys : Sys jute rest q world ps ls n

module _ {jute : Jute} {q : Ptr} {w : World} {l : Letter} {ls : List Letter} {s : Structs.Queue}
    {a e : Ptr} {xs : Nodes} (is : IsQueue w q s ((a, e) ∷ xs))
    (p : Post jute w ((a, e) ∷ xs) (l ∷ ls)) where
  listen-first :
      (rest : Ptr → Option Structs.Cell) (z : Ptr) (ps : Pending) (n : ℕ)
      → z ≢ null
      → Fresh w
      → ((m : ℕ) → w.oom m ≡ false)
      → Contexts w q ps
      → Room n w.os
      → Account rest q s ((a, e) ∷ xs) ps (l ∷ ls) w
      → Taken jute rest z q w ps n l ls
  listen-first rest z ps n has_zh fresh memory contexts room account =
      let same = without-Shrunk (out is p) l.boxes in
      record {
        world = freed is p;
        run =
            get_next_event-cons jute z false [] false has_zh is
              ((out-Post is p).0.shown (out is p) (record { at = λ b m y. refl })) (freed-run is p);
        sys = record {
          queue = record s { head = start xs s.tail };
          nodes = xs;
          is = freed-IsQueue is p;
          fresh = λ b above.
              same.none_new b (dequeued-Fresh is fresh b (subst (λ k. k < b) same.brk above));
          memory = λ m. let o = same.oom in let k = memory m in cc;
          contexts = freed-Contexts is p ps contexts;
          post = freed-Post is p;
          room = subst (Room n) (sym same.os) room;
          account = freed-Account is p rest ps account;
        };
      }

module _ {jute : Jute} {rest : Ptr → Option Structs.Cell} {q : Ptr} {w : World} {ps : Pending}
    {n : ℕ} (z : Ptr) (has_zh : z ≢ null) where
  -- Without a letter there is nothing to return.
  pub listen-nil :
      Sys jute rest q w ps [] n
      → method_get_next_event jute [] (opened_at z q false) false w ≡ ok nothing w
  listen-nil s = empty s.nodes s.is s.post
    where
      empty :
          {s : Structs.Queue} (xs : Nodes)
          → IsQueue w q s xs
          → Post jute w xs []
          → method_get_next_event jute [] (opened_at z q false) false w ≡ ok nothing w
      empty [] is p = get_next_event-nil jute z false [] false has_zh is refl
      empty (x ∷ xs) is p = absurd p

  pub listen-cons :
      (l : Letter) (ls : List Letter)
      → Sys jute rest q w ps (l ∷ ls) n
      → Taken jute rest z q w ps n l ls
  listen-cons l ls s = first s.nodes s.is s.post s.account
    where
      first :
          {t : Structs.Queue} (xs : Nodes)
          → IsQueue w q t xs
          → Post jute w xs (l ∷ ls)
          → Account rest q t xs ps (l ∷ ls) w
          → Taken jute rest z q w ps n l ls
      first [] is p c = absurd p
      first ((a, e) ∷ xs) is p c =
          listen-first is p rest z ps n has_zh s.fresh s.memory s.contexts s.room c

  -- `has_events?`
  pub look-is_some :
      (ls : List Letter)
      → Sys jute rest q w ps ls n
      → method_has_events (opened_at z q false) w ≡ ok (truth (is_some (values ls))) w
  unfolding method_has_events
  look-is_some ls s = rw (null-no has_zh, peek-first s.nodes s.is) (seen ls s.nodes s.is s.post)
    where
      seen :
          (ls : List Letter) {t : Structs.Queue} (xs : Nodes)
          → IsQueue w q t xs
          → Post jute w xs ls
          → ok (truth (not (Fifo.first_or_null (Chain.events xs) == null))) w
            ≡ ok (truth (is_some (values ls))) w
      seen [] [] is p = refl
      seen [] (x ∷ xs) is p = absurd p
      seen (l ∷ ls) [] is p = absurd p
      seen (l ∷ ls) ((a, e) ∷ xs) is p = rw (null-no is.chain.1) refl

Room-signalled : (n fd : ℕ) (os : Kernel) → Room (suc n) os → Room n (signalled fd os)
Room-signalled n fd os r m = ground (arith, r m)

module _ {jute : Jute} {rest : Ptr → Option Structs.Cell} {q : Ptr} {w : World} {ps : Pending}
    {ls : List Letter} {n : ℕ} (s : Sys jute rest q w ps ls (suc n)) where
  abbrev pub woken_up : World
  woken_up = record w { os = signalled s.queue.pipe_write w.os }

  pub wake-run :
      (z : Ptr)
      → z ≢ null
      → method_wake_event_loop_bang (opened_at z q false) w ≡ ok nothing woken_up
  unfolding method_wake_event_loop_bang
  wake-run z has_zh =
      rw (null-no has_zh, signal-run s.is.here (Room-full n s.queue.pipe_write w.os s.room)) refl

  pub wake-Sys : Sys jute rest q woken_up ps ls n
  wake-Sys = record {
    queue = s.queue;
    nodes = s.nodes;
    is = IsQueue-frame s.is (record { nodes = λ a k e. e; queues = λ a k e. e });
    fresh = s.fresh;
    memory = s.memory;
    contexts = Contexts-kept w q woken_up ps (λ a m h e. e) s.contexts;
    post = Post-kept jute s.nodes ls (record { at = λ a o y. refl }) s.post;
    room = Room-signalled n s.queue.pipe_write w.os s.room;
    account = let c = s.account in record { inside = c.inside; outside = c.outside };
  }
