-- ===== src/Queue/Frame.antt =====
-- What a queue does not notice: changes to blocks that hold neither a queue nor a node.
use zookeeper_fork.Base.{◌∙◌, sym, ◌≡◌, true, some, none, arith, suc, Option}
use zookeeper_fork.Structs.{Ptr, EventLl, Queue, Cell, event_ll, queue, as_event_ll, as_queue}
use zookeeper_fork.Memory.{World, Fresh, Fresh-apart, write_cell}
use zookeeper_fork.Queue.Chain.{Nodes, has, IsQueue, Chain-node, Chain-frame}

-- `v` has the queues and the nodes of `w`.
pub record Keeps (w v : World) : Type 0 where
  pub nodes : (a : Ptr) (n : EventLl) → w.cell a ≡ some (event_ll n) → v.cell a ≡ some (event_ll n)
  pub queues : (a : Ptr) (s : Queue) → w.cell a ≡ some (queue s) → v.cell a ≡ some (queue s)

pub Keeps-trans : {w v u : World} → Keeps w v → Keeps v u → Keeps w u
Keeps-trans k l = record {
  nodes = λ a n e. l.nodes a n (k.nodes a n e);
  queues = λ a s e. l.queues a s (k.queues a s e);
}

pub IsQueue-frame :
    {w v : World} {q : Ptr} {s : Queue} {xs : Nodes}
    → IsQueue w q s xs
    → Keeps w v
    → IsQueue v q s xs
IsQueue-frame {w} {v} {q} {s} {xs} is k = record {
  here = record { ne_null = is.here.ne_null; there = k.queues q s is.here.there };
  first = is.first;
  chain = Chain-frame w v s.tail xs is.chain same;
  last = record { ne_null = is.last.ne_null; there = k.nodes s.tail _ is.last.there };
}
  where
    same : (a : Ptr) → has a xs ≡ true → v.cell a ≡ w.cell a
    same a i = let (n, e, ne) = Chain-node w s.tail a xs is.chain i in k.nodes a n e ∙ sym e

-- The world after the allocation of a block with the content `c`.
abbrev pub allocated : World → Cell → World
allocated w c = record (write_cell w (suc w.brk) (some c)) { brk = suc w.brk }

pub Keeps-allocated : (w : World) (c : Cell) → Fresh w → Keeps w (allocated w c)
Keeps-allocated w c f = record {
  nodes = λ a n e. ground (arith, Fresh-apart w a (event_ll n) f e);
  queues = λ a s e. ground (arith, Fresh-apart w a (queue s) f e);
}

-- A write to a block that is neither a queue nor a node, or the release of one.
abbrev pub IsPlain : Cell → Type 0
IsPlain c = (as_event_ll c ≡ none) × (as_queue c ≡ none)

pub Keeps-write :
    (w : World) (p : Ptr) (c : Cell) (d : Option Cell)
    → w.cell p ≡ some c
    → IsPlain c
    → Keeps w (write_cell w p d)
Keeps-write w p c d e plain = record {
  nodes = λ a n at. ground arith;
  queues = λ a s at. ground arith;
}

pub Fresh-allocated : (w : World) (c : Cell) → Fresh w → Fresh (allocated w c)
Fresh-allocated w c f a above = ground (arith, f a)

pub Fresh-write :
    (w : World) (p : Ptr) (c : Cell) (d : Option Cell)
    → w.cell p ≡ some c
    → Fresh w
    → Fresh (write_cell w p d)
Fresh-write w p c d e f a above = ground (arith, f a)
