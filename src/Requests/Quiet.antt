-- ===== src/Requests/Quiet.antt =====
-- What a method leaves behind: a world with the same blocks, and a queue that a new context can use.
use zookeeper_fork.Base.{ℕ, suc, ◌≡◌, refl, sym, ◌∙◌, false, ℤ, arith, ◌≤◌}
use mathlib.Core.Path.{subst}
use zookeeper_fork.Structs.{Ptr, Queue, raw}
use zookeeper_fork.Memory.{World, Fresh, full}
use zookeeper_fork.Queue.Chain.{Nodes, IsQueue}
use zookeeper_fork.Queue.Frame.{
  IsQueue-frame, allocated, Keeps-allocated, Keeps-write, Keeps-trans, Fresh-allocated, Fresh-write,
}
use zookeeper_fork.Callbacks.Finish.{Ready, context, renewed}

-- The same blocks as in `w`, and the same system.
pub record Quiet (w v : World) : Type 0 where
  pub same : (a : Ptr) → v.cell a ≡ w.cell a
  pub more : w.brk ≤ v.brk
  pub memory : (n : ℕ) → v.oom n ≡ w.oom n
  pub system : v.os ≡ w.os

pub Quiet-refl : (w : World) → Quiet w w
Quiet-refl w = record { same = λ a. refl; more = omega arith; memory = λ n. refl; system = refl }

pub Quiet-Ready :
    {w v : World} {ctx q : Ptr} {req : ℤ} {s : Queue} {xs : Nodes}
    → Quiet w v
    → Ready w ctx req q s xs
    → Ready v ctx req q s xs
Quiet-Ready {v} {s} k r = record {
  context_at = record { ne_null = r.context_at.ne_null; there = k.same _ ∙ r.context_at.there };
  is =
      IsQueue-frame r.is (record { nodes = λ a n e. k.same a ∙ e; queues = λ a n e. k.same a ∙ e });
  fresh = λ a above. k.same a ∙ r.fresh a (let m = k.more in omega arith);
  memory = λ n. k.memory n ∙ r.memory n;
  room = subst (λ o. full s.pipe_write o ≡ false) (sym k.system) r.room;
}

-- A queue, memory, and room in the pipe.
pub record Idle (w : World) (q : Ptr) (s : Queue) (xs : Nodes) : Type 0 where
  pub is : IsQueue w q s xs
  pub fresh : Fresh w
  pub memory : (n : ℕ) → w.oom n ≡ false
  pub room : full s.pipe_write w.os ≡ false

-- A new context is ready for its callback.
pub Idle-Ready :
    {w : World} {q : Ptr} {s : Queue} {xs : Nodes} (n : ℤ)
    → Idle w q s xs
    → Ready (renewed w (context n q)) (suc w.brk) n q s xs
Idle-Ready {w} {q} n i = record {
  context_at = record { ne_null = omega arith; there = ground arith };
  is = IsQueue-frame i.is (
      Keeps-trans (Keeps-allocated w raw i.fresh)
        (Keeps-write (allocated w raw) (suc w.brk) raw _ (ground arith) (refl, refl)));
  fresh =
      Fresh-write (allocated w raw) (suc w.brk) raw _ (ground arith)
        (Fresh-allocated w raw i.fresh);
  memory = i.memory;
  room = i.room;
}
