-- ===== src/System/Growing.antt =====
-- A context more, and what a method leaves: the state holds on.
use zookeeper_fork.Base.{
  ℕ, suc, ◌∙◌, sym, [], ◌∷◌, ◌++◌, ℤ, arith, List, ◌==◌, Bool-cases, inl, inr, Option,
}
use mathlib.Core.Path.{subst}
use zookeeper_fork.Structs
use zookeeper_fork.Structs.{Ptr, null}
use zookeeper_fork.Memory.{World, Fresh-apart}
use zookeeper_fork.Translate.{Jute}
use zookeeper_fork.Queue.Frame.{IsQueue-frame}
use zookeeper_fork.Queue.History.{Room}
use zookeeper_fork.Callbacks.Finish.{context, renewed}
use zookeeper_fork.Requests.Quiet.{Quiet, Idle-Ready}
use zookeeper_fork.System.{Pending}
use zookeeper_fork.System.Letters.{Letter, Post-kept, Leaves-Spares}
use zookeeper_fork.System.Contexts.{Contexts-kept, Contexts-snoc, none-holds, holds-append}
use zookeeper_fork.System.State.{Sys, free_rest, Sys-Idle}

module _ {jute : Jute} {rest : Ptr → Option Structs.Cell} {q : Ptr} {w : World} {ps : Pending}
    {ls : List Letter} {k : ℕ} where
  -- One more context.
  pub Sys-renewed :
      Sys jute rest q w ps ls (suc k)
      → (n : ℤ) → Sys jute rest q (renewed w (context n q)) (ps ++ (suc w.brk, n) ∷ []) ls (suc k)
  Sys-renewed s n =
      let r = Idle-Ready n (Sys-Idle s) in
      let u = renewed w (context n q) in
      record {
        queue = s.queue;
        nodes = s.nodes;
        is = r.is;
        fresh = r.fresh;
        memory = r.memory;
        contexts =
            Contexts-snoc u q ps (suc w.brk) n
              (Contexts-kept w q u ps
                (λ a m h e. let f = Fresh-apart w a (context m q) s.fresh e in ground arith)
                s.contexts)
              r.context_at
              (none-holds w q ps (suc w.brk) s.contexts (s.fresh (suc w.brk) (omega arith)));
        post =
            Post-kept jute s.nodes ls
              (Leaves-Spares jute s.nodes
                (record { at = λ a c e x y z. let f = Fresh-apart w a c s.fresh e in ground arith })
                s.post)
              s.post;
        room = s.room;
        account = record {
          inside = λ a y v. elim (Bool-cases (a == suc w.brk)) [
            | inl x ↦
                free_rest s.account a y (let f = s.fresh (suc w.brk) (omega arith) in ground arith)
            | inr x ↦ s.account.inside a y (let h = holds-append a (suc w.brk) n ps in ground arith)
          ];
          outside = λ a y v.
              let h = holds-append a (suc w.brk) n ps in
              let c = s.account.outside a y (ground arith) in ground arith;
        };
      }

  pub Sys-Quiet :
      {u : World} → Quiet w u → Sys jute rest q w ps ls (suc k) → Sys jute rest q u ps ls (suc k)
  Sys-Quiet {u} c s = record {
    queue = s.queue;
    nodes = s.nodes;
    is =
        IsQueue-frame s.is
          (record { nodes = λ a n e. c.same a ∙ e; queues = λ a n e. c.same a ∙ e });
    fresh = λ a above. c.same a ∙ s.fresh a (let m = c.more in omega arith);
    memory = λ n. c.memory n ∙ s.memory n;
    contexts = Contexts-kept w q u ps (λ a m h e. c.same a ∙ e) s.contexts;
    post = Post-kept jute s.nodes ls (record { at = λ a o n. c.same a }) s.post;
    room = subst (Room (suc k)) (sym c.system) s.room;
    account =
        let b = s.account in
        record { inside = b.inside; outside = λ a y v. c.same a ∙ b.outside a y v };
  }
