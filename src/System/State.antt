-- ===== src/System/State.antt =====
-- What holds between the acts: a queue of letters, the contexts that the client has, and room for what
-- is still to come.
use zookeeper_fork.Base.{
  ℕ, suc, ◌≡◌, false, true, some, none, List, ℤ, arith, ◌==◌, ◌||◌, Bool, Bool-cases, inl, inr, sym,
  ◌∙◌, Option,
}
use zookeeper_fork.Structs.{Ptr, null, Queue, Cell}
use zookeeper_fork.Memory.{World, Fresh}
use zookeeper_fork.Translate.{Jute}
use zookeeper_fork.Queue.Chain.{Nodes, has, IsQueue}
use zookeeper_fork.Queue.History.{Room, Room-full}
use zookeeper_fork.Callbacks.Finish.{Ready}
use zookeeper_fork.Requests.Quiet.{Idle}
use zookeeper_fork.System.{Pending}
use zookeeper_fork.System.Letters.{Letter, Post, owned}
use zookeeper_fork.System.Contexts.{Contexts, holds, Contexts-at}
use zookeeper_fork.Base.{get_elem?}

-- The blocks of the queue, of the pending contexts and of the letters.
abbrev pub used : Ptr → Queue → Nodes → Pending → List Letter → Ptr → Bool
used q s xs ps ls a = (a == q) || has a xs || (a == s.tail) || holds a ps || owned a ls

-- These are apart from the `rest` of memory, which the remainder of the program has.
pub record Account (rest : Ptr → Option Cell) (q : Ptr) (s : Queue) (xs : Nodes) (ps : Pending)
    (ls : List Letter) (w : World) : Type 0 where
  pub inside : (a : Ptr) → (a == null) ≡ false → used q s xs ps ls a ≡ true → rest a ≡ none
  pub outside : (a : Ptr) → (a == null) ≡ false → used q s xs ps ls a ≡ false → w.cell a ≡ rest a

-- What is free is not in the rest.
pub free_rest :
    {rest : Ptr → Option Cell} {q : Ptr} {s : Queue} {xs : Nodes} {ps : Pending} {ls : List Letter}
    {w : World} (c : Account rest q s xs ps ls w) (a : Ptr)
    → (a == null) ≡ false
    → w.cell a ≡ none
    → rest a ≡ none
free_rest {q} {s} {xs} {ps} {ls} c a n e = elim (Bool-cases (used q s xs ps ls a)) [
  | inl y ↦ c.inside a n y
  | inr y ↦ sym (c.outside a n y) ∙ e
]

-- `n` is the number of bytes that each pipe has room for.
pub record Sys (jute : Jute) (rest : Ptr → Option Cell) (q : Ptr) (w : World) (ps : Pending)
    (ls : List Letter) (n : ℕ) : Type 0 where
  pub queue : Queue
  pub nodes : Nodes
  pub is : IsQueue w q queue nodes
  pub fresh : Fresh w
  pub memory : (m : ℕ) → w.oom m ≡ false
  pub contexts : Contexts w q ps
  pub post : Post jute w nodes ls
  pub room : Room n w.os
  pub account : Account rest q queue nodes ps ls w

module _ {jute : Jute} {rest : Ptr → Option Cell} {q : Ptr} {w : World} {ps : Pending}
    {ls : List Letter} {n : ℕ} where
  -- One byte less is needed.
  pub Sys-less : Sys jute rest q w ps ls (suc n) → Sys jute rest q w ps ls n
  Sys-less s = record {
    queue = s.queue;
    nodes = s.nodes;
    is = s.is;
    fresh = s.fresh;
    memory = s.memory;
    contexts = s.contexts;
    post = s.post;
    room = λ m. omega (arith, s.room m);
    account = s.account;
  }

  -- A pending context is ready for its callback, and a request can be made.
  pub Sys-Ready :
      (s : Sys jute rest q w ps ls (suc n)) (i : ℕ) {a : Ptr} {m : ℤ}
      → get_elem? ps i ≡ some (a, m)
      → Ready w a m q s.queue s.nodes
  Sys-Ready s i e = record {
    context_at = (Contexts-at w q ps i s.contexts e).0;
    is = s.is;
    fresh = s.fresh;
    memory = s.memory;
    room = Room-full n s.queue.pipe_write w.os s.room;
  }

  pub Sys-Idle : (s : Sys jute rest q w ps ls (suc n)) → Idle w q s.queue s.nodes
  Sys-Idle s = record {
    is = s.is;
    fresh = s.fresh;
    memory = s.memory;
    room = Room-full n s.queue.pipe_write w.os s.room;
  }
