-- ===== src/System/Closing.antt =====
-- The end of the handle: whatever is still in the queue is given back, with the queue.
use zookeeper_fork.Base.{
  ℕ, suc, ◌≡◌, ◌≢◌, refl, ap, true, false, Option, some, none, List, [], ◌∷◌, ℤ, arith, length, ◌<◌,
  ◌==◌, Bool-cases, inl, inr, get_elem?,
}
use zookeeper_fork.Structs
use zookeeper_fork.Structs.{Ptr, null}
use zookeeper_fork.Memory.{World, Run, ok, Holds, write_cell, free, free-ok}
use zookeeper_fork.Translate.{Jute}
use zookeeper_fork.Queue.{zkrb_queue_free}
use zookeeper_fork.Queue.Chain.{Nodes, IsQueue, start}
use zookeeper_fork.Queue.Drain.{Freed, emptied, gone, queue_free-released, drained-IsQueue}
use zookeeper_fork.Queue.Frame.{IsQueue-frame, Keeps-write}
use zookeeper_fork.Callbacks.Finish.{context}
use zookeeper_fork.Extension.{Handle, Answer, Closing, nothing, method_close_handle}
use zookeeper_fork.Extension.Listening.{opened_at}
use zookeeper_fork.System.{Pending, delete_at}
use zookeeper_fork.System.Letters.{Letter, Post, Post-kept, Leaves-Spares}
use zookeeper_fork.System.Contexts.{
  Contexts, Contexts-at, Contexts-kept, Contexts-deleted, holds, holds-deleted, holds-only,
}
use zookeeper_fork.System.State.{Sys, Account}
use zookeeper_fork.System.Taking.{
  freed, freed-IsQueue, freed-Post, freed-Contexts, freed-Account, freed-run,
}

module _ (jute : Jute) (rest : Ptr → Option Structs.Cell) (q : Ptr) (ps : Pending) where
  -- The queue can be emptied event by event, down to the world `world`.
  pub record Drained (w : World) (s : Structs.Queue) (xs : Nodes) (ls : List Letter) : Type 0 where
    pub world : World
    pub one_by_one : Freed jute q w s xs world
    pub contexts : Contexts world q ps
    pub account : Account rest q (emptied s) [] ps [] world
    pub same_length : length xs ≡ length ls

  drains :
      (w : World) (s : Structs.Queue) (xs : Nodes) (ls : List Letter)
      → IsQueue w q s xs
      → Post jute w xs ls
      → Contexts w q ps
      → Account rest q s xs ps ls w
      → Drained w s xs ls
  drains w s [] [] is p c a = record {
    world = w;
    one_by_one = refl;
    contexts = c;
    account = record { inside = a.inside; outside = a.outside };
    same_length = refl;
  }
  drains w s [] (l ∷ ls) is p c a = absurd p
  drains w s (x ∷ xs) [] is p c a = absurd p
  drains w s ((b, e) ∷ xs) (l ∷ ls) is p c a =
      let is' = freed-IsQueue is p in
      let next =
        drains (freed is p) (record s { head = start xs s.tail }) xs ls is' (freed-Post is p)
          (freed-Contexts is p ps c) (freed-Account is p rest ps a) in
      record {
        world = next.world;
        one_by_one = (freed is p, freed-run is p, is', next.one_by_one);
        contexts = next.contexts;
        account = record { inside = next.account.inside; outside = next.account.outside };
        same_length = ap suc next.same_length;
      }

-- What a handle keeps that is closed.
abbrev pub closed_handle : Handle
closed_handle = record { zh = null; queue = null; closed = true; shutting_down = false }

-- The run `m` of the close ends. The contexts `left` stay allocated; all else is the `rest`.
pub record Closed (jute : Jute) (rest : Ptr → Option Structs.Cell) (q : Ptr) (left : Pending)
    (m : Run (Answer × Handle)) : Type 0 where
  pub world : World
  pub run : m ≡ ok (nothing, closed_handle) world
  pub contexts : Contexts world q left
  pub same : (a : Ptr) → (a == null) ≡ false → holds a left ≡ false → world.cell a ≡ rest a

-- The close, step by step.
close-run :
    (jute : Jute) (closing : Closing) (z q ctx : Ptr) (fuel : ℕ) (rv : ℤ) {w u v : World}
    → z ≢ null
    → q ≢ null
    → closing.zoo_get_context z w ≡ ok ctx w
    → closing.zookeeper_close z w ≡ ok rv w
    → free ctx w ≡ ok tt u
    → zkrb_queue_free jute fuel q u ≡ ok tt v
    → method_close_handle jute closing fuel (opened_at z q false) w ≡ ok (nothing, closed_handle) v
unfolding method_close_handle
close-run jute closing z q ctx fuel rv has_zh qne get close freed drained =
    ground (arith, has_zh, qne, get, close, freed, drained)

-- Without its first context.
module _ {jute : Jute} {rest : Ptr → Option Structs.Cell} {q : Ptr} {w : World} {ps : Pending}
    {ls : List Letter} {n : ℕ} (s : Sys jute rest q w ps ls n) {ctx : Ptr} {m : ℤ}
    (e : get_elem? ps 0 ≡ some (ctx, m)) where
  abbrev released : World
  released = write_cell w ctx none

  abbrev left : Pending
  left = delete_at ps 0

  first_at : Holds w ctx (context m q)
  first_at = (Contexts-at w q ps 0 s.contexts e).0

  released-IsQueue : IsQueue released q s.queue s.nodes
  released-IsQueue = IsQueue-frame s.is (Keeps-write w ctx _ none first_at.there (refl, refl))

  released-Post : Post jute released s.nodes ls
  released-Post =
      Post-kept jute s.nodes ls
        (Leaves-Spares jute s.nodes
          (record { at = λ a c h x y z. let f = first_at.there in ground arith }) s.post)
        s.post

  released-Contexts : Contexts released q left
  released-Contexts = Contexts-deleted w q released ps 0 s.contexts e λ b k n h. ground arith

  released-Account : Account rest q s.queue s.nodes left ls released
  released-Account =
      let first_used = (Contexts-at w q ps 0 s.contexts e).1 in
      record {
        inside = λ a z u. s.account.inside a z (elim (Bool-cases (holds a ps)) [
          | inl y ↦ ground arith
          | inr y ↦ (let d = holds-deleted ps 0 a y in ground arith)
        ]);
        outside = λ a z u. elim (Bool-cases (a == ctx)) [
          | inl y ↦ (let r = s.account.inside a z (ground arith) in ground arith)
          | inr y ↦
              (let h = holds-only ps 0 a e y in
                let r = s.account.outside a z (ground arith) in ground arith)
        ];
      }

  emptying : Drained jute rest q left released s.queue s.nodes ls
  emptying =
      drains jute rest q left released s.queue s.nodes ls released-IsQueue released-Post
        released-Contexts released-Account

  abbrev over : World
  over = gone q s.queue emptying.world

  over-Contexts : Contexts over q left
  over-Contexts =
      let is =
        drained-IsQueue jute q released s.queue s.nodes emptying.world released-IsQueue
          emptying.one_by_one in
      Contexts-kept emptying.world q over left
        (λ a k h c. let x = is.here.there in let y = is.last.there in ground arith)
        emptying.contexts

  over_same : (a : Ptr) → (a == null) ≡ false → holds a left ≡ false → over.cell a ≡ rest a
  over_same a z h = elim (Bool-cases (a == q)) [
    | inl y ↦ (let r = emptying.account.inside a z (ground arith) in ground arith)
    | inr y ↦ elim (Bool-cases (a == s.queue.tail)) [
      | inl x ↦ (let r = emptying.account.inside a z (ground arith) in ground arith)
      | inr x ↦ (let r = emptying.account.outside a z (ground arith) in ground arith)
    ]
  ]

  pub close-Closed :
      (closing : Closing) (z : Ptr) (fuel : ℕ) (rv : ℤ)
      → z ≢ null
      → closing.zoo_get_context z w ≡ ok ctx w
      → closing.zookeeper_close z w ≡ ok rv w
      → length ls < fuel
      → Closed jute rest q left (method_close_handle jute closing fuel (opened_at z q false) w)
  unfolding method_close_handle
  close-Closed closing z fuel rv has_zh get close enough =
      let same = emptying.same_length in
      let g =
        queue_free-released jute q fuel released s.queue s.nodes emptying.world released-IsQueue
          emptying.one_by_one (omega arith) in
      record {
        world = over;
        run =
            close-run jute closing z q ctx fuel rv has_zh s.is.here.ne_null get close
              (free-ok first_at) g;
        contexts = over-Contexts;
        same = over_same;
      }
