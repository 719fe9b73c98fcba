-- ===== src/System/Taking.antt =====
-- The first event leaves the queue, and all its blocks are given back.
use zookeeper_fork.Base.{
  ◌≡◌, refl, ◌∙◌, sym, true, false, Option, some, none, List, ◌∷◌, arith, ◌==◌, Bool-cases, inl,
  inr,
}
use zookeeper_fork.Structs
use zookeeper_fork.Structs.{Ptr, null, Cell, as_event_ll, as_queue}
use zookeeper_fork.Memory.{World, ok}
use zookeeper_fork.Translate.{Jute}
use zookeeper_fork.Event.{zkrb_event_free}
use zookeeper_fork.Event.Leak.{mem}
use zookeeper_fork.Event.Release.{without}
use zookeeper_fork.Event.Parcels.{without-Shrunk, without-none, without-same}
use zookeeper_fork.Queue.Chain.{Nodes, start, IsQueue}
use zookeeper_fork.Queue.Frame.{IsQueue-frame}
use zookeeper_fork.Queue.Fifo.{dequeued, dequeue-cons}
use zookeeper_fork.Callbacks.Finish.{context}
use zookeeper_fork.System.{Pending}
use zookeeper_fork.System.Letters.{
  Letter, Post, Post-kept, Leaves-Spares, without-Keeps, without-Spares, context_stays,
}
use zookeeper_fork.System.Contexts.{Contexts, Contexts-kept}
use zookeeper_fork.System.State.{Account}

module _ {jute : Jute} {q : Ptr} {w : World} {l : Letter} {ls : List Letter} {s : Structs.Queue}
    {a e : Ptr} {xs : Nodes} (is : IsQueue w q s ((a, e) ∷ xs))
    (p : Post jute w ((a, e) ∷ xs) (l ∷ ls)) where
  abbrev pub out : World
  out = dequeued w q s a (start xs s.tail)

  out_keeps :
      (b : Ptr) (c : Cell)
      → w.cell b ≡ some c
      → as_event_ll c ≡ none
      → as_queue c ≡ none
      → out.cell b ≡ some c
  out_keeps b c h x y = let i = is.here.there in let k = is.chain.0.there in ground arith

  pub out-Post : Post jute out ((a, e) ∷ xs) (l ∷ ls)
  out-Post =
      Post-kept jute ((a, e) ∷ xs) (l ∷ ls)
        (Leaves-Spares jute ((a, e) ∷ xs) (record { at = λ b c h x y k. out_keeps b c h x y }) p) p

  abbrev pub freed : World
  freed = without out l.boxes

  pub freed-Contexts : (ps : Pending) → Contexts w q ps → Contexts freed q ps
  freed-Contexts ps = Contexts-kept w q freed ps λ b m o h.
      context_stays l.boxes out-Post.0.boxes b (context m q) (record { req_id = m; queue = q }) refl
        (out_keeps b (context m q) h refl refl)

  freed_node : (b : Ptr) → (b == a) ≡ true → freed.cell b ≡ none
  freed_node b y = (without-Shrunk out l.boxes).none_new b (ground arith)

  freed_same :
      (b : Ptr)
      → mem b l.boxes ≡ false
      → (b == q) ≡ false
      → (b == a) ≡ false
      → freed.cell b ≡ w.cell b
  freed_same b m n1 n2 = without-same out l.boxes b m ∙ ground arith

  pub freed-Account :
      (rest : Ptr → Option Structs.Cell) (ps : Pending)
      → Account rest q s ((a, e) ∷ xs) ps (l ∷ ls) w
      → Account rest q (record s { head = start xs s.tail }) xs ps ls freed
  freed-Account rest ps c = record {
    inside = λ b z u. c.inside b z (ground arith);
    outside = λ b z u. elim (Bool-cases (mem b l.boxes)) [
      | inl m ↦ without-none out l.boxes b m z ∙ sym (c.inside b z (ground arith))
      | inr m ↦ elim (Bool-cases (b == a)) [
        | inl y ↦ freed_node b y ∙ sym (c.inside b z (ground arith))
        | inr y ↦ freed_same b m (ground arith) y ∙ c.outside b z (ground arith)
      ]
    ];
  }

  pub freed-IsQueue : IsQueue freed q (record s { head = start xs s.tail }) xs
  freed-IsQueue = IsQueue-frame (dequeue-cons is).1 (without-Keeps l.boxes out-Post.0.boxes)

  pub freed-Post : Post jute freed xs ls
  freed-Post = Post-kept jute xs ls (without-Spares l.boxes out-Post.0.boxes out-Post.1) out-Post.2

  pub freed-run : zkrb_event_free jute e out ≡ ok tt freed
  freed-run = out-Post.0.freed out (record { at = λ b m y. refl })
