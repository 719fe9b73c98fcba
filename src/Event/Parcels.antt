-- ===== src/Event/Parcels.antt =====
-- An event with all that it owns: whatever happens elsewhere in memory, it can be shown to Ruby and
-- given back.
use zookeeper_fork.Base.{
  ◌≡◌, refl, ◌∙◌, true, false, Option, none, some, List, [], ◌∷◌, ◌++◌, arith, ◌==◌, Bool-cases,
  inl, inr,
}
use mathlib.Core.Path.{subst}
use zookeeper_fork.Structs.{Ptr, null, Bytes, Stat, Cell, as_event_ll, as_queue, as_calling_context}
use zookeeper_fork.Memory.{World, ok, Holds}
use zookeeper_fork.Ruby.{Value}
use zookeeper_fork.Translate.{Jute}
use zookeeper_fork.Translate.Show.{BytesAt, StatAt}
use zookeeper_fork.Event.{zkrb_event_to_ruby, zkrb_event_free}
use zookeeper_fork.Event.Release.{dropped, without}
use zookeeper_fork.Event.Leak.{mem}

-- These blocks are in `u` as they are in `w`. NULL is no block.
pub record Agree (ps : List Ptr) (w u : World) : Type 0 where
  pub at : (a : Ptr) → mem a ps ≡ true → (a == null) ≡ false → u.cell a ≡ w.cell a

-- A block of a kind that events own: no queue, no node, no context.
pub record IsBox (w : World) (a : Ptr) : Type 0 where
  pub content : Cell
  pub there : w.cell a ≡ some content
  pub not_ll : as_event_ll content ≡ none
  pub not_queue : as_queue content ≡ none
  pub not_context : as_calling_context content ≡ none

-- The event at `e` owns the blocks `ps`, and reads as `v`.
pub record Parcel (jute : Jute) (w : World) (e : Ptr) (v : Value) (ps : List Ptr) : Type 0 where
  pub boxes : (a : Ptr) → mem a ps ≡ true → (a == null) ≡ false → IsBox w a
  pub shown : (u : World) → Agree ps w u → zkrb_event_to_ruby e u ≡ ok v u
  pub freed : (u : World) → Agree ps w u → zkrb_event_free jute e u ≡ ok tt (without u ps)

pub Parcel-kept :
    {jute : Jute} {w u : World} {e : Ptr} {v : Value} {ps : List Ptr}
    → Parcel jute w e v ps
    → Agree ps w u
    → Parcel jute u e v ps
Parcel-kept p k = record {
  boxes = λ a m n.
      let b = p.boxes a m n in
      record {
        content = b.content;
        there = k.at a m n ∙ b.there;
        not_ll = b.not_ll;
        not_queue = b.not_queue;
        not_context = b.not_context;
      };
  shown = λ x l. p.shown x (record { at = λ a m n. l.at a m n ∙ k.at a m n });
  freed = λ x l. p.freed x (record { at = λ a m n. l.at a m n ∙ k.at a m n });
}

dropped-same : (u : World) (p a : Ptr) → (a == p) ≡ false → (dropped u p).cell a ≡ u.cell a
unfolding dropped
dropped-same u p a n = ground arith

-- What is not given back stays, in the same system.
pub without-same :
    (u : World) (ps : List Ptr) (a : Ptr) → mem a ps ≡ false → (without u ps).cell a ≡ u.cell a
without-same u [] a h = refl
without-same u (p ∷ ps) a h =
    without-same (dropped u p) ps a (ground arith) ∙ dropped-same u p a (ground arith)

-- Nothing is allocated by it.
pub record Shrunk (u v : World) : Type 0 where
  pub brk : v.brk ≡ u.brk
  pub oom : v.oom ≡ u.oom
  pub os : v.os ≡ u.os
  pub none_new : (a : Ptr) → u.cell a ≡ none → v.cell a ≡ none

dropped-Shrunk : (u : World) (p : Ptr) → Shrunk u (dropped u p)
unfolding dropped
dropped-Shrunk u p = elim (Bool-cases (p == null)) [
  | inl y ↦ rw y (record { brk = refl; oom = refl; os = refl; none_new = λ a e. e })
  | inr n ↦ rw n (record { brk = refl; oom = refl; os = refl; none_new = λ a e. ground arith })
]

dropped-none :
    (u : World) (p a : Ptr) → (a == p) ≡ true → (a == null) ≡ false → (dropped u p).cell a ≡ none
unfolding dropped
dropped-none u p a e n = ground arith

pub without-Shrunk : (u : World) (ps : List Ptr) → Shrunk u (without u ps)
without-Shrunk u [] = record { brk = refl; oom = refl; os = refl; none_new = λ a e. e }
without-Shrunk u (p ∷ ps) =
    let d = dropped-Shrunk u p in
    let r = without-Shrunk (dropped u p) ps in
    record {
      brk = r.brk ∙ d.brk;
      oom = r.oom ∙ d.oom;
      os = r.os ∙ d.os;
      none_new = λ a e. r.none_new a (d.none_new a e);
    }

pub without-none :
    (u : World) (ps : List Ptr) (a : Ptr)
    → mem a ps ≡ true
    → (a == null) ≡ false
    → (without u ps).cell a ≡ none
without-none u [] a m n = cc
without-none u (p ∷ ps) a m n = elim (Bool-cases (a == p)) [
  | inl y ↦ (without-Shrunk (dropped u p) ps).none_new a (dropped-none u p a y n)
  | inr x ↦ without-none (dropped u p) ps a (ground arith) n
]

module _ {ps : List Ptr} {w u : World} (k : Agree ps w u) where
  pub Holds-kept : {a : Ptr} {c : Cell} → mem a ps ≡ true → Holds w a c → Holds u a c
  Holds-kept {a} m h = record {
    ne_null = h.ne_null;
    there = k.at a m (let n = h.ne_null in ground arith) ∙ h.there;
  }

  pub BytesAt-kept : (p : Ptr) (o : Option Bytes) → mem p ps ≡ true → BytesAt w p o → BytesAt u p o
  BytesAt-kept p none m h = h
  BytesAt-kept p (some b) m h = Holds-kept m h

  pub StatAt-kept : (p : Ptr) (o : Option Stat) → mem p ps ≡ true → StatAt w p o → StatAt u p o
  StatAt-kept p none m h = h
  StatAt-kept p (some b) m h = Holds-kept m h

pub Holds-IsBox :
    {w : World} {a : Ptr} {c : Cell}
    → Holds w a c
    → as_event_ll c ≡ none
    → as_queue c ≡ none
    → as_calling_context c ≡ none
    → IsBox w a
Holds-IsBox {c} h x y z = record {
  content = c;
  there = h.there;
  not_ll = x;
  not_queue = y;
  not_context = z;
}

pub BytesAt-IsBox :
    {w : World} (p : Ptr) (o : Option Bytes) → BytesAt w p o → (p == null) ≡ false → IsBox w p
BytesAt-IsBox p none h n = cc
BytesAt-IsBox p (some b) h n = Holds-IsBox h refl refl refl

pub StatAt-IsBox :
    {w : World} (p : Ptr) (o : Option Stat) → StatAt w p o → (p == null) ≡ false → IsBox w p
StatAt-IsBox p none h n = cc
StatAt-IsBox p (some b) h n = Holds-IsBox h refl refl refl

-- `P` of each block of a list but NULL.
abbrev pub Each : (Ptr → Type 0) → List Ptr → Type 0
Each P [] = Unit {0}
Each P (p ∷ ps) = ((p == null) ≡ false → P p) × Each P ps

same_ptr : (a p : Ptr) → (a == p) ≡ true → p ≡ a
same_ptr a p e = ground arith

pub Each-mem :
    (P : Ptr → Type 0) (ps : List Ptr)
    → Each P ps
    → (a : Ptr) → mem a ps ≡ true
    → (a == null) ≡ false
    → P a
Each-mem P [] b a m n = cc
Each-mem P (p ∷ ps) (b, bs) a m n = elim (Bool-cases (a == p)) [
  | inl y ↦ subst (λ x. (x == null) ≡ false → P x) (same_ptr a p y) b n
  | inr x ↦ Each-mem P ps bs a (ground arith) n
]

pub Each-append : (P : Ptr → Type 0) (ps rs : List Ptr) → Each P ps → Each P rs → Each P (ps ++ rs)
Each-append P [] rs a b = b
Each-append P (p ∷ ps) rs (a, more) b = (a, Each-append P ps rs more b)
