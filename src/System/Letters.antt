-- ===== src/System/Letters.antt =====
-- The events of a queue as letters: what each reads as and the blocks that it owns. No two own the
-- same block.
use zookeeper_fork.Base.{
  ◌≡◌, refl, sym, ap, ◌∙◌, Bool, true, false, some, none, List, [], ◌∷◌, ◌++◌, map, arith, ◌==◌,
  ◌||◌, Bool-cases, inl, inr,
}
use zookeeper_fork.Structs
use zookeeper_fork.Structs.{
  Ptr, null, Cell, EventLl, Queue, event_ll, queue, as_event_ll, as_queue, as_calling_context,
}
use zookeeper_fork.Memory.{World}
use zookeeper_fork.Ruby.{Value}
use zookeeper_fork.Translate.{Jute}
use zookeeper_fork.Event.Leak.{mem}
use zookeeper_fork.Event.Release.{dropped, without}
use zookeeper_fork.Event.Parcels.{IsBox, Parcel, Parcel-kept, without-same}
use zookeeper_fork.Queue.Chain.{Nodes}
use zookeeper_fork.Queue.Frame.{Keeps}

pub record Letter : Type 0 where
  pub shows : Value
  pub boxes : List Ptr

abbrev pub values : List Letter → List Value
values = map (λ l. l.shows)

abbrev pub owned : Ptr → List Letter → Bool
owned a [] = false
owned a (l ∷ ls) = mem a l.boxes || owned a ls

-- No letter has a block of `boxes`.
pub record Apart (boxes : List Ptr) (ls : List Letter) : Type 0 where
  pub free : (a : Ptr) → mem a boxes ≡ true → (a == null) ≡ false → owned a ls ≡ false

-- The events of the nodes are these letters.
abbrev pub Post : Jute → World → Nodes → List Letter → Type 0
Post jute w [] [] = Unit {0}
Post jute w [] (l ∷ ls) = ⊥
Post jute w (x ∷ xs) [] = ⊥
Post jute w (x ∷ xs) (l ∷ ls) =
    Parcel jute w x.1 l.shows l.boxes × Apart l.boxes ls × Post jute w xs ls

-- `u` has the letters' blocks of `w`.
pub record Spares (w u : World) (ls : List Letter) : Type 0 where
  pub at : (a : Ptr) → owned a ls ≡ true → (a == null) ≡ false → u.cell a ≡ w.cell a

pub owned-append :
    (a : Ptr) (ls : List Letter) (l : Letter)
    → owned a (ls ++ l ∷ []) ≡ (owned a ls || mem a l.boxes)
owned-append a [] l = ground arith
owned-append a (k ∷ ls) l = ground (arith, owned-append a ls l)

module _ (jute : Jute) {w : World} where
  pub owned-IsBox :
      (xs : Nodes) (ls : List Letter)
      → Post jute w xs ls
      → (a : Ptr) → owned a ls ≡ true
      → (a == null) ≡ false
      → IsBox w a
  owned-IsBox [] [] p a o n = cc
  owned-IsBox [] (l ∷ ls) p a o n = absurd p
  owned-IsBox (x ∷ xs) [] p a o n = absurd p
  owned-IsBox (x ∷ xs) (l ∷ ls) p a o n = elim (Bool-cases (mem a l.boxes)) [
    | inl m ↦ p.0.boxes a m n
    | inr m ↦ owned-IsBox xs ls p.2 a (ground arith) n
  ]

  pub Post-kept :
      {u : World} (xs : Nodes) (ls : List Letter)
      → Spares w u ls
      → Post jute w xs ls
      → Post jute u xs ls
  Post-kept [] [] k p = tt
  Post-kept [] (l ∷ ls) k p = absurd p
  Post-kept (x ∷ xs) [] k p = absurd p
  Post-kept (x ∷ xs) (l ∷ ls) k p = (
    Parcel-kept p.0 (record { at = λ a m n. k.at a (ground arith) n }),
    p.1,
    Post-kept xs ls (record { at = λ a o n. k.at a (ground arith) n }) p.2,
  )

  -- A letter whose blocks are new comes last.
  pub Post-snoc :
      (xs : Nodes) (ls : List Letter) (a e : Ptr) (l : Letter)
      → Post jute w xs ls
      → Parcel jute w e l.shows l.boxes
      → ((b : Ptr) → mem b l.boxes ≡ true → (b == null) ≡ false → owned b ls ≡ false)
      → Post jute w (xs ++ (a, e) ∷ []) (ls ++ l ∷ [])
  Post-snoc [] [] a e l p r n = (r, record { free = λ b m z. refl }, tt)
  Post-snoc [] (k ∷ ls) a e l p r n = absurd p
  Post-snoc (x ∷ xs) [] a e l p r n = absurd p
  Post-snoc (x ∷ xs) (k ∷ ls) a e l p r n = (
    p.0,
    record {
      free = λ b m z.
          let o = p.1.free b m z in let y = owned-append b ls l in let f = n b in ground arith;
    },
    Post-snoc xs ls a e l p.2 r (λ b m z. let f = n b m z in ground arith),
  )

pub values-snoc :
    (ls : List Letter) (l : Letter) → values (ls ++ l ∷ []) ≡ values ls ++ l.shows ∷ []
values-snoc [] l = refl
values-snoc (k ∷ ls) l = ap (◌∷◌ k.shows) (values-snoc ls l)

-- Changes that only touch queues and nodes leave the letters alone.
pub record Leaves (w u : World) : Type 0 where
  pub at :
      (a : Ptr) (c : Cell)
      → w.cell a ≡ some c
      → as_event_ll c ≡ none
      → as_queue c ≡ none
      → as_calling_context c ≡ none
      → u.cell a ≡ some c

pub Leaves-Spares :
    (jute : Jute) {w u : World} (xs : Nodes) {ls : List Letter}
    → Leaves w u
    → Post jute w xs ls
    → Spares w u ls
Leaves-Spares jute xs {ls} k p = record {
  at = λ a o n.
      let b = owned-IsBox jute xs ls p a o n in
      k.at a b.content b.there b.not_ll b.not_queue b.not_context ∙ sym b.there;
}

-- When all blocks of a letter are given back.
module _ {w : World} (boxes : List Ptr)
    (b : (a : Ptr) → mem a boxes ≡ true → (a == null) ≡ false → IsBox w a) where
  dropped-null : (u : World) (p a : Ptr) → (a == null) ≡ true → (dropped u p).cell a ≡ u.cell a
  unfolding dropped
  dropped-null u p a n = ground arith

  without-null :
      (u : World) (ps : List Ptr) (a : Ptr) → (a == null) ≡ true → (without u ps).cell a ≡ u.cell a
  without-null u [] a n = refl
  without-null u (p ∷ ps) a n = without-null (dropped u p) ps a n ∙ dropped-null u p a n

  -- What is no box stays.
  pub stays :
      (a : Ptr) → ((a == null) ≡ false → mem a boxes ≡ false) → (without w boxes).cell a ≡ w.cell a
  stays a h = elim (Bool-cases (a == null)) [
    | inl y ↦ without-null w boxes a y
    | inr n ↦ without-same w boxes a (h n)
  ]

  node_stays :
      (a : Ptr) (c : Cell) → w.cell a ≡ some c → (IsBox w a → ⊥) → (without w boxes).cell a ≡ some c
  node_stays a c e no_box =
      stays a
        (λ n. elim (Bool-cases (mem a boxes)) [ inl m ↦ absurd (no_box (b a m n)) | inr m ↦ m ])
      ∙ e

  pub without-Keeps : Keeps w (without w boxes)
  without-Keeps = record {
    nodes = λ a n e. node_stays a (event_ll n) e λ x. let t = x.there in let l = x.not_ll in cc;
    queues = λ a n e. node_stays a (queue n) e λ x. let t = x.there in let l = x.not_queue in cc;
  }

  pub context_stays :
      (a : Ptr) (c : Cell) (v : Structs.CallingContext)
      → as_calling_context c ≡ some v
      → w.cell a ≡ some c
      → (without w boxes).cell a ≡ some c
  context_stays a c v i e = node_stays a c e λ x. let t = x.there in let l = x.not_context in cc

  pub without-Spares : {ls : List Letter} → Apart boxes ls → Spares w (without w boxes) ls
  without-Spares {ls} r = record {
    at = λ a o n.
        stays a
          λ z. elim (Bool-cases (mem a boxes)) [ inl m ↦ (let f = r.free a m n in cc) | inr m ↦ m ];
  }
