-- ===== src/System/Used.antt =====
-- The blocks in use, before and after a letter comes.
use zookeeper_fork.Base.{
  ◌≡◌, true, false, none, List, [], ◌∷◌, ◌++◌, arith, ◌==◌, Bool-cases, inl, inr, ◌⊎◌,
}
use zookeeper_fork.Structs
use zookeeper_fork.Structs.{Ptr}
use zookeeper_fork.Memory.{World}
use zookeeper_fork.Event.Leak.{mem}
use zookeeper_fork.Queue.Chain.{Nodes, has-append}
use zookeeper_fork.System.{Pending}
use zookeeper_fork.System.Letters.{Letter, owned-append}
use zookeeper_fork.System.Contexts.{holds}
use zookeeper_fork.System.State.{used}

-- With a node and a letter more.
pub used-snoc :
    (q : Ptr) (s t : Structs.Queue) (xs : Nodes) (ps : Pending) (ls : List Letter) (e : Ptr)
    (l : Letter) (b : Ptr)
    → used q t (xs ++ (s.tail, e) ∷ []) ps (ls ++ l ∷ []) b ≡ false
    → ((qs : Pending) → holds b qs ≡ false → used q s xs qs ls b ≡ false)
      × (mem b l.boxes ≡ false)
      × ((b == q) ≡ false)
      × ((b == s.tail) ≡ false)
      × ((b == t.tail) ≡ false)
      × (holds b ps ≡ false)
used-snoc q s t xs ps ls e l b u =
    let k = has-append b xs s.tail e in
    let o = owned-append b ls l in
    ((λ qs h. ground arith), ground arith, ground arith, ground arith, ground arith, ground arith)

-- What is used now and was not is the node or a block of the letter.
pub used-new :
    (q : Ptr) (s t : Structs.Queue) (xs : Nodes) (ps qs : Pending) (ls : List Letter) (e : Ptr)
    (l : Letter) (b : Ptr)
    → used q s xs ps ls b ≡ false
    → holds b qs ≡ false
    → used q t (xs ++ (s.tail, e) ∷ []) qs (ls ++ l ∷ []) b ≡ true
    → ((b == t.tail) ≡ true) ⊎ (mem b l.boxes ≡ true)
used-new q s t xs ps qs ls e l b before h u =
    let k = has-append b xs s.tail e in
    let o = owned-append b ls l in
    elim (Bool-cases (b == t.tail)) [ inl y ↦ inl y | inr y ↦ inr (ground arith) ]

pub holds-used :
    (q : Ptr) (s : Structs.Queue) (xs : Nodes) (ps : Pending) (ls : List Letter) (b : Ptr)
    → holds b ps ≡ true
    → used q s xs ps ls b ≡ true
holds-used q s xs ps ls b h = ground arith

pub unused-holds :
    (q : Ptr) (s : Structs.Queue) (xs : Nodes) (ps : Pending) (ls : List Letter) (b : Ptr)
    → used q s xs ps ls b ≡ false
    → holds b ps ≡ false
unused-holds q s xs ps ls b h = ground arith

pub at_tail : (w : World) (b t : Ptr) → (b == t) ≡ true → w.cell t ≡ none → w.cell b ≡ none
at_tail w b t e h = ground arith
