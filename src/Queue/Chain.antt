-- ===== src/Queue/Chain.antt =====
-- What the linked list of a queue stands for: the nodes in order, each with the event it carries.
use zookeeper_fork.Base.{
  ◌≡◌, ◌≢◌, refl, Bool, true, false, some, List, [], ◌∷◌, ◌++◌, arith, ◌==◌, ◌||◌, map, Bool-cases,
  inl, inr,
}
use zookeeper_fork.Structs.{Ptr, null, EventLl, Queue, event_ll, queue}
use zookeeper_fork.Memory.{World, Holds}

abbrev pub Nodes : Type 0
Nodes = List (Ptr × Ptr)

abbrev pub events : Nodes → List Ptr
events = map (λ n. n.1)

abbrev pub has : Ptr → Nodes → Bool
has a [] = false
has a ((b, _) ∷ xs) = (a == b) || has a xs

-- The first of the nodes that end at `t`.
abbrev pub start : Nodes → Ptr → Ptr
start [] t = t
start ((a, _) ∷ xs) t = a

-- Each node carries an event and leads to the next, and none stands twice.
abbrev pub Chain : World → Nodes → Ptr → Type 0
Chain w [] t = Unit {0}
Chain w ((a, e) ∷ xs) t =
    Holds w a (event_ll (record { event = e; next = start xs t }))
    × (e ≢ null)
    × (has a xs ≡ false)
    × Chain w xs t

-- `q` is a queue with the nodes `xs`, and an empty node behind them.
pub record IsQueue (w : World) (q : Ptr) (s : Queue) (xs : Nodes) : Type 0 where
  pub here : Holds w q (queue s)
  pub first : s.head ≡ start xs s.tail
  pub chain : Chain w xs s.tail
  pub last : Holds w s.tail (event_ll (record { event = null; next = null }))

pub Chain-node :
    (w : World) (t a : Ptr) (xs : Nodes)
    → Chain w xs t
    → has a xs ≡ true
    → (n : EventLl) × (w.cell a ≡ some (event_ll n)) × (n.event ≢ null)
Chain-node w t a [] c h = cc
Chain-node w t a ((b, e) ∷ xs) c h = elim (Bool-cases (a == b)) [
  | inl same ↦ (record { event = e; next = start xs t }, ground arith, c.1)
  | inr other ↦ Chain-node w t a xs c.3 (ground arith)
]

-- A chain survives any change that spares its nodes.
pub Chain-frame :
    (w v : World) (t : Ptr) (xs : Nodes)
    → Chain w xs t
    → ((a : Ptr) → has a xs ≡ true → v.cell a ≡ w.cell a)
    → Chain v xs t
Chain-frame w v t [] c same = tt
Chain-frame w v t ((a, e) ∷ xs) c same = (
  record { ne_null = c.0.ne_null; there = ground (arith, same a) },
  c.1,
  c.2,
  Chain-frame w v t xs c.3 (λ b i. same b (ground arith)),
)

pub start-append : (xs : Nodes) (a e t : Ptr) → start (xs ++ (a, e) ∷ []) t ≡ start xs a
start-append [] a e t = refl
start-append (x ∷ xs) a e t = refl

pub has-append :
    (b : Ptr) (xs : Nodes) (a e : Ptr) → has b (xs ++ (a, e) ∷ []) ≡ (has b xs || (b == a))
has-append b [] a e = ground arith
has-append b ((c, _) ∷ xs) a e = ground (arith, has-append b xs a e)

-- A node put behind a chain.
pub Chain-snoc :
    (w : World) (xs : Nodes) (a e t : Ptr)
    → Chain w xs a
    → Holds w a (event_ll (record { event = e; next = t }))
    → e ≢ null
    → has a xs ≡ false
    → Chain w (xs ++ (a, e) ∷ []) t
Chain-snoc w [] a e t c h ne out = (h, ne, refl, tt)
Chain-snoc w ((b, f) ∷ xs) a e t c h ne out = (
  ground (arith, start-append xs a e t),
  c.1,
  ground (arith, has-append b xs a e),
  Chain-snoc w xs a e t c.3 h ne (ground arith),
)
