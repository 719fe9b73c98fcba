-- ===== src/System/First.antt =====
-- A context that the client keeps through all acts, as that of the session's watcher.
use zookeeper_fork.Base.{
  ℕ, zero, suc, ◌≡◌, ◌∙◌, sym, true, Option, some, none, List, [], ◌∷◌, ◌++◌, ℤ, get_elem?,
  if◌then◌else◌, Bool-cases, inl, inr, arith, not, ◌==◌, ◌||◌,
}
use zookeeper_fork.Structs.{Ptr}
use zookeeper_fork.System.{Request, Reply, Act, ask, answer, Pending, keeps, delete_at}
use zookeeper_fork.System.Mailbox.{lasts}

-- A context that is to stay the first, if one is.
abbrev pub Stays : Option (Ptr × ℤ) → List Act → Pending → Type 0
Stays none acts ps = Unit {0}
Stays (some c) acts ps = (get_elem? ps 0 ≡ some c) × (lasts c.1 acts ≡ true)

asked-first :
    (ps qs : Pending) {c : Ptr × ℤ} → get_elem? ps 0 ≡ some c → get_elem? (ps ++ qs) 0 ≡ some c
asked-first [] qs e = cc
asked-first (x ∷ ps) qs e = e

answered-first :
    (ps : Pending) (i : ℕ) (r : Reply) {c : Ptr × ℤ} {d : Ptr × ℤ}
    → get_elem? ps 0 ≡ some c
    → get_elem? ps i ≡ some d
    → (not (i == 0) || keeps c.1 r) ≡ true
    → get_elem? (if keeps d.1 r then ps else delete_at ps i) 0 ≡ some c
answered-first [] i r e f k = cc
answered-first (x ∷ ps) zero r {c} {d} e f k = let g : c ≡ d = cc in rw (← g, k) e
answered-first (x ∷ ps) (suc i) r {c} {d} e f k = elim (Bool-cases (keeps d.1 r)) [
  | inl y ↦ rw y e
  | inr y ↦ rw y e
]

pub Stays-asked :
    (c : Option (Ptr × ℤ)) (n : ℤ) (r : Request) (acts : List Act) (ps qs : Pending)
    → Stays c (ask n r ∷ acts) ps
    → Stays c acts (ps ++ qs)
Stays-asked none n r acts ps qs h = tt
Stays-asked (some c) n r acts ps qs (e, l) = (asked-first ps qs e, l)

pub Stays-answered :
    (c : Option (Ptr × ℤ)) (i : ℕ) (r : Reply) (acts : List Act) (ps : Pending) {d : Ptr × ℤ}
    → get_elem? ps i ≡ some d
    → Stays c (answer i r ∷ acts) ps
    → Stays c acts (if keeps d.1 r then ps else delete_at ps i)
Stays-answered none i r acts ps f h = tt
Stays-answered (some c) i r acts ps {d} f (e, l) =
    (answered-first ps i r e f (ground arith), ground arith)

pub Stays-passed :
    (c : Option (Ptr × ℤ)) (i : ℕ) (r : Reply) (acts : List Act) (ps : Pending)
    → Stays c (answer i r ∷ acts) ps
    → Stays c acts ps
Stays-passed none i r acts ps h = tt
Stays-passed (some c) i r acts ps (e, l) = (e, ground arith)

pub Stays-next :
    (c : Option (Ptr × ℤ)) (acts next : List Act) (ps : Pending)
    → ((n : ℤ) → lasts n acts ≡ lasts n next)
    → Stays c acts ps
    → Stays c next ps
Stays-next none acts next ps k h = tt
Stays-next (some c) acts next ps k (e, l) = (e, sym (k c.1) ∙ l)
