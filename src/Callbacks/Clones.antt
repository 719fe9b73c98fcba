-- ===== src/Callbacks/Clones.antt =====
-- The deep copies that the callbacks make: what is copied stands at the pointer that comes back, in a
-- new block, everything else is as it was, and the callback can go on.
use zookeeper_fork.Base.{
  ℕ, zero, suc, ◌≡◌, refl, sym, ap, ◌∙◌, false, Option, some, none, [], ◌∷◌, ℤ, pos, negsuc, arith,
  ◌==◌, ◌≤◌, ◌<◌, length, take,
}
use zookeeper_fork.Structs.{Ptr, null, Bytes, Stat, Queue, Cell, bytes, stat}
use zookeeper_fork.Memory.{World, Run, ok, Holds, Fresh-apart, new, malloc, store}
use zookeeper_fork.Translate.{strdup}
use zookeeper_fork.Translate.Show.{BytesAt, StatAt}
use zookeeper_fork.Event.Show.{data_len}
use zookeeper_fork.Queue.Chain.{Nodes}
use zookeeper_fork.Callbacks.{clone_stat, clone_string, clone_value}
use zookeeper_fork.Callbacks.Finish.{Ready, Ready-renewed, renewed, new-ok}

-- `v` has all blocks of `w`, and the same system.
pub record Grown (w v : World) : Type 0 where
  pub kept : (a : Ptr) (c : Cell) → w.cell a ≡ some c → v.cell a ≡ some c
  pub more : w.brk ≤ v.brk
  pub system : v.os ≡ w.os

-- A block that `w` has not handed out yet.
abbrev pub IsNew : World → Ptr → Type 0
IsNew w p = w.brk < p

-- NULL, or a block that `w` has not handed out.
abbrev pub IsNewOrNull : World → Ptr → Type 0
IsNewOrNull w p = (p == null) ≡ false → IsNew w p

-- The client hands over at least as many bytes as it says.
abbrev pub Readable : Option Bytes → ℤ → Type 0
Readable none n = Unit {0}
Readable (some b) (pos n) = n ≤ length b
Readable (some b) (negsuc n) = ⊥

-- The bytes that are copied.
abbrev pub cut : Option Bytes → ℤ → Option Bytes
cut none n = none
cut (some b) (pos n) = some (take n b)
cut (some b) (negsuc n) = none

length-take_le : (n : ℕ) (b : Bytes) → n ≤ length b → length (take n b) ≡ n
length-take_le zero b h = refl
length-take_le (suc n) [] h = absurd (omega arith)
length-take_le (suc n) (x ∷ b) h = ap suc (length-take_le n b (omega arith))

pub Grown-refl : (w : World) → Grown w w
Grown-refl w = record { kept = λ a c e. e; more = omega arith; system = refl }

-- What was new once is new.
pub older : {w u : World} (p : Ptr) → Grown w u → IsNewOrNull u p → IsNewOrNull w p
older p g n x = let y = g.more in let z = n x in omega arith

-- Nothing is new but `p`.
abbrev pub Only : World → World → Ptr → Type 0
Only u v p = (a : Ptr) → (a == p) ≡ false → u.cell a ≡ none → v.cell a ≡ none

-- `m` ends with a value of which `P` holds, in a world that has grown.
pub record Cloned {A : Type 0} (ctx : Ptr) (req : ℤ) (q : Ptr) (s : Queue) (xs : Nodes)
    (P : World → A → Type 0) (u : World) (m : Run A) : Type 0 where
  pub world : World
  pub result : A
  pub run : m ≡ ok result world
  pub ready : Ready world ctx req q s xs
  pub grown : Grown u world
  pub at : P world result

pub Grown-trans : {w u v : World} → Grown w u → Grown u v → Grown w v
Grown-trans g h = record {
  kept = λ a c e. h.kept a c (g.kept a c e);
  more = let x = g.more in let y = h.more in omega arith;
  system = h.system ∙ g.system;
}

pub Grown-Holds : {w u : World} {p : Ptr} {c : Cell} → Grown w u → Holds w p c → Holds u p c
Grown-Holds {p} {c} g h = record { ne_null = h.ne_null; there = g.kept p c h.there }

module _ {u : World} {ctx q : Ptr} {req : ℤ} {s : Queue} {xs : Nodes}
    (r : Ready u ctx req q s xs) where
  pub Grown-renewed : (c : Cell) → Grown u (renewed u c)
  Grown-renewed c = record {
    kept = λ a d e. let f = Fresh-apart u a d r.fresh e in ground arith;
    more = omega arith;
    system = refl;
  }

  pub new-Cloned :
      (c : Cell) → Cloned ctx req q s xs (λ v p. Holds v p c × IsNew u p × Only u v p) u (new c u)
  new-Cloned c = record {
    world = renewed u c;
    result = suc u.brk;
    run = new-ok u c (r.memory u.brk);
    ready = Ready-renewed r c;
    grown = Grown-renewed c;
    at = (
      record { ne_null = omega arith; there = ground arith },
      omega arith,
      λ a n e. ground arith,
    );
  }

  pub strdup-Cloned :
      (b : Bytes)
      → Cloned ctx req q s xs
          (λ v p. BytesAt v p (some b) × IsNewOrNull u p × Only u v p)
          u
          (strdup b u)
  strdup-Cloned b = record {
    world = renewed u (bytes b);
    result = suc u.brk;
    run = unfold strdup malloc store in ground (arith, r.memory u.brk);
    ready = Ready-renewed r (bytes b);
    grown = Grown-renewed (bytes b);
    at = (
      record { ne_null = omega arith; there = ground arith },
      (λ n. omega arith),
      λ a n e. ground arith,
    );
  }

  pub same-Cloned :
      {A : Type 0} (P : World → A → Type 0) (a : A) → P u a → Cloned ctx req q s xs P u (ok a u)
  same-Cloned P a h = record {
    world = u;
    result = a;
    run = refl;
    ready = r;
    grown = record { kept = λ b c e. e; more = omega arith; system = refl };
    at = h;
  }

  pub clone_stat-Cloned :
      (o : Option Stat)
      → Cloned ctx req q s xs
          (λ v p. StatAt v p o × IsNewOrNull u p × Only u v p)
          u
          (clone_stat o u)
  unfolding clone_stat
  clone_stat-Cloned none = same-Cloned _ null (refl, (λ n. cc), λ a n e. e)
  clone_stat-Cloned (some st) =
      let c = new-Cloned (stat st) in
      record {
        world = c.world;
        result = c.result;
        run = c.run;
        ready = c.ready;
        grown = c.grown;
        at = (c.at.0, (λ n. c.at.1), c.at.2);
      }

  pub clone_string-Cloned :
      (o : Option Bytes)
      → Cloned ctx req q s xs
          (λ v p. BytesAt v p o × IsNewOrNull u p × Only u v p)
          u
          (clone_string o u)
  unfolding clone_string
  clone_string-Cloned none = same-Cloned _ null (refl, (λ n. cc), λ a n e. e)
  clone_string-Cloned (some b) = strdup-Cloned b

  pub clone_value-Cloned :
      (o : Option Bytes) (n : ℤ)
      → Readable o n
      → Cloned ctx req q s xs
          (λ v c.
            BytesAt v c.0 (cut o n) × IsNewOrNull u c.0 × (c.1 ≡ data_len (cut o n)) × Only u v c.0)
          u
          (clone_value o n u)
  unfolding clone_value
  clone_value-Cloned none n h = same-Cloned _ (null, 0) (refl, (λ n. cc), refl, λ a n e. e)
  clone_value-Cloned (some b) (negsuc n) h = absurd h
  clone_value-Cloned (some b) (pos n) h =
      let c = new-Cloned (bytes (take n b)) in
      record {
        world = c.world;
        result = (c.result, n);
        run = ground (arith, c.run);
        ready = c.ready;
        grown = c.grown;
        at = (c.at.0, (λ n. c.at.1), sym (length-take_le n b h), c.at.2);
      }
