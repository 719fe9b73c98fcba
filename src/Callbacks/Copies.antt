-- ===== src/Callbacks/Copies.antt =====
-- The deep copies that the callbacks make: what is copied stands at the pointer that comes back,
-- nothing else changes, and the callback can go on.
use zookeeper_fork.Base.{◌≡◌, refl, Option, some, ℤ, arith}
use zookeeper_fork.Structs.{Ptr, Bytes, Stat, Queue, Cell, bytes, stat, vector, strings, acls}
use zookeeper_fork.Memory.{World, Run, ok, new, Holds, Fresh-apart}
use zookeeper_fork.Queue.Chain.{Nodes}
use zookeeper_fork.Queue.Frame.{allocated}
use zookeeper_fork.Translate.{strdup}
use zookeeper_fork.Translate.Show.{StatAt}
use zookeeper_fork.Translate.Frame.{KeepsData}
use zookeeper_fork.Callbacks.{clone_stat}
use zookeeper_fork.Callbacks.Clones.{Cloned, new-Cloned, strdup-Cloned, clone_stat-Cloned}
use zookeeper_fork.Callbacks.Finish.{Ready, renewed}

-- Every block of `w` is in `v` as it was.
abbrev pub Extends : World → World → Type 0
Extends w v = (a : Ptr) (c : Cell) → w.cell a ≡ some c → v.cell a ≡ some c

pub Extends-renewed :
    {w : World} {ctx q : Ptr} {req : ℤ} {s : Queue} {xs : Nodes}
    → Ready w ctx req q s xs
    → (c : Cell) → Extends w (renewed w c)
Extends-renewed {w} r c a d e = let f = Fresh-apart w a d r.fresh e in ground arith

pub Extends-allocated :
    {w : World} {ctx q : Ptr} {req : ℤ} {s : Queue} {xs : Nodes}
    → Ready w ctx req q s xs
    → (c : Cell) → Extends w (allocated w c)
Extends-allocated {w} r c a d e = let f = Fresh-apart w a d r.fresh e in ground arith

pub Extends-KeepsData : {w v : World} → Extends w v → KeepsData w v
Extends-KeepsData k = record {
  byte = λ a b e. k a (bytes b) e;
  stats = λ a b e. k a (stat b) e;
  vectors = λ a b e. k a (vector b) e;
  arrays = λ a b e. k a (strings b) e;
  acl_arrays = λ a b e. k a (acls b) e;
}

-- `m` ends with a value of which `P` holds, in a world that has all that was there.
pub record Copied {A : Type 0} (ctx : Ptr) (req : ℤ) (q : Ptr) (s : Queue) (xs : Nodes)
    (P : World → A → Type 0) (w : World) (m : Run A) : Type 0 where
  pub world : World
  pub result : A
  pub run : m ≡ ok result world
  pub ready : Ready world ctx req q s xs
  pub kept : Extends w world
  pub at : P world result

module _ {w : World} {ctx q : Ptr} {req : ℤ} {s : Queue} {xs : Nodes}
    (r : Ready w ctx req q s xs) where
  -- What a clone shows, less that it is new.
  forget :
      {A : Type 0} {P Q : World → A → Type 0} {m : Run A}
      → ((v : World) (a : A) → P v a → Q v a)
      → Cloned ctx req q s xs P w m
      → Copied ctx req q s xs Q w m
  forget f c = record {
    world = c.world;
    result = c.result;
    run = c.run;
    ready = c.ready;
    kept = c.grown.kept;
    at = f c.world c.result c.at;
  }

  pub new-Copied : (c : Cell) → Copied ctx req q s xs (λ v p. Holds v p c) w (new c w)
  new-Copied c = forget (λ v p h. h.0) (new-Cloned r c)

  pub strdup-Copied :
      (b : Bytes) → Copied ctx req q s xs (λ v p. Holds v p (bytes b)) w (strdup b w)
  strdup-Copied b = forget (λ v p h. h.0) (strdup-Cloned r b)

  pub same-Copied :
      {A : Type 0} (P : World → A → Type 0) (a : A) → P w a → Copied ctx req q s xs P w (ok a w)
  same-Copied P a h = record {
    world = w;
    result = a;
    run = refl;
    ready = r;
    kept = λ b c e. e;
    at = h;
  }

  pub clone_stat-Copied :
      (o : Option Stat) → Copied ctx req q s xs (λ v p. StatAt v p o) w (clone_stat o w)
  clone_stat-Copied o = forget (λ v p h. h.0) (clone_stat-Cloned r o)
