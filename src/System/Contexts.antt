-- ===== src/System/Contexts.antt =====
-- The contexts that the client has: each stands in memory with its request's number, and none twice.
use zookeeper_fork.Base.{
  ℕ, zero, suc, ◌≡◌, refl, ap, Bool, true, false, some, none, List, [], ◌∷◌, ◌++◌, ℤ, map,
  get_elem?, arith, ◌==◌, ◌||◌,
}
use zookeeper_fork.Structs.{Ptr}
use zookeeper_fork.Memory.{World, Holds}
use zookeeper_fork.Callbacks.Finish.{context}
use zookeeper_fork.System.{Pending, delete_at}

abbrev pub numbers : Pending → List ℤ
numbers = map (λ c. c.1)

abbrev pub holds : Ptr → Pending → Bool
holds a [] = false
holds a ((c, _) ∷ ps) = (a == c) || holds a ps

abbrev pub Contexts : World → Ptr → Pending → Type 0
Contexts w q [] = Unit {0}
Contexts w q ((c, n) ∷ ps) = Holds w c (context n q) × (holds c ps ≡ false) × Contexts w q ps

pub holds-append :
    (a c : Ptr) (n : ℤ) (ps : Pending) → holds a (ps ++ (c, n) ∷ []) ≡ (holds a ps || (a == c))
holds-append a c n [] = ground arith
holds-append a c n ((b, _) ∷ ps) = ground (arith, holds-append a c n ps)

pub holds-deleted :
    (ps : Pending) (i : ℕ) (a : Ptr) → holds a ps ≡ false → holds a (delete_at ps i) ≡ false
holds-deleted [] i a e = refl
holds-deleted ((b, m) ∷ ps) zero a e = ground arith
holds-deleted ((b, m) ∷ ps) (suc i) a e =
    let r = holds-deleted ps i a (ground arith) in ground arith

-- Only the context number `i` is missing.
pub holds-only :
    (ps : Pending) (i : ℕ) (b : Ptr) {a : Ptr} {n : ℤ}
    → get_elem? ps i ≡ some (a, n)
    → (b == a) ≡ false
    → holds b (delete_at ps i) ≡ false
    → holds b ps ≡ false
holds-only [] i b e h o = refl
holds-only ((c, m) ∷ ps) zero b {a} e h o = let x : c ≡ a = cc in ground arith
holds-only ((c, m) ∷ ps) (suc i) b e h o =
    let r = holds-only ps i b e h (ground arith) in ground arith

module _ (w : World) (q : Ptr) where
  -- Each pending context that `u` has still is one.
  pub Contexts-kept :
      (u : World) (ps : Pending)
      → ((a : Ptr) (n : ℤ)
          → holds a ps ≡ true
          → w.cell a ≡ some (context n q)
          → u.cell a ≡ some (context n q))
      → Contexts w q ps
      → Contexts u q ps
  Contexts-kept u [] k c = tt
  Contexts-kept u ((a, n) ∷ ps) k (h, out, c) = (
    record { ne_null = h.ne_null; there = k a n (ground arith) h.there },
    out,
    Contexts-kept u ps (λ b m o e. k b m (ground arith) e) c,
  )

  pub Contexts-snoc :
      (ps : Pending) (a : Ptr) (n : ℤ)
      → Contexts w q ps
      → Holds w a (context n q)
      → holds a ps ≡ false
      → Contexts w q (ps ++ (a, n) ∷ [])
  Contexts-snoc [] a n c h out = (h, refl, tt)
  Contexts-snoc ((b, m) ∷ ps) a n c h out = (
    c.0,
    (let e = holds-append b a n ps in let o = c.1 in ground arith),
    Contexts-snoc ps a n c.2 h (ground arith),
  )

  pub Contexts-at :
      (ps : Pending) (i : ℕ) {a : Ptr} {n : ℤ}
      → Contexts w q ps
      → get_elem? ps i ≡ some (a, n)
      → Holds w a (context n q) × (holds a ps ≡ true)
  Contexts-at [] i c e = cc
  Contexts-at ((b, m) ∷ ps) zero {a} {n} c e =
      let h = c.0 in
      (
        record { ne_null = λ z. h.ne_null (let x = e in cc); there = let t = h.there in cc },
        ground arith,
      )
  Contexts-at ((b, m) ∷ ps) (suc i) c e = let (h, o) = Contexts-at ps i c.2 e in (h, ground arith)

  -- A context in use is none that is not.
  pub none-holds : (ps : Pending) (a : Ptr) → Contexts w q ps → w.cell a ≡ none → holds a ps ≡ false
  none-holds [] a c e = refl
  none-holds ((b, m) ∷ ps) a c e =
      let r = none-holds ps a c.2 e in let h = c.0.there in ground arith

  -- Without the context number `i`, of which `u` need have nothing.
  pub Contexts-deleted :
      (u : World) (ps : Pending) (i : ℕ) {a : Ptr} {n : ℤ}
      → Contexts w q ps
      → get_elem? ps i ≡ some (a, n)
      → ((b : Ptr) (m : ℤ)
          → (b == a) ≡ false
          → w.cell b ≡ some (context m q)
          → u.cell b ≡ some (context m q))
      → Contexts u q (delete_at ps i)
  Contexts-deleted u [] i c e k = cc
  Contexts-deleted u ((b, m) ∷ ps) zero {a} c e k =
      Contexts-kept u ps (λ d o y x. k d o (let z = c.1 in ground arith) x) c.2
  Contexts-deleted u ((b, m) ∷ ps) (suc i) {a} c e k = (
    record {
      ne_null = c.0.ne_null;
      there = k b m (let y = Contexts-at ps i c.2 e in let z = c.1 in ground arith) c.0.there;
    },
    holds-deleted ps i b c.1,
    Contexts-deleted u ps i c.2 e k,
  )

pub numbers-at :
    (ps : Pending) (i : ℕ) {a : Ptr} {n : ℤ}
    → get_elem? ps i ≡ some (a, n)
    → get_elem? (numbers ps) i ≡ some n
numbers-at [] i e = cc
numbers-at ((b, m) ∷ ps) zero e = cc
numbers-at ((b, m) ∷ ps) (suc i) e = numbers-at ps i e

pub numbers-none : (ps : Pending) (i : ℕ) → get_elem? ps i ≡ none → get_elem? (numbers ps) i ≡ none
numbers-none [] i e = refl
numbers-none ((b, m) ∷ ps) zero e = cc
numbers-none ((b, m) ∷ ps) (suc i) e = numbers-none ps i e

pub numbers-deleted : (ps : Pending) (i : ℕ) → numbers (delete_at ps i) ≡ delete_at (numbers ps) i
numbers-deleted [] i = refl
numbers-deleted ((b, m) ∷ ps) zero = refl
numbers-deleted ((b, m) ∷ ps) (suc i) = ap (◌∷◌ m) (numbers-deleted ps i)

pub numbers-append : (ps qs : Pending) → numbers (ps ++ qs) ≡ numbers ps ++ numbers qs
numbers-append [] qs = refl
numbers-append ((b, m) ∷ ps) qs = ap (◌∷◌ m) (numbers-append ps qs)
