-- ===== src/Callbacks/Vectors.antt =====
-- The copies of vectors, over what the client's header says of the allocation of one.
use zookeeper_fork.Base.{
  ℕ, suc, ◌≡◌, refl, false, Option, some, none, List, [], ◌∷◌, ◌++◌, ℤ, arith, ◌==◌, length,
  replicate, append_assoc, inl, inr,
}
use zookeeper_fork.Structs.{Ptr, null, Bytes, Queue, Cell, bytes, strings, as_strings, raw}
use zookeeper_fork.Memory.{World, Run, ok, malloc, Holds, Fresh-apart, write_cell}
use zookeeper_fork.Queue.Chain.{Nodes}
use zookeeper_fork.Queue.Frame.{allocated}
use zookeeper_fork.Translate.{Jute, strdup, clone_string_loop, zkrb_clone_string_vector}
use zookeeper_fork.Translate.Show.{StringsAt, Strings, Each}
use zookeeper_fork.Callbacks.Arrays.{IsJute, vector_of, length-snoc, store_string-ok}
use zookeeper_fork.Callbacks.Copies.{Copied, strdup-Copied, same-Copied}
use zookeeper_fork.Callbacks.{clone_strings}
use zookeeper_fork.Callbacks.Finish.{Ready, Ready-renewed, Ready-allocated, Ready-write}

-- The rest of the loop: the pointers that it writes, and the strings at them.
record Filled (ctx : Ptr) (req : ℤ) (q : Ptr) (s : Queue) (xs : Nodes) (dst items : Ptr) (n : ℕ)
    (pre : List Ptr) (src : List Bytes) (w : World) (m : Run (Unit {0})) : Type 0 where
  world : World
  ptrs : List Ptr
  run : m ≡ ok tt world
  ready : Ready world ctx req q s xs
  vec : Holds world dst (vector_of n items)
  arr : Holds world items (strings (pre ++ ptrs))
  each : Each world ptrs src
  kept : (a : Ptr) (c : Cell) → (a == items) ≡ false → w.cell a ≡ some c → world.cell a ≡ some c

-- One round: the string `b` is copied to `p` and its address written behind `pre`.
module _ {ctx q : Ptr} {req : ℤ} {s : Queue} {xs : Nodes} {dst items : Ptr} {n : ℕ} {w : World}
    (pre rest : List Ptr) (b : Bytes)
    (c : Copied ctx req q s xs (λ v p. Holds v p (bytes b)) w (strdup b w))
    (v : Holds w dst (vector_of n items)) (a : Holds w items (strings (pre ++ null ∷ rest))) where
  vec_kept : Holds c.world dst (vector_of n items)
  vec_kept = record { ne_null = v.ne_null; there = c.kept dst _ v.there }

  arr_kept : Holds c.world items (strings (pre ++ null ∷ rest))
  arr_kept = record { ne_null = a.ne_null; there = c.kept items _ a.there }

  abbrev stored : World
  stored = write_cell c.world items (some (strings (pre ++ c.result ∷ rest)))

  apart :
      (d : Ptr) (e : Cell) → c.world.cell d ≡ some e → as_strings e ≡ none → (d == items) ≡ false
  apart d e h p = let g = arr_kept.there in ground arith

  kept_stored :
      (d : Ptr) (e : Cell) → (d == items) ≡ false → c.world.cell d ≡ some e → stored.cell d ≡ some e
  kept_stored d e ne h = rw ne h

  stored-Ready : Ready stored ctx req q s xs
  stored-Ready = Ready-write c.ready items _ _ arr_kept.there refl refl refl

  stored-vec : Holds stored dst (vector_of n items)
  stored-vec = record {
    ne_null = v.ne_null;
    there = kept_stored dst _ (apart dst _ vec_kept.there refl) vec_kept.there;
  }

  stored-arr : Holds stored items (strings ((pre ++ c.result ∷ []) ++ rest))
  stored-arr =
      rw (append_assoc pre (c.result ∷ []) rest)
        (record { ne_null = a.ne_null; there = ground arith })

  Filled-cons :
      {src : List Bytes}
      → Filled ctx req q s xs dst items n
          (pre ++ c.result ∷ [])
          src
          stored
          (clone_string_loop dst (length (pre ++ c.result ∷ [])) src stored)
      → Filled ctx req q s xs dst items n pre
          (b ∷ src)
          w
          (clone_string_loop dst (length pre) (b ∷ src) w)
  unfolding clone_string_loop
  Filled-cons next = record {
    world = next.world;
    ptrs = c.result ∷ next.ptrs;
    run =
        rw
          (
            c.run,
            store_string-ok pre rest null c.result vec_kept arr_kept,
            ← length-snoc pre c.result,
          )
          next.run;
    ready = next.ready;
    vec = next.vec;
    arr = rw (← append_assoc pre (c.result ∷ []) next.ptrs) next.arr;
    each = (
      record {
        ne_null = c.at.ne_null;
        there =
            next.kept c.result (bytes b) (apart c.result (bytes b) c.at.there refl) (
              kept_stored c.result (bytes b) (apart c.result (bytes b) c.at.there refl) c.at.there);
      },
      next.each,
    );
    kept = λ d e ne h. next.kept d e ne (kept_stored d e ne (c.kept d e h));
  }

clone_string_loop-Filled :
    {ctx q : Ptr} {req : ℤ} {s : Queue} {xs : Nodes} {dst items : Ptr} {n : ℕ} (w : World)
    (pre : List Ptr) (src : List Bytes)
    → Ready w ctx req q s xs
    → Holds w dst (vector_of n items)
    → Holds w items (strings (pre ++ replicate (length src) null))
    → Filled ctx req q s xs dst items n pre src w (clone_string_loop dst (length pre) src w)
unfolding clone_string_loop
clone_string_loop-Filled w pre [] r v a = record {
  world = w;
  ptrs = [];
  run = refl;
  ready = r;
  vec = v;
  arr = a;
  each = tt;
  kept = λ b c ne e. e;
}
clone_string_loop-Filled w pre (b ∷ src) r v a =
    let c = strdup-Copied r b in
    let rest = replicate (length src) null in
    Filled-cons pre rest b c v a (
      clone_string_loop-Filled (stored pre rest b c v a) (pre ++ c.result ∷ []) src
        (stored-Ready pre rest b c v a) (stored-vec pre rest b c v a) (stored-arr pre rest b c v a))

module _ (jute : Jute) (lawful : IsJute jute) {w : World} {ctx q : Ptr} {req : ℤ} {s : Queue}
    {xs : Nodes} (r : Ready w ctx req q s xs) where
  malloc-ok : malloc w ≡ ok (suc w.brk) (allocated w raw)
  unfolding malloc
  malloc-ok = ground (arith, r.memory w.brk)

  dst_at : Holds (allocated w raw) (suc w.brk) raw
  dst_at = record { ne_null = omega arith; there = ground arith }

  unused :
      (a : Ptr) (c : Cell)
      → w.cell a ≡ some c
      → (a == suc w.brk) ≡ false × ((a == suc (suc w.brk)) ≡ false)
  unused a c e =
      let f = Fresh-apart w a c r.fresh e in
      let g = r.fresh (suc (suc w.brk)) (omega arith) in ground arith

  clone_string_nil :
      Copied ctx req q s xs (λ v p. Strings v p []) w (zkrb_clone_string_vector jute [] w)
  clone_string_nil = record {
    world = write_cell (allocated w raw) (suc w.brk) (some (vector_of 0 null));
    result = suc w.brk;
    run =
        unfold zkrb_clone_string_vector clone_string_loop in
        rw (malloc-ok, lawful.string_none _ _ _ dst_at) refl;
    ready = Ready-renewed r (vector_of 0 null);
    kept = λ a c e. let u = unused a c e in ground arith;
    at = record {
      items = null;
      ptrs = [];
      head = record { ne_null = omega arith; there = ground arith };
      body = inl refl;
      each = tt;
    };
  }

  -- Both blocks of a vector of `suc n` strings, before the loop.
  abbrev blank : ℕ → World
  blank n =
      write_cell (allocated (allocated w raw) (strings (replicate (suc n) null))) (suc w.brk)
        (some (vector_of (suc n) (suc (suc w.brk))))

  blank-Ready : (n : ℕ) → Ready (blank n) ctx req q s xs
  blank-Ready n =
      Ready-write (Ready-allocated (Ready-allocated r raw) (strings (replicate (suc n) null)))
        (suc w.brk) raw _ (ground arith) refl refl refl

  clone_string_cons :
      (b : Bytes) (bs : List Bytes)
      → Copied ctx req q s xs
          (λ v p. Strings v p (b ∷ bs))
          w
          (zkrb_clone_string_vector jute (b ∷ bs) w)
  clone_string_cons b bs = record {
    world = f.world;
    result = suc w.brk;
    run =
        unfold zkrb_clone_string_vector in
        rw (malloc-ok, lawful.string_some _ _ _ (length bs) dst_at (r.memory (suc w.brk)), f.run)
          refl;
    ready = f.ready;
    kept = λ a c e. let u = unused a c e in f.kept a c u.1 (ground arith);
    at = record {
      items = suc (suc w.brk);
      ptrs = f.ptrs;
      head = f.vec;
      body = inr f.arr;
      each = f.each;
    };
  }
    where
      f :
          Filled ctx req q s xs
            (suc w.brk)
            (suc (suc w.brk))
            (length (b ∷ bs))
            []
            (b ∷ bs)
            (blank (length bs))
            (clone_string_loop (suc w.brk) 0 (b ∷ bs) (blank (length bs)))
      f =
          clone_string_loop-Filled (blank (length bs)) [] (b ∷ bs) (blank-Ready (length bs))
            (record { ne_null = omega arith; there = ground arith })
            (record { ne_null = omega arith; there = ground arith })

  pub clone_string_vector-Copied :
      (bs : List Bytes)
      → Copied ctx req q s xs (λ v p. Strings v p bs) w (zkrb_clone_string_vector jute bs w)
  clone_string_vector-Copied [] = clone_string_nil
  clone_string_vector-Copied (b ∷ bs) = clone_string_cons b bs

  pub clone_strings-Copied :
      (o : Option (List Bytes))
      → Copied ctx req q s xs (λ v p. StringsAt v p o) w (clone_strings jute o w)
  unfolding clone_strings
  clone_strings-Copied none = same-Copied r _ null refl
  clone_strings-Copied (some bs) = clone_string_vector-Copied bs
