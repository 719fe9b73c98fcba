-- ===== src/Callbacks/AclVectors.antt =====
-- The copies of vectors of ACLs, over what the client's header says of the allocation of one.
use zookeeper_fork.Base.{
  ℕ, suc, ◌≡◌, refl, false, Option, some, none, List, [], ◌∷◌, ◌++◌, ℤ, arith, ◌==◌, length,
  replicate, inl, inr,
}
use zookeeper_fork.Structs.{Ptr, null, Acl, Queue, Cell, acls, raw}
use zookeeper_fork.Memory.{World, ok, malloc, Holds, Fresh-apart, write_cell}
use zookeeper_fork.Queue.Chain.{Nodes}
use zookeeper_fork.Queue.Frame.{allocated}
use zookeeper_fork.Translate.{Jute, AclValue, strdup, clone_acl_loop, zkrb_clone_acl_vector}
use zookeeper_fork.Translate.Show.{Acls, AclsAt}
use zookeeper_fork.Callbacks.Arrays.{IsJute, vector_of, no_acl, length-snoc}
use zookeeper_fork.Callbacks.AclRounds.{
  made_acl, both-AclCopied, Filled, Filled-cons, stored, stored-Ready, stored-vec, stored-arr,
}
use zookeeper_fork.Callbacks.Copies.{Copied, strdup-Copied, same-Copied}
use zookeeper_fork.Callbacks.{clone_acls}
use zookeeper_fork.Callbacks.Finish.{Ready, Ready-renewed, Ready-allocated, Ready-write}

clone_acl_loop-Filled :
    {ctx q : Ptr} {req : ℤ} {s : Queue} {xs : Nodes} {dst items : Ptr} {n : ℕ} (w : World)
    (pre : List Acl) (src : List AclValue)
    → Ready w ctx req q s xs
    → Holds w dst (vector_of n items)
    → Holds w items (acls (pre ++ replicate (length src) no_acl))
    → Filled tt ctx req q s xs dst items n pre src w (clone_acl_loop dst (length pre) src w)
unfolding clone_acl_loop
clone_acl_loop-Filled w pre [] r v a = record {
  world = w;
  elems = [];
  run = refl;
  ready = r;
  vec = v;
  arr = a;
  each = tt;
  kept = λ b c ne e. e;
}
clone_acl_loop-Filled {dst} w pre (b ∷ src) r v a =
    let c =
      (let d = strdup-Copied r b.scheme in
        both-AclCopied {m = strdup b.scheme} {n = strdup b.ident} b d
          (strdup-Copied d.ready b.ident)) in
    let rest = replicate (length src) no_acl in
    let now = pre ++ made_acl b c ∷ [] in
    Filled-cons pre rest b c v a (clone_acl_loop dst (length now) src) _
      (rw (c.run_scheme, c.run_ident, ← length-snoc pre (made_acl b c)) refl)
      (clone_acl_loop-Filled (stored pre rest b c v a) now src (stored-Ready pre rest b c v a)
        (stored-vec pre rest b c v a) (stored-arr pre rest b c v a))

module _ (jute : Jute) (lawful : IsJute jute) {w : World} {ctx q : Ptr} {req : ℤ} {s : Queue}
    {xs : Nodes} (r : Ready w ctx req q s xs) where
  pub malloc-ok : malloc w ≡ ok (suc w.brk) (allocated w raw)
  unfolding malloc
  malloc-ok = ground (arith, r.memory w.brk)

  pub dst_at : Holds (allocated w raw) (suc w.brk) raw
  dst_at = record { ne_null = omega arith; there = ground arith }

  pub unused :
      (a : Ptr) (c : Cell)
      → w.cell a ≡ some c
      → (a == suc w.brk) ≡ false × ((a == suc (suc w.brk)) ≡ false)
  unused a c e =
      let f = Fresh-apart w a c r.fresh e in
      let g = r.fresh (suc (suc w.brk)) (omega arith) in ground arith

  clone_acl_nil : Copied ctx req q s xs (λ v p. Acls v p []) w (zkrb_clone_acl_vector jute [] w)
  clone_acl_nil = record {
    world = write_cell (allocated w raw) (suc w.brk) (some (vector_of 0 null));
    result = suc w.brk;
    run =
        unfold zkrb_clone_acl_vector clone_acl_loop in
        rw (malloc-ok, lawful.acl_none _ _ _ dst_at) refl;
    ready = Ready-renewed r (vector_of 0 null);
    kept = λ a c e. let u = unused a c e in ground arith;
    at = record {
      items = null;
      elems = [];
      head = record { ne_null = omega arith; there = ground arith };
      body = inl refl;
      each = tt;
    };
  }

  -- Both blocks of a vector of `suc n` strings, before the loop.
  abbrev pub blank : ℕ → World
  blank n =
      write_cell (allocated (allocated w raw) (acls (replicate (suc n) no_acl))) (suc w.brk)
        (some (vector_of (suc n) (suc (suc w.brk))))

  pub blank-Ready : (n : ℕ) → Ready (blank n) ctx req q s xs
  blank-Ready n =
      Ready-write (Ready-allocated (Ready-allocated r raw) (acls (replicate (suc n) no_acl)))
        (suc w.brk) raw _ (ground arith) refl refl refl

  clone_acl_cons :
      (b : AclValue) (bs : List AclValue)
      → Copied ctx req q s xs (λ v p. Acls v p (b ∷ bs)) w (zkrb_clone_acl_vector jute (b ∷ bs) w)
  clone_acl_cons b bs = record {
    world = f.world;
    result = suc w.brk;
    run =
        unfold zkrb_clone_acl_vector in
        rw (malloc-ok, lawful.acl_some _ _ _ (length bs) dst_at (r.memory (suc w.brk)), f.run) refl;
    ready = f.ready;
    kept = λ a c e. let u = unused a c e in f.kept a c u.1 (ground arith);
    at = record {
      items = suc (suc w.brk);
      elems = f.elems;
      head = f.vec;
      body = inr f.arr;
      each = f.each;
    };
  }
    where
      f :
          Filled tt ctx req q s xs
            (suc w.brk)
            (suc (suc w.brk))
            (length (b ∷ bs))
            []
            (b ∷ bs)
            (blank (length bs))
            (clone_acl_loop (suc w.brk) 0 (b ∷ bs) (blank (length bs)))
      f =
          clone_acl_loop-Filled (blank (length bs)) [] (b ∷ bs) (blank-Ready (length bs))
            (record { ne_null = omega arith; there = ground arith })
            (record { ne_null = omega arith; there = ground arith })

  pub clone_acl_vector-Copied :
      (bs : List AclValue)
      → Copied ctx req q s xs (λ v p. Acls v p bs) w (zkrb_clone_acl_vector jute bs w)
  clone_acl_vector-Copied [] = clone_acl_nil
  clone_acl_vector-Copied (b ∷ bs) = clone_acl_cons b bs

  pub clone_acls-Copied :
      (o : Option (List AclValue))
      → Copied ctx req q s xs (λ v p. AclsAt v p o) w (clone_acls jute o w)
  unfolding clone_acls
  clone_acls-Copied none = same-Copied r _ null refl
  clone_acls-Copied (some bs) = clone_acl_vector-Copied bs
