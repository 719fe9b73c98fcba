-- ===== src/Requests/AclVectors.antt =====
-- The ACLs that `method_create` and `method_set_acl` pass on: what `zkrb_ruby_to_aclvector` builds, and the
-- way back to Ruby.
use zookeeper_fork.Base.{
  ℕ, suc, ◌≡◌, refl, ap, some, List, [], ◌∷◌, ◌++◌, ℤ, arith, length, map, replicate, take, fits,
  ltb, ◌^◌, Option, true, inl, inr,
}
use zookeeper_fork.Structs.{Bytes, Ptr, null, Acl, Queue, raw, acls, bytes}
use zookeeper_fork.Requests.Bounds.{to_int-pos}
use zookeeper_fork.Memory.{World, Cmd, Run, ok, Holds, write_cell}
use zookeeper_fork.Queue.Chain.{Nodes}
use zookeeper_fork.Queue.Frame.{allocated}
use zookeeper_fork.Translate.{Jute, AclValue, zkrb_acl_vector_to_ruby}
use zookeeper_fork.Translate.FromRuby.{
  RubyAcl, c_string, copy_string, zkrb_ruby_to_id, zkrb_ruby_to_acl, ruby_acl_loop,
  zkrb_ruby_to_aclvector,
}
use zookeeper_fork.Translate.Show.{Acls, acls_value, zkrb_acl_vector_to_ruby-map}
use zookeeper_fork.Callbacks.Arrays.{IsJute, vector_of, no_acl, length-snoc}
use zookeeper_fork.Callbacks.AclRounds.{
  AclCopied, made_acl, both-AclCopied, Filled, Filled-cons, stored, stored-Ready, stored-vec,
  stored-arr,
}
use zookeeper_fork.Callbacks.AclVectors.{malloc-ok, dst_at, blank, blank-Ready}
use zookeeper_fork.Callbacks.Copies.{Copied, new-Copied}
use zookeeper_fork.Callbacks.Finish.{Ready, Ready-renewed}

-- An ACL of Ruby whose Id has two strings.
abbrev pub of_strings : AclValue → RubyAcl
of_strings a = record {
  perms = some a.perms;
  id = record { scheme = some a.scheme; ident = some a.ident };
}

length-map : {A B : Type 0} (f : A → B) (l : List A) → length (map f l) ≡ length l
length-map f [] = refl
length-map f (x ∷ l) = ap suc (length-map f l)

take-map : {A B : Type 0} (f : A → B) (l : List A) → take (length l) (map f l) ≡ map f l
take-map f [] = refl
take-map f (x ∷ l) = ap (◌∷◌ (f x)) (take-map f l)

-- Each string up to its first NUL.
abbrev pub cut_acl : AclValue → AclValue
cut_acl a = record { perms = a.perms; scheme = c_string a.scheme; ident = c_string a.ident }

abbrev copied : Bytes → Cmd Ptr
copied b = copy_string (some b)

copied-Copied :
    {ctx q : Ptr} {req : ℤ} {s : Queue} {xs : Nodes} {w : World} (r : Ready w ctx req q s xs)
    (b : Bytes)
    → Copied ctx req q s xs (λ v p. Holds v p (bytes (c_string b))) w (copied b w)
unfolding copy_string
copied-Copied r b = new-Copied r (bytes (c_string b))

ruby_to_acl-run :
    {ctx q : Ptr} {req : ℤ} {s : Queue} {xs : Nodes} {w : World} (b : AclValue)
    (c : AclCopied ctx req q s xs (copied b.scheme) (copied b.ident) (cut_acl b) w)
    → fits 31 b.perms ≡ true
    → zkrb_ruby_to_acl (of_strings b) w ≡ ok (some (made_acl (cut_acl b) c)) c.world
unfolding zkrb_ruby_to_acl zkrb_ruby_to_id
ruby_to_acl-run b c f = rw (f, c.run_scheme, c.run_ident) refl

-- The permissions of each are an `int`.
abbrev pub AllFit : List AclValue → Type 0
AllFit [] = Unit {0}
AllFit (a ∷ l) = (fits 31 a.perms ≡ true) × AllFit l

ruby_acl_loop-Filled :
    {ctx q : Ptr} {req : ℤ} {s : Queue} {xs : Nodes} {dst items : Ptr} {n : ℕ} (w : World)
    (pre : List Acl) (src : List AclValue)
    → AllFit src
    → Ready w ctx req q s xs
    → Holds w dst (vector_of n items)
    → Holds w items (acls (pre ++ replicate (length src) no_acl))
    → Filled
        (some tt)
        ctx
        req
        q
        s
        xs
        dst
        items
        n
        pre
        (map cut_acl src)
        w
        (ruby_acl_loop dst (length pre) (map of_strings src) w)
unfolding ruby_acl_loop
ruby_acl_loop-Filled w pre [] f r v a = record {
  world = w;
  elems = [];
  run = refl;
  ready = r;
  vec = v;
  arr = a;
  each = tt;
  kept = λ b c ne e. e;
}
ruby_acl_loop-Filled {dst} w pre (b ∷ src) (f, g) r v a =
    let d = copied-Copied r b.scheme in
    let c =
      both-AclCopied {m = copied b.scheme} {n = copied b.ident} (cut_acl b) d
        (copied-Copied d.ready b.ident) in
    let rest = replicate (length src) no_acl in
    let now = pre ++ made_acl (cut_acl b) c ∷ [] in
    Filled-cons pre rest (cut_acl b) c v a (ruby_acl_loop dst (length now) (map of_strings src)) _
      (rw (ruby_to_acl-run b c f, ← length-snoc pre (made_acl (cut_acl b) c)) refl)
      (ruby_acl_loop-Filled (stored pre rest (cut_acl b) c v a) now src g
        (stored-Ready pre rest (cut_acl b) c v a) (stored-vec pre rest (cut_acl b) c v a)
        (stored-arr pre rest (cut_acl b) c v a))

module _ (jute : Jute) (lawful : IsJute jute) {w : World} {ctx q : Ptr} {req : ℤ} {s : Queue}
    {xs : Nodes} (r : Ready w ctx req q s xs) where
  -- The vector `p`, without an exception.
  record Built (src : List AclValue) (m : Run (Option Ptr)) : Type 0 where
    pub world : World
    pub result : Ptr
    pub run : m ≡ ok (some result) world
    pub ready : Ready world ctx req q s xs
    pub at : Acls world result src

  aclvector-nil : Built [] (zkrb_ruby_to_aclvector jute [] w)
  unfolding zkrb_ruby_to_aclvector ruby_acl_loop
  aclvector-nil = record {
    world = write_cell (allocated w raw) (suc w.brk) (some (vector_of 0 null));
    result = suc w.brk;
    run = rw (malloc-ok jute lawful r, lawful.acl_none _ _ _ (dst_at jute lawful r)) refl;
    ready = Ready-renewed r (vector_of 0 null);
    at = record {
      items = null;
      elems = [];
      head = record { ne_null = omega arith; there = ground arith };
      body = inl refl;
      each = tt;
    };
  }

  aclvector-cons :
      (b : AclValue) (bs : List AclValue)
      → AllFit (b ∷ bs)
      → ltb (length (b ∷ bs)) (2 ^ 31) ≡ true
      → Built (map cut_acl (b ∷ bs)) (zkrb_ruby_to_aclvector jute (map of_strings (b ∷ bs)) w)
  unfolding zkrb_ruby_to_aclvector
  aclvector-cons b bs fit short = record {
    world = f.world;
    result = suc w.brk;
    run =
        rw
          (
            malloc-ok jute lawful r,
            length-map of_strings bs,
            to_int-pos (length (b ∷ bs)) short,
            take-map of_strings bs,
            lawful.acl_some _ _ _ (length bs) (dst_at jute lawful r) (r.memory (suc w.brk)),
            f.run,
          )
          refl;
    ready = f.ready;
    at = record {
      items = suc (suc w.brk);
      elems = f.elems;
      head = rw (length-map cut_acl bs) f.vec;
      body = inr f.arr;
      each = f.each;
    };
  }
    where
      f :
          Filled
            (some tt)
            ctx
            req
            q
            s
            xs
            (suc w.brk)
            (suc (suc w.brk))
            (length (b ∷ bs))
            []
            (map cut_acl (b ∷ bs))
            (blank jute lawful r (length bs))
            (ruby_acl_loop
              (suc w.brk)
              0
              (map of_strings (b ∷ bs))
              (blank jute lawful r (length bs)))
      f =
          ruby_acl_loop-Filled (blank jute lawful r (length bs)) [] (b ∷ bs) fit
            (blank-Ready jute lawful r (length bs))
            (record { ne_null = omega arith; there = ground arith })
            (record { ne_null = omega arith; there = ground arith })

  aclvector-Built :
      (bs : List AclValue)
      → AllFit bs
      → ltb (length bs) (2 ^ 31) ≡ true
      → Built (map cut_acl bs) (zkrb_ruby_to_aclvector jute (map of_strings bs) w)
  aclvector-Built [] fit short = aclvector-nil
  aclvector-Built (b ∷ bs) fit short = aclvector-cons b bs fit short

  -- A list of less than 2^31 ACLs of Ruby, each with permissions that are an `int`, a scheme and an id, that goes to C by `zkrb_ruby_to_aclvector`
  -- and back by `zkrb_acl_vector_to_ruby` comes out in order with the same permissions, each string
  -- cut at its first NUL. It does so beside a context and a queue, which stay well-formed, if memory
  -- lasts and vectors are allocated as documented.
  pub aclvector-round_trip :
      (bs : List AclValue)
      → AllFit bs
      → ltb (length bs) (2 ^ 31) ≡ true
      → (v : World) × (p : Ptr) × (zkrb_ruby_to_aclvector jute (map of_strings bs) w
          ≡ ok (some p) v)
        × (zkrb_acl_vector_to_ruby p v ≡ ok (acls_value (map cut_acl bs)) v)
        × Ready v ctx req q s xs
  aclvector-round_trip bs fit short =
      let c = aclvector-Built bs fit short in
      (c.world, c.result, c.run, zkrb_acl_vector_to_ruby-map c.at, c.ready)
