-- ===== src/Callbacks/AclRounds.antt =====
-- A vector of ACLs filled element by element, whatever copies the two strings of each: one round of
-- such a loop.
use zookeeper_fork.Base.{
  ◌∙◌, ℕ, ◌≡◌, refl, false, some, none, List, [], ◌∷◌, ◌++◌, ℤ, arith, ◌==◌, length, append_assoc,
}
use zookeeper_fork.Structs.{Ptr, Bytes, Acl, Queue, Cell, bytes, acls, as_acls}
use zookeeper_fork.Memory.{Cmd, and_then, World, Run, ok, Holds, write_cell}
use zookeeper_fork.Queue.Chain.{Nodes}
use zookeeper_fork.Translate.{store_acl, AclValue}
use zookeeper_fork.Translate.Show.{EachAcl}
use zookeeper_fork.Callbacks.Arrays.{vector_of, no_acl, store_acl-ok}
use zookeeper_fork.Callbacks.Copies.{Copied, Extends}
use zookeeper_fork.Callbacks.Finish.{Ready, Ready-write}

-- The two strings of an ACL, copied by the two commands.
pub record AclCopied (ctx : Ptr) (req : ℤ) (q : Ptr) (s : Queue) (xs : Nodes)
    (copy_scheme copy_ident : Cmd Ptr) (b : AclValue) (w : World) : Type 0 where
  pub half : World
  pub world : World
  pub scheme : Ptr
  pub ident : Ptr
  pub run_scheme : copy_scheme w ≡ ok scheme half
  pub run_ident : copy_ident half ≡ ok ident world
  pub ready : Ready world ctx req q s xs
  pub kept : Extends w world
  pub at_scheme : Holds world scheme (bytes b.scheme)
  pub at_ident : Holds world ident (bytes b.ident)

module _ {ctx q : Ptr} {req : ℤ} {s : Queue} {xs : Nodes} {m n : Cmd Ptr} {w : World}
    (b : AclValue) where
  abbrev pub made_acl : AclCopied ctx req q s xs m n b w → Acl
  made_acl c = record { perms = b.perms; scheme = c.scheme; ident = c.ident }

  pub both-AclCopied :
      (c : Copied ctx req q s xs (λ v p. Holds v p (bytes b.scheme)) w (m w))
      → Copied ctx req q s xs (λ v p. Holds v p (bytes b.ident)) c.world (n c.world)
      → AclCopied ctx req q s xs m n b w
  both-AclCopied c d = record {
    half = c.world;
    world = d.world;
    scheme = c.result;
    ident = d.result;
    run_scheme = c.run;
    run_ident = d.run;
    ready = d.ready;
    kept = λ a e h. d.kept a e (c.kept a e h);
    at_scheme = record { ne_null = c.at.ne_null; there = d.kept c.result _ c.at.there };
    at_ident = d.at;
  }

-- The rest of the loop: the pointers that it writes, and the strings at them.
pub record Filled {R : Type 0} (res : R) (ctx : Ptr) (req : ℤ) (q : Ptr) (s : Queue) (xs : Nodes)
    (dst items : Ptr) (n : ℕ) (pre : List Acl) (src : List AclValue) (w : World) (m : Run R)
    : Type 0 where
  pub world : World
  pub elems : List Acl
  pub run : m ≡ ok res world
  pub ready : Ready world ctx req q s xs
  pub vec : Holds world dst (vector_of n items)
  pub arr : Holds world items (acls (pre ++ elems))
  pub each : EachAcl world elems src
  pub kept : (a : Ptr) (c : Cell) → (a == items) ≡ false → w.cell a ≡ some c → world.cell a ≡ some c

-- One round: the string `b` is copied to `p` and its address written behind `pre`.
module _ {ctx q : Ptr} {req : ℤ} {s : Queue} {xs : Nodes} {dst items : Ptr} {n : ℕ} {m k : Cmd Ptr}
    {w : World} (pre rest : List Acl) (b : AclValue) (c : AclCopied ctx req q s xs m k b w)
    (v : Holds w dst (vector_of n items)) (a : Holds w items (acls (pre ++ no_acl ∷ rest))) where
  vec_kept : Holds c.world dst (vector_of n items)
  vec_kept = record { ne_null = v.ne_null; there = c.kept dst _ v.there }

  arr_kept : Holds c.world items (acls (pre ++ no_acl ∷ rest))
  arr_kept = record { ne_null = a.ne_null; there = c.kept items _ a.there }

  abbrev pub stored : World
  stored = write_cell c.world items (some (acls (pre ++ made_acl b c ∷ rest)))

  apart : (d : Ptr) (e : Cell) → c.world.cell d ≡ some e → as_acls e ≡ none → (d == items) ≡ false
  apart d e h p = let g = arr_kept.there in ground arith

  kept_stored :
      (d : Ptr) (e : Cell) → (d == items) ≡ false → c.world.cell d ≡ some e → stored.cell d ≡ some e
  kept_stored d e ne h = rw ne h

  pub stored-Ready : Ready stored ctx req q s xs
  stored-Ready = Ready-write c.ready items _ _ arr_kept.there refl refl refl

  pub stored-vec : Holds stored dst (vector_of n items)
  stored-vec = record {
    ne_null = v.ne_null;
    there = kept_stored dst _ (apart dst _ vec_kept.there refl) vec_kept.there;
  }

  pub stored-arr : Holds stored items (acls ((pre ++ made_acl b c ∷ []) ++ rest))
  stored-arr =
      rw (append_assoc pre (made_acl b c ∷ []) rest)
        (record { ne_null = a.ne_null; there = ground arith })

  -- `loop` is what comes after the write.
  pub Filled-cons :
      {R : Type 0} {res : R} {src : List AclValue} (loop : Cmd R) (m : Run R)
      → m ≡ and_then (store_acl dst (length pre) (made_acl b c) c.world) (λ _. loop)
      → Filled res ctx req q s xs dst items n (pre ++ made_acl b c ∷ []) src stored (loop stored)
      → Filled res ctx req q s xs dst items n pre (b ∷ src) w m
  Filled-cons loop m e next = record {
    world = next.world;
    elems = made_acl b c ∷ next.elems;
    run = e ∙ rw (store_acl-ok pre rest no_acl (made_acl b c) vec_kept arr_kept) next.run;
    ready = next.ready;
    vec = next.vec;
    arr = rw (← append_assoc pre (made_acl b c ∷ []) next.elems) next.arr;
    each = (refl, later c.at_scheme, later c.at_ident, next.each);
    kept = λ d e ne h. next.kept d e ne (kept_stored d e ne (c.kept d e h));
  }
    where
      later : {p : Ptr} {bs : Bytes} → Holds c.world p (bytes bs) → Holds next.world p (bytes bs)
      later {p} {bs} h =
          let o = apart p (bytes bs) h.there refl in
          record {
            ne_null = h.ne_null;
            there = next.kept p (bytes bs) o (kept_stored p (bytes bs) o h.there);
          }
