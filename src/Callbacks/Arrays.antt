-- ===== src/Callbacks/Arrays.antt =====
-- What is relied on of the client's vectors: the allocation of one, and writes to its array.
use zookeeper_fork.Base.{
  ℕ, suc, ◌≡◌, refl, ap, some, List, [], ◌∷◌, ◌++◌, pos, length, set, get_elem?, replicate, false,
}
use zookeeper_fork.Structs.{
  Ptr, null, Acl, Cell, vector, strings, acls, as_vector, as_strings, as_acls,
}
use zookeeper_fork.Memory
use zookeeper_fork.Memory.{World, ok, Holds, write_cell}
use zookeeper_fork.Queue.Frame.{allocated}
use zookeeper_fork.Translate.{Jute, store_string, store_acl}
use zookeeper_fork.Translate.Show.{load_as-ok}

abbrev pub vector_of : ℕ → Ptr → Cell
vector_of n p = vector (record { count = n; items = p })

abbrev pub no_acl : Acl
no_acl = record { perms = pos 0; scheme = null; ident = null }

-- What the generated zookeeper.jute.h does: a vector of no elements has no array; else the array
-- comes from `calloc`.
pub record IsJute (jute : Jute) : Type 0 where
  pub string_none :
      (w : World) (v : Ptr) (c : Cell)
      → Holds w v c
      → jute.allocate_string_vector v 0 w ≡ ok tt (write_cell w v (some (vector_of 0 null)))
  pub string_some :
      (w : World) (v : Ptr) (c : Cell) (n : ℕ)
      → Holds w v c
      → w.oom w.brk ≡ false
      → jute.allocate_string_vector v (suc n) w
        ≡ ok tt (
            write_cell
              (allocated w (strings (replicate (suc n) null)))
              v
              (some (vector_of (suc n) (suc w.brk))))
  pub acl_none :
      (w : World) (v : Ptr) (c : Cell)
      → Holds w v c
      → jute.allocate_acl_vector v (pos 0) w ≡ ok tt (write_cell w v (some (vector_of 0 null)))
  pub acl_some :
      (w : World) (v : Ptr) (c : Cell) (n : ℕ)
      → Holds w v c
      → w.oom w.brk ≡ false
      → jute.allocate_acl_vector v (pos (suc n)) w
        ≡ ok tt (
            write_cell
              (allocated w (acls (replicate (suc n) no_acl)))
              v
              (some (vector_of (suc n) (suc w.brk))))

set-append :
    {A : Type 0} (xs : List A) (y z : A) (ys : List A)
    → set (xs ++ y ∷ ys) (length xs) z ≡ xs ++ z ∷ ys
set-append [] y z ys = refl
set-append (x ∷ xs) y z ys = ap (◌∷◌ x) (set-append xs y z ys)

get-append :
    {A : Type 0} (xs : List A) (y : A) (ys : List A) → get_elem? (xs ++ y ∷ ys) (length xs) ≡ some y
get-append [] y ys = refl
get-append (x ∷ xs) y ys = get-append xs y ys

pub length-snoc : {A : Type 0} (xs : List A) (y : A) → length (xs ++ y ∷ []) ≡ suc (length xs)
length-snoc [] y = refl
length-snoc (x ∷ xs) y = ap suc (length-snoc xs y)

pub store_string-ok :
    {w : World} {dst items : Ptr} {n : ℕ} (pre rest : List Ptr) (o p : Ptr)
    → Holds w dst (vector_of n items)
    → Holds w items (strings (pre ++ o ∷ rest))
    → store_string dst (length pre) p w
      ≡ ok tt (write_cell w items (some (strings (pre ++ p ∷ rest))))
unfolding store_string
store_string-ok pre rest o p v a =
    rw
      (
        load_as-ok as_vector v refl,
        load_as-ok as_strings a refl,
        get-append pre o rest,
        set-append pre o p rest,
      )
      (Memory.store-ok a _)

pub store_acl-ok :
    {w : World} {dst items : Ptr} {n : ℕ} (pre rest : List Acl) (o p : Acl)
    → Holds w dst (vector_of n items)
    → Holds w items (acls (pre ++ o ∷ rest))
    → store_acl dst (length pre) p w ≡ ok tt (write_cell w items (some (acls (pre ++ p ∷ rest))))
unfolding store_acl
store_acl-ok pre rest o p v a =
    rw
      (
        load_as-ok as_vector v refl,
        load_as-ok as_acls a refl,
        get-append pre o rest,
        set-append pre o p rest,
      )
      (Memory.store-ok a _)
