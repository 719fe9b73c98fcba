-- ===== src/Translate.antt =====
-- The translations of ext/zookeeper_lib.c between Ruby's and C's data: strings, Stat, ACLs and
-- vectors. What the client library hands over for reading is a value here, and the functions of its
-- generated header that make and clear vectors are the record `Jute`.
pub mod Frame
pub mod FromRuby
pub mod Show
use zookeeper_fork.Base.{
  ℕ, zero, suc, List, [], ◌∷◌, none, some, ◌==◌, if◌then◌else◌, length, get_elem?, set, ℤ, pos,
}
use zookeeper_fork.Structs.{
  Ptr, null, Bytes, Stat, Acl, Vector, Cell, raw, bytes, vector, strings, acls, as_bytes, as_vector,
  as_strings, as_acls,
}
use zookeeper_fork.Memory.{Cmd, pure, ◌>>=◌, ◌>>◌, load_as, store, malloc, new, expect}
use zookeeper_fork.Ruby.{
  Value, nil, num, str, array, hash, Items, no_items, of_list, no_fields, rb_ary_push, rb_hash_aset,
}

-- What the code calls of the client's zookeeper.jute.h. The number of elements is an `int`; that of
-- strings is a count which a vector of the client has already.
pub record Jute : Type 0 where
  pub allocate_string_vector : Ptr → ℕ → Cmd (Unit {0})
  pub allocate_acl_vector : Ptr → ℤ → Cmd (Unit {0})
  pub deallocate_acl_vector : Ptr → Cmd (Unit {0})

-- `strdup`: NULL if the memory is exhausted.
unfoldable pub strdup : Bytes → Cmd Ptr
unfolding malloc store
strdup s = do p ← malloc; if p == null then pure null else do store p (bytes s); pure p

-- `rb_str_new2`
unfoldable pub rb_str_new2 : Ptr → Cmd Value
unfolding load_as
rb_str_new2 p = do s ← load_as as_bytes p; pure (str s)

-- The eleven fields, in the order that the Ruby side takes them apart by.
unfoldable pub zkrb_stat_to_rarray : Stat → Value
zkrb_stat_to_rarray s = array (
    of_list (
      num s.czxid
      ∷ num s.mzxid
      ∷ num s.ctime
      ∷ num s.mtime
      ∷ num s.version
      ∷ num s.cversion
      ∷ num s.aversion
      ∷ num s.ephemeral_owner
      ∷ num s.data_length
      ∷ num s.num_children
      ∷ num s.pzxid
      ∷ []))

unfoldable pub zkrb_stat_to_rhash : Stat → Value
unfolding rb_hash_aset
zkrb_stat_to_rhash s =
    let h = rb_hash_aset no_fields "czxid" (num s.czxid) in
    let h = rb_hash_aset h "mzxid" (num s.mzxid) in
    let h = rb_hash_aset h "ctime" (num s.ctime) in
    let h = rb_hash_aset h "mtime" (num s.mtime) in
    let h = rb_hash_aset h "version" (num s.version) in
    let h = rb_hash_aset h "cversion" (num s.cversion) in
    let h = rb_hash_aset h "aversion" (num s.aversion) in
    let h = rb_hash_aset h "ephemeralOwner" (num s.ephemeral_owner) in
    let h = rb_hash_aset h "dataLength" (num s.data_length) in
    let h = rb_hash_aset h "numChildren" (num s.num_children) in
    hash (rb_hash_aset h "pzxid" (num s.pzxid))

-- The loop over a `String_vector`: `n` rounds are left, and `i` is the next index.
string_vector_loop : ℕ → ℕ → Ptr → Items → Cmd Value
unfolding load_as rb_str_new2
string_vector_loop zero i array_ptr ary = pure (array ary)
string_vector_loop (suc n) i array_ptr ary = do
  l ← load_as as_strings array_ptr
  p ← expect (get_elem? l i)
  s ← rb_str_new2 p
  string_vector_loop n (suc i) array_ptr (rb_ary_push ary s)

unfoldable pub zkrb_string_vector_to_ruby : Ptr → Cmd Value
unfolding string_vector_loop
zkrb_string_vector_to_ruby vp = do
  v ← load_as as_vector vp
  string_vector_loop v.count 0 v.items no_items

unfoldable pub zkrb_id_to_ruby : Ptr → Ptr → Cmd Value
unfolding rb_str_new2 rb_hash_aset
zkrb_id_to_ruby scheme ident = do
  s ← rb_str_new2 scheme
  i ← rb_str_new2 ident
  pure (hash (rb_hash_aset (rb_hash_aset no_fields "scheme" s) "id" i))

unfoldable pub zkrb_acl_to_ruby : Acl → Cmd Value
unfolding zkrb_id_to_ruby
zkrb_acl_to_ruby a = do
  i ← zkrb_id_to_ruby a.scheme a.ident
  pure (hash (rb_hash_aset (rb_hash_aset no_fields "perms" (num a.perms)) "id" i))

acl_vector_loop : ℕ → ℕ → Ptr → Items → Cmd Value
unfolding load_as zkrb_acl_to_ruby
acl_vector_loop zero i array_ptr ary = pure (array ary)
acl_vector_loop (suc n) i array_ptr ary = do
  l ← load_as as_acls array_ptr
  a ← expect (get_elem? l i)
  v ← zkrb_acl_to_ruby a
  acl_vector_loop n (suc i) array_ptr (rb_ary_push ary v)

unfoldable pub zkrb_acl_vector_to_ruby : Ptr → Cmd Value
unfolding acl_vector_loop
zkrb_acl_vector_to_ruby vp = do v ← load_as as_vector vp; acl_vector_loop v.count 0 v.items no_items

-- An ACL as the client library hands it over for reading.
pub record AclValue : Type 0 where
  pub perms : ℤ
  pub scheme : Bytes
  pub ident : Bytes

-- `dst->data[k] = p`
unfoldable pub store_string : Ptr → ℕ → Ptr → Cmd (Unit {0})
unfolding load_as
store_string vp k p = do
  v ← load_as as_vector vp
  l ← load_as as_strings v.items
  expect (get_elem? l k)
  store v.items (strings (set l k p))

unfoldable pub store_acl : Ptr → ℕ → Acl → Cmd (Unit {0})
unfolding load_as
store_acl vp k a = do
  v ← load_as as_vector vp
  l ← load_as as_acls v.items
  expect (get_elem? l k)
  store v.items (acls (set l k a))

unfoldable pub clone_string_loop : Ptr → ℕ → List Bytes → Cmd (Unit {0})
unfolding strdup store_string
clone_string_loop dst k [] = pure tt
clone_string_loop dst k (s ∷ src) = do
  p ← strdup s
  store_string dst k p
  clone_string_loop dst (suc k) src

unfoldable pub clone_acl_loop : Ptr → ℕ → List AclValue → Cmd (Unit {0})
unfolding strdup store_acl
clone_acl_loop dst k [] = pure tt
clone_acl_loop dst k (a ∷ src) = do
  s ← strdup a.scheme
  i ← strdup a.ident
  store_acl dst k (record { perms = a.perms; scheme = s; ident = i })
  clone_acl_loop dst (suc k) src

module _ (jute : Jute) where
  unfoldable pub zkrb_clone_string_vector : List Bytes → Cmd Ptr
  unfolding clone_string_loop malloc
  zkrb_clone_string_vector src = do
    dst ← malloc
    jute.allocate_string_vector dst (length src)
    clone_string_loop dst 0 src
    pure dst

  unfoldable pub zkrb_clone_acl_vector : List AclValue → Cmd Ptr
  unfolding clone_acl_loop malloc
  zkrb_clone_acl_vector src = do
    dst ← malloc
    jute.allocate_acl_vector dst (pos (length src))
    clone_acl_loop dst 0 src
    pure dst
