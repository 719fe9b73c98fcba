-- ===== src/Translate/Show.antt =====
-- What stands at a pointer, and what the translations to Ruby make of it.
use zookeeper_fork.Base.{
  suc, ◌≡◌, refl, ◌∙◌, ap, Option, none, some, List, [], ◌∷◌, ◌++◌, map, ◌⊎◌, inl, inr, arith,
  length, get_elem?, append_assoc, append-nil,
}
use zookeeper_fork.Structs.{
  Ptr, null, Bytes, Stat, Acl, Cell, bytes, stat, vector, strings, acls, as_strings, as_acls,
  as_vector,
}
use zookeeper_fork.Memory.{World, ok, load, load_as, Holds}
use zookeeper_fork.Ruby.{
  Value, nil, num, str, array, hash, field, no_fields, no_items, item, of_list, rb_ary_push,
  rb_hash_aset,
}
use zookeeper_fork.Translate.{
  AclValue, rb_str_new2, string_vector_loop, zkrb_string_vector_to_ruby, zkrb_id_to_ruby,
  zkrb_acl_to_ruby, acl_vector_loop, zkrb_acl_vector_to_ruby,
}

abbrev pub BytesAt : World → Ptr → Option Bytes → Type 0
BytesAt w p none = p ≡ null
BytesAt w p (some b) = Holds w p (bytes b)

abbrev pub StatAt : World → Ptr → Option Stat → Type 0
StatAt w p none = p ≡ null
StatAt w p (some s) = Holds w p (stat s)

-- The strings at the pointers of a list.
abbrev pub Each : World → List Ptr → List Bytes → Type 0
Each w [] [] = Unit {0}
Each w [] (b ∷ bs) = ⊥
Each w (p ∷ ps) [] = ⊥
Each w (p ∷ ps) (b ∷ bs) = Holds w p (bytes b) × Each w ps bs

-- An empty vector may have no array.
pub record Strings (w : World) (p : Ptr) (bs : List Bytes) : Type 0 where
  pub items : Ptr
  pub ptrs : List Ptr
  pub head : Holds w p (vector (record { count = length bs; items = items }))
  pub body : (ptrs ≡ []) ⊎ Holds w items (strings ptrs)
  pub each : Each w ptrs bs

abbrev pub StringsAt : World → Ptr → Option (List Bytes) → Type 0
StringsAt w p none = p ≡ null
StringsAt w p (some bs) = Strings w p bs

abbrev pub EachAcl : World → List Acl → List AclValue → Type 0
EachAcl w [] [] = Unit {0}
EachAcl w [] (b ∷ bs) = ⊥
EachAcl w (p ∷ ps) [] = ⊥
EachAcl w (a ∷ elems) (b ∷ bs) =
    (a.perms ≡ b.perms)
    × Holds w a.scheme (bytes b.scheme)
    × Holds w a.ident (bytes b.ident)
    × EachAcl w elems bs

pub record Acls (w : World) (p : Ptr) (bs : List AclValue) : Type 0 where
  pub items : Ptr
  pub elems : List Acl
  pub head : Holds w p (vector (record { count = length bs; items = items }))
  pub body : (elems ≡ []) ⊎ Holds w items (acls elems)
  pub each : EachAcl w elems bs

abbrev pub AclsAt : World → Ptr → Option (List AclValue) → Type 0
AclsAt w p none = p ≡ null
AclsAt w p (some bs) = Acls w p bs

pub load_as-ok {ℓ} :
    {A : Type ℓ} (view : Cell → Option A) {w : World} {p : Ptr} {c : Cell} {a : A}
    → Holds w p c
    → view c ≡ some a
    → load_as view p w ≡ ok a w
unfolding load load_as
load_as-ok view h e = ground (arith, e)

abbrev pub acl_value : AclValue → Value
acl_value a = hash (
    field "perms" (num a.perms) (
      field "id" (hash (field "scheme" (str a.scheme) (field "id" (str a.ident) no_fields)))
        no_fields))

pub rb_ary_push-of_list :
    (vs : List Value) (v : Value) → rb_ary_push (of_list vs) v ≡ of_list (vs ++ v ∷ [])
unfolding rb_ary_push
rb_ary_push-of_list [] v = refl
rb_ary_push-of_list (u ∷ vs) v = ap (item u) (rb_ary_push-of_list vs v)

get_elem?-append :
    {A : Type 0} (xs : List A) (y : A) (ys : List A) → get_elem? (xs ++ y ∷ ys) (length xs) ≡ some y
get_elem?-append [] y ys = refl
get_elem?-append (x ∷ xs) y ys = get_elem?-append xs y ys

rb_str_new2-ok :
    {w : World} {p : Ptr} {b : Bytes} → Holds w p (bytes b) → rb_str_new2 p w ≡ ok (str b) w
unfolding rb_str_new2 load load_as
rb_str_new2-ok h = ground arith

length-snoc : {A : Type 0} (xs : List A) (y : A) → length (xs ++ y ∷ []) ≡ suc (length xs)
length-snoc [] y = refl
length-snoc (x ∷ xs) y = ap suc (length-snoc xs y)

string_vector_loop-ok :
    {w : World} {items : Ptr} (pre ps : List Ptr) (vs : List Value) (bs : List Bytes)
    → Holds w items (strings (pre ++ ps))
    → Each w ps bs
    → string_vector_loop (length bs) (length pre) items (of_list vs) w
      ≡ ok (array (of_list (vs ++ map str bs))) w
unfolding string_vector_loop
string_vector_loop-ok pre [] vs [] h e = rw append-nil
string_vector_loop-ok pre [] vs (b ∷ bs) h e = absurd e
string_vector_loop-ok pre (p ∷ ps) vs [] h e = absurd e
string_vector_loop-ok {w} {items} pre (p ∷ ps) vs (b ∷ bs) h e =
    let rest =
      string_vector_loop-ok {w = w} {items = items} (pre ++ p ∷ []) ps (vs ++ str b ∷ []) bs
        (rw (append_assoc pre (p ∷ []) ps) h) e.1 in
    rw
      (
        load_as-ok as_strings h refl,
        get_elem?-append pre p ps,
        rb_str_new2-ok e.0,
        rb_ary_push-of_list vs (str b),
        ← length-snoc pre p,
      )
      (rest ∙ ap (λ l. ok (array (of_list l)) w) (append_assoc vs (str b ∷ []) (map str bs)))

string_vector_loop-nil :
    (w : World) (items : Ptr) (bs : List Bytes)
    → Each w [] bs
    → string_vector_loop (length bs) 0 items no_items w ≡ ok (array (of_list (map str bs))) w
unfolding string_vector_loop
string_vector_loop-nil w items [] e = refl
string_vector_loop-nil w items (b ∷ bs) e = absurd e

-- A vector becomes the array of its strings, in order.
pub zkrb_string_vector_to_ruby-map :
    {w : World} {p : Ptr} {bs : List Bytes}
    → Strings w p bs
    → zkrb_string_vector_to_ruby p w ≡ ok (array (of_list (map str bs))) w
unfolding zkrb_string_vector_to_ruby
zkrb_string_vector_to_ruby-map {w} {p} {bs} s =
    rw (load_as-ok as_vector s.head refl) (go s.ptrs s.body s.each)
  where
    go :
        (ps : List Ptr)
        → (ps ≡ []) ⊎ Holds w s.items (strings ps)
        → Each w ps bs
        → string_vector_loop (length bs) 0 s.items no_items w ≡ ok (array (of_list (map str bs))) w
    go ps (inr h) e = string_vector_loop-ok [] ps [] bs h e
    go ps (inl n) e = string_vector_loop-nil w s.items bs (rw n at e)

zkrb_acl_to_ruby-ok :
    {w : World} {a : Acl} {b : AclValue}
    → a.perms ≡ b.perms
    → Holds w a.scheme (bytes b.scheme)
    → Holds w a.ident (bytes b.ident)
    → zkrb_acl_to_ruby a w ≡ ok (acl_value b) w
unfolding zkrb_acl_to_ruby zkrb_id_to_ruby rb_hash_aset
zkrb_acl_to_ruby-ok e h i = rw (rb_str_new2-ok h, rb_str_new2-ok i, e) refl

acl_vector_loop-ok :
    {w : World} {items : Ptr} (pre ps : List Acl) (vs : List Value) (bs : List AclValue)
    → Holds w items (acls (pre ++ ps))
    → EachAcl w ps bs
    → acl_vector_loop (length bs) (length pre) items (of_list vs) w
      ≡ ok (array (of_list (vs ++ map acl_value bs))) w
unfolding acl_vector_loop
acl_vector_loop-ok pre [] vs [] h e = rw append-nil
acl_vector_loop-ok pre [] vs (b ∷ bs) h e = absurd e
acl_vector_loop-ok pre (p ∷ ps) vs [] h e = absurd e
acl_vector_loop-ok {w} {items} pre (p ∷ ps) vs (b ∷ bs) h e =
    let rest =
      acl_vector_loop-ok {w = w} {items = items} (pre ++ p ∷ []) ps (vs ++ acl_value b ∷ []) bs
        (rw (append_assoc pre (p ∷ []) ps) h) e.3 in
    rw
      (
        load_as-ok as_acls h refl,
        get_elem?-append pre p ps,
        zkrb_acl_to_ruby-ok e.0 e.1 e.2,
        rb_ary_push-of_list vs (acl_value b),
        ← length-snoc pre p,
      )
      (rest
        ∙ ap (λ l. ok (array (of_list l)) w)
            (append_assoc vs (acl_value b ∷ []) (map acl_value bs)))

acl_vector_loop-nil :
    (w : World) (items : Ptr) (bs : List AclValue)
    → EachAcl w [] bs
    → acl_vector_loop (length bs) 0 items no_items w ≡ ok (array (of_list (map acl_value bs))) w
unfolding acl_vector_loop
acl_vector_loop-nil w items [] e = refl
acl_vector_loop-nil w items (b ∷ bs) e = absurd e

-- A vector of ACLs becomes the array of their hashes, in order.
pub zkrb_acl_vector_to_ruby-map :
    {w : World} {p : Ptr} {bs : List AclValue}
    → Acls w p bs
    → zkrb_acl_vector_to_ruby p w ≡ ok (array (of_list (map acl_value bs))) w
unfolding zkrb_acl_vector_to_ruby
zkrb_acl_vector_to_ruby-map {w} {p} {bs} s =
    rw (load_as-ok as_vector s.head refl) (go s.elems s.body s.each)
  where
    go :
        (ps : List Acl)
        → (ps ≡ []) ⊎ Holds w s.items (acls ps)
        → EachAcl w ps bs
        → acl_vector_loop (length bs) 0 s.items no_items w
          ≡ ok (array (of_list (map acl_value bs))) w
    go ps (inr h) e = acl_vector_loop-ok [] ps [] bs h e
    go ps (inl n) e = acl_vector_loop-nil w s.items bs (rw n at e)

abbrev pub or_nil {ℓ} : {A : Type ℓ} → (A → Value) → Option A → Value
or_nil f none = nil
or_nil f (some a) = f a

abbrev pub strings_value : List Bytes → Value
strings_value bs = array (of_list (map str bs))

abbrev pub acls_value : List AclValue → Value
acls_value bs = array (of_list (map acl_value bs))
