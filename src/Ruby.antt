-- ===== src/Ruby.antt =====
-- The Ruby values that the extension builds and reads: nil, numbers, strings, arrays and hashes with
-- symbol keys. A number stands for a Fixnum or a Bignum, as LL2NUM and INT2FIX give it.
use zookeeper_fork.Base.{String, Bool, List, [], ◌∷◌, ℤ, if◌then◌else◌}
use zookeeper_fork.Structs.{Bytes}
use text.Mathlib.Text.{◌==◌}

mutual
  pub data Value : Type 0 where
    nil : Value
    bool : Bool → Value
    num : ℤ → Value
    str : Bytes → Value
    array : Items → Value
    hash : Fields → Value

  pub data Items : Type 0 where
    no_items : Items
    item : Value → Items → Items

  pub data Fields : Type 0 where
    no_fields : Fields
    field : String → Value → Fields → Fields

-- An array of the values of a list.
abbrev pub of_list : List Value → Items
of_list [] = no_items
of_list (v ∷ vs) = item v (of_list vs)

unfoldable pub rb_ary_push : Items → Value → Items
rb_ary_push no_items v = item v no_items
rb_ary_push (item u us) v = item u (rb_ary_push us v)

unfoldable pub rb_hash_aset : Fields → String → Value → Fields
rb_hash_aset no_fields k v = field k v no_fields
rb_hash_aset (field j u r) k v = if j == k then field k v r else field j u (rb_hash_aset r k v)

-- nil for a key that is not there
unfoldable pub rb_hash_aref : Fields → String → Value
rb_hash_aref no_fields k = nil
rb_hash_aref (field j u r) k = if j == k then u else rb_hash_aref r k
