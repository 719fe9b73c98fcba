-- ===== src/Translate/Frame.antt =====
-- What stands at a pointer survives changes to blocks of other kinds.
use zookeeper_fork.Base.{◌≡◌, Option, none, some, List, [], ◌∷◌, inl, inr}
use zookeeper_fork.Structs.{Ptr, Bytes, Stat, Acl, Vector, bytes, stat, vector, strings, acls}
use zookeeper_fork.Memory.{World}
use zookeeper_fork.Translate.{AclValue}
use zookeeper_fork.Translate.Show.{BytesAt, StatAt, Each, EachAcl, StringsAt, AclsAt}

-- Blocks of these kinds are left alone.
pub record KeepsData (w v : World) : Type 0 where
  pub byte : (a : Ptr) (b : Bytes) → w.cell a ≡ some (bytes b) → v.cell a ≡ some (bytes b)
  pub stats : (a : Ptr) (b : Stat) → w.cell a ≡ some (stat b) → v.cell a ≡ some (stat b)
  pub vectors : (a : Ptr) (b : Vector) → w.cell a ≡ some (vector b) → v.cell a ≡ some (vector b)
  pub arrays : (a : Ptr) (b : List Ptr) → w.cell a ≡ some (strings b) → v.cell a ≡ some (strings b)
  pub acl_arrays : (a : Ptr) (b : List Acl) → w.cell a ≡ some (acls b) → v.cell a ≡ some (acls b)

module _ {w v : World} (k : KeepsData w v) where
  pub BytesAt-frame : (p : Ptr) (o : Option Bytes) → BytesAt w p o → BytesAt v p o
  BytesAt-frame p none h = h
  BytesAt-frame p (some b) h = record { ne_null = h.ne_null; there = k.byte p b h.there }

  pub StatAt-frame : (p : Ptr) (o : Option Stat) → StatAt w p o → StatAt v p o
  StatAt-frame p none h = h
  StatAt-frame p (some b) h = record { ne_null = h.ne_null; there = k.stats p b h.there }

  pub Each-frame : (ps : List Ptr) (bs : List Bytes) → Each w ps bs → Each v ps bs
  Each-frame [] [] e = tt
  Each-frame [] (b ∷ bs) e = e
  Each-frame (p ∷ ps) [] e = e
  Each-frame (p ∷ ps) (b ∷ bs) e = (BytesAt-frame p (some b) e.0, Each-frame ps bs e.1)

  pub EachAcl-frame : (ps : List Acl) (bs : List AclValue) → EachAcl w ps bs → EachAcl v ps bs
  EachAcl-frame [] [] e = tt
  EachAcl-frame [] (b ∷ bs) e = e
  EachAcl-frame (p ∷ ps) [] e = e
  EachAcl-frame (p ∷ ps) (b ∷ bs) e = (
    e.0,
    BytesAt-frame p.scheme (some b.scheme) e.1,
    BytesAt-frame p.ident (some b.ident) e.2,
    EachAcl-frame ps bs e.3,
  )

  pub StringsAt-frame : (p : Ptr) (o : Option (List Bytes)) → StringsAt w p o → StringsAt v p o
  StringsAt-frame p none h = h
  StringsAt-frame p (some bs) h = record {
    items = h.items;
    ptrs = h.ptrs;
    head = record { ne_null = h.head.ne_null; there = k.vectors p _ h.head.there };
    body = elim h.body [
      | inl e ↦ inl e
      | inr a ↦ inr (record { ne_null = a.ne_null; there = k.arrays h.items h.ptrs a.there })
    ];
    each = Each-frame h.ptrs bs h.each;
  }

  pub AclsAt-frame : (p : Ptr) (o : Option (List AclValue)) → AclsAt w p o → AclsAt v p o
  AclsAt-frame p none h = h
  AclsAt-frame p (some bs) h = record {
    items = h.items;
    elems = h.elems;
    head = record { ne_null = h.head.ne_null; there = k.vectors p _ h.head.there };
    body = elim h.body [
      | inl e ↦ inl e
      | inr a ↦ inr (record { ne_null = a.ne_null; there = k.acl_arrays h.items h.elems a.there })
    ];
    each = EachAcl-frame h.elems bs h.each;
  }
