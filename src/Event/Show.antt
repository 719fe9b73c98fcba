-- ===== src/Event/Show.antt =====
-- The hash that `zkrb_event_to_ruby` makes of an event of each kind, over what stands in memory.
use zookeeper_fork.Base.{
  ℕ, ◌≡◌, refl, ap, [], ◌∷◌, Option, none, some, List, ℤ, arith, length, take,
}
use zookeeper_fork.Structs.{
  Ptr, Bytes, Stat, EventType, event, zkrb_data, zkrb_stat, zkrb_void, zkrb_string, zkrb_strings,
  zkrb_strings_stat, zkrb_acl, zkrb_watcher, data_completion, stat_completion, string_completion,
  strings_completion, strings_stat_completion, acl_completion, watcher_completion,
}
use zookeeper_fork.Memory.{World, ok, load, load_as, Holds, log_err}
use zookeeper_fork.Ruby.{Value, hash, num, str, Fields, field, no_fields, rb_hash_aset}
use zookeeper_fork.Translate.{
  AclValue, rb_str_new2, zkrb_stat_to_rarray, zkrb_string_vector_to_ruby, zkrb_acl_vector_to_ruby,
}
use zookeeper_fork.Translate.Show.{
  BytesAt, StatAt, StringsAt, AclsAt, or_nil, strings_value, acls_value,
  zkrb_string_vector_to_ruby-map, zkrb_acl_vector_to_ruby-map,
}
use zookeeper_fork.Event.{zkrb_event_to_ruby, unless_null, stat_value, new_str}

-- The length that an event's data has beside it.
abbrev pub data_len : Option Bytes → ℕ
data_len none = 0
data_len (some b) = length b

take-length : (b : Bytes) → take (length b) b ≡ b
take-length [] = refl
take-length (x ∷ b) = ap (◌∷◌ x) (take-length b)

-- An event of this content stands at `p`.
abbrev pub EventAt : World → Ptr → ℤ → Option ℤ → EventType → Ptr → Type 0
EventAt w p req rc type c =
    Holds w p (event (record { req_id = req; rc = rc; type = type; completion = c }))

-- The hash of a reply: the request, the return code, and the fields of its kind.
abbrev pub reply : ℤ → ℤ → Fields → Value
reply req rc fs = hash (field "req_id" (num req) (field "rc" (num rc) fs))

module _ {w : World} where
  stat_value-ok :
      (p : Ptr) (o : Option Stat)
      → StatAt w p o
      → unless_null p stat_value w ≡ ok (or_nil zkrb_stat_to_rarray o) w
  unfolding unless_null stat_value load load_as
  stat_value-ok p none h = ground arith
  stat_value-ok p (some s) h = ground arith

  str_new2-ok :
      (p : Ptr) (o : Option Bytes)
      → BytesAt w p o
      → unless_null p rb_str_new2 w ≡ ok (or_nil str o) w
  unfolding unless_null rb_str_new2 load load_as
  str_new2-ok p none h = ground arith
  str_new2-ok p (some s) h = ground arith

  strings-ok :
      (p : Ptr) (o : Option (List Bytes))
      → StringsAt w p o
      → unless_null p zkrb_string_vector_to_ruby w ≡ ok (or_nil strings_value o) w
  unfolding unless_null
  strings-ok p none h = ground arith
  strings-ok p (some s) h =
      let n = h.head.ne_null in ground (arith, zkrb_string_vector_to_ruby-map h)

  acls-ok :
      (p : Ptr) (o : Option (List AclValue))
      → AclsAt w p o
      → unless_null p zkrb_acl_vector_to_ruby w ≡ ok (or_nil acls_value o) w
  unfolding unless_null
  acls-ok p none h = ground arith
  acls-ok p (some s) h = let n = h.head.ne_null in ground (arith, zkrb_acl_vector_to_ruby-map h)

  new_str-ok :
      (p : Ptr) (o : Option Bytes) → BytesAt w p o → new_str p (data_len o) w ≡ ok (or_nil str o) w
  unfolding new_str load load_as
  new_str-ok p none h = ground arith
  new_str-ok p (some s) h = ground (arith, take-length s)

  -- A void event shows its request and its return code.
  pub void-shows :
      {e c : Ptr} {req rc : ℤ}
      → EventAt w e req (some rc) zkrb_void c
      → zkrb_event_to_ruby e w ≡ ok (reply req rc no_fields) w
  unfolding zkrb_event_to_ruby load load_as log_err rb_hash_aset
  void-shows at = ground arith

  pub stat-shows :
      {e c p : Ptr} {req rc : ℤ} (o : Option Stat)
      → EventAt w e req (some rc) zkrb_stat c
      → Holds w c (stat_completion (record { stat = p }))
      → StatAt w p o
      → zkrb_event_to_ruby e w
        ≡ ok (reply req rc (field "stat" (or_nil zkrb_stat_to_rarray o) no_fields)) w
  unfolding zkrb_event_to_ruby load load_as log_err rb_hash_aset
  stat-shows {p} o at c h = ground (arith, stat_value-ok p o h)

  pub data-shows :
      {e c p r : Ptr} {req rc : ℤ} (d : Option Bytes) (o : Option Stat)
      → EventAt w e req (some rc) zkrb_data c
      → Holds w c (data_completion (record { value = p; data_len = data_len d; stat = r }))
      → BytesAt w p d
      → StatAt w r o
      → zkrb_event_to_ruby e w
        ≡ ok
            (reply req rc
              (field "data" (or_nil str d) (field "stat" (or_nil zkrb_stat_to_rarray o) no_fields)))
            w
  unfolding zkrb_event_to_ruby load load_as log_err rb_hash_aset
  data-shows {p} {r} d o at c hp hr = ground (arith, new_str-ok p d hp, stat_value-ok r o hr)

  pub string-shows :
      {e c p : Ptr} {req rc : ℤ} (d : Option Bytes)
      → EventAt w e req (some rc) zkrb_string c
      → Holds w c (string_completion (record { value = p }))
      → BytesAt w p d
      → zkrb_event_to_ruby e w ≡ ok (reply req rc (field "string" (or_nil str d) no_fields)) w
  unfolding zkrb_event_to_ruby load load_as log_err rb_hash_aset
  string-shows {p} d at c hp = ground (arith, str_new2-ok p d hp)

  pub strings-shows :
      {e c p : Ptr} {req rc : ℤ} (d : Option (List Bytes))
      → EventAt w e req (some rc) zkrb_strings c
      → Holds w c (strings_completion (record { values = p }))
      → StringsAt w p d
      → zkrb_event_to_ruby e w
        ≡ ok (reply req rc (field "strings" (or_nil strings_value d) no_fields)) w
  unfolding zkrb_event_to_ruby load load_as log_err rb_hash_aset
  strings-shows {p} d at c hp = ground (arith, strings-ok p d hp)

  pub strings_stat-shows :
      {e c p r : Ptr} {req rc : ℤ} (d : Option (List Bytes)) (o : Option Stat)
      → EventAt w e req (some rc) zkrb_strings_stat c
      → Holds w c (strings_stat_completion (record { values = p; stat = r }))
      → StringsAt w p d
      → StatAt w r o
      → zkrb_event_to_ruby e w
        ≡ ok
            (reply req rc (
              field "strings"
                (or_nil strings_value d)
                (field "stat" (or_nil zkrb_stat_to_rarray o) no_fields)))
            w
  unfolding zkrb_event_to_ruby load load_as log_err rb_hash_aset
  strings_stat-shows {p} {r} d o at c hp hr =
      ground (arith, strings-ok p d hp, stat_value-ok r o hr)

  pub acl-shows :
      {e c p r : Ptr} {req rc : ℤ} (d : Option (List AclValue)) (o : Option Stat)
      → EventAt w e req (some rc) zkrb_acl c
      → Holds w c (acl_completion (record { acl = p; stat = r }))
      → AclsAt w p d
      → StatAt w r o
      → zkrb_event_to_ruby e w
        ≡ ok
            (reply req rc (
              field "acl"
                (or_nil acls_value d)
                (field "stat" (or_nil zkrb_stat_to_rarray o) no_fields)))
            w
  unfolding zkrb_event_to_ruby load load_as log_err rb_hash_aset
  acl-shows {p} {r} d o at c hp hr = ground (arith, acls-ok p d hp, stat_value-ok r o hr)

  pub watcher-shows :
      {e c p : Ptr} {req type state : ℤ} {rc : Option ℤ} (path : Bytes)
      → EventAt w e req rc zkrb_watcher c
      → Holds w c (watcher_completion (record { type = type; state = state; path = p }))
      → BytesAt w p (some path)
      → zkrb_event_to_ruby e w
        ≡ ok
            (hash (
              field "req_id" (num req) (
                field "type"
                  (num type)
                  (field "state" (num state) (field "path" (str path) no_fields)))))
            w
  unfolding zkrb_event_to_ruby load load_as log_err rb_hash_aset
  watcher-shows {p} path at c h = ground (arith, str_new2-ok p (some path) h)
