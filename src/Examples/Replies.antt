-- ===== src/Examples/Replies.antt =====
-- What the callbacks deliver, for request 7, at concrete replies.
use zookeeper_fork.Base.{
  ℕ, zero, suc, false, some, none, List, [], ◌∷◌, ℤ, pos, negsuc, arith, if◌then◌else◌, replicate,
}
use zookeeper_fork.Structs.{Ptr, null, Bytes, Stat, Cell, strings, acls}
use zookeeper_fork.Memory.{Cmd, ok, store, pure, ◌>>=◌}
use zookeeper_fork.Ruby.{Value, nil, str, field, no_fields}
use zookeeper_fork.Translate.{Jute, AclValue, zkrb_stat_to_rarray}
use zookeeper_fork.Translate.Show.{strings_value, acls_value}
use zookeeper_fork.Event.Show.{reply}
use zookeeper_fork.Queue.Frame.{allocated}
use zookeeper_fork.Callbacks.{
  zkrb_stat_callback, zkrb_string_callback, zkrb_data_callback, zkrb_strings_callback,
  zkrb_strings_stat_callback, zkrb_acl_callback, zkrb_state_callback,
}
use zookeeper_fork.Callbacks.Arrays.{IsJute, vector_of, no_acl}
use zookeeper_fork.Callbacks.Delivery.{Delivered}
use zookeeper_fork.Callbacks.Replies.{
  stat_callback-Delivered, string_callback-Delivered, data_callback-Delivered,
}
use zookeeper_fork.Callbacks.Lists.{
  strings_callback-Delivered, strings_stat_callback-Delivered, acl_callback-Delivered,
}
use zookeeper_fork.Callbacks.Watcher.{watched, state_callback-Delivered}
use zookeeper_fork.Examples.{handle, empty, empty-Ready}

-- Vectors as the client makes them.
abbrev calloc : Cell → Cmd Ptr
calloc c w =
    if w.oom w.brk then ok null (record w { brk = suc w.brk }) else ok (suc w.brk) (allocated w c)

abbrev allocate : (ℕ → Cell) → Ptr → ℕ → Cmd (Unit {0})
allocate array v zero = store v (vector_of 0 null)
allocate array v (suc n) = do p ← calloc (array (suc n)); store v (vector_of (suc n) p)

abbrev pub jute : Jute
jute = record {
  allocate_string_vector = allocate λ n. strings (replicate n null);
  allocate_acl_vector = λ v n. elim n [
    | pos k ↦ allocate (λ n. acls (replicate n no_acl)) v k
    | negsuc k ↦ store v (vector_of 0 null)
  ];
  deallocate_acl_vector = λ v. pure tt;
}

pub jute-IsJute : IsJute jute
unfolding store
jute-IsJute = record {
  string_none = λ w v c h. ground arith;
  string_some = λ w v c n h o. ground arith;
  acl_none = λ w v c h. ground arith;
  acl_some = λ w v c n h o. ground arith;
}

abbrev pub some_stat : Stat
some_stat = record {
  czxid = pos 1;
  mzxid = pos 2;
  ctime = pos 3;
  mtime = pos 4;
  version = pos 5;
  cversion = pos 6;
  aversion = pos 7;
  ephemeral_owner = pos 0;
  data_length = pos 2;
  num_children = pos 0;
  pzxid = pos 8;
}

abbrev no_node : ℤ
no_node = negsuc 100

abbrev stat_fields : Value → Value
stat_fields v = reply (pos 7) (pos 0) (field "stat" v no_fields)

stat_callback-Delivered_example :
    Delivered 3
      (pos 7)
      false
      1
      handle
      []
      (reply (pos 7) (pos 0) (field "stat" (zkrb_stat_to_rarray some_stat) no_fields))
      (zkrb_stat_callback (pos 0) (some some_stat) 3 empty)
stat_callback-Delivered_example = stat_callback-Delivered empty-Ready (pos 0) (some some_stat)

string_callback-Delivered_example :
    Delivered 3
      (pos 7)
      false
      1
      handle
      []
      (reply (pos 7) (pos 0) (field "string" (str (47 ∷ 97 ∷ [])) no_fields))
      (zkrb_string_callback (pos 0) (some (47 ∷ 97 ∷ [])) 3 empty)
string_callback-Delivered_example =
    string_callback-Delivered empty-Ready (pos 0) (some (47 ∷ 97 ∷ []))

data_callback-Delivered_example :
    Delivered 3
      (pos 7)
      false
      1
      handle
      []
      (reply
        (pos 7)
        (pos 0)
        (field "data" (str (1 ∷ 2 ∷ [])) (field "stat" (zkrb_stat_to_rarray some_stat) no_fields)))
      (zkrb_data_callback (pos 0) (some (1 ∷ 2 ∷ 3 ∷ [])) (pos 2) (some some_stat) 3 empty)
data_callback-Delivered_example =
    data_callback-Delivered empty-Ready (pos 0) (some (1 ∷ 2 ∷ 3 ∷ [])) (pos 2) (some some_stat)
      (omega arith)

abbrev pub names : List Bytes
names = (97 ∷ []) ∷ (98 ∷ []) ∷ []

strings_callback-Delivered_example :
    Delivered 3
      (pos 7)
      false
      1
      handle
      []
      (reply (pos 7) (pos 0) (field "strings" (strings_value names) no_fields))
      (zkrb_strings_callback jute (pos 0) (some names) 3 empty)
strings_callback-Delivered_example =
    strings_callback-Delivered jute jute-IsJute empty-Ready (pos 0) (some names)

strings_stat_callback-Delivered_example :
    Delivered 3
      (pos 7)
      false
      1
      handle
      []
      (reply (pos 7) (pos 0) (
        field "strings"
          (strings_value names)
          (field "stat" (zkrb_stat_to_rarray some_stat) no_fields)))
      (zkrb_strings_stat_callback jute (pos 0) (some names) (some some_stat) 3 empty)
strings_stat_callback-Delivered_example =
    strings_stat_callback-Delivered jute jute-IsJute empty-Ready (pos 0) (some names)
      (some some_stat)

abbrev world_acl : List AclValue
world_acl = record { perms = pos 31; scheme = 119 ∷ []; ident = 97 ∷ [] } ∷ []

acl_callback-Delivered_example :
    Delivered 3
      (pos 7)
      false
      1
      handle
      []
      (reply (pos 7) (pos 0) (field "acl" (acls_value world_acl) (field "stat" nil no_fields)))
      (zkrb_acl_callback jute (pos 0) (some world_acl) none 3 empty)
acl_callback-Delivered_example =
    acl_callback-Delivered jute jute-IsJute empty-Ready (pos 0) (some world_acl) none

state_callback-Delivered_example :
    Delivered 3
      (pos 7)
      false
      1
      handle
      []
      (watched (pos 7) (pos 1) (pos 3) (47 ∷ []))
      (zkrb_state_callback (pos 1) (pos 3) (some (47 ∷ [])) 3 empty)
state_callback-Delivered_example = state_callback-Delivered (pos 1) (pos 3) (47 ∷ []) empty-Ready
