-- ===== src/Structs.antt =====
-- The structures of ext/zookeeper_lib.h, and those of the client's headers that it stores.
-- A pointer is a number, with NULL for 0; an `int` or an `int64_t` is an integer. A buffer of
-- characters holds its bytes, a C string those before its terminator.
use zookeeper_fork.Base.{ℕ, List, Option, none, some, ℤ, negsuc}

abbrev pub Ptr : Type 0
Ptr = ℕ

abbrev pub null : Ptr
null = 0

abbrev pub Bytes : Type 0
Bytes = List ℕ

-- -1, the request of the session's own watcher
abbrev pub zkrb_global_req : ℤ
zkrb_global_req = negsuc 0

-- `struct Stat` of the client
pub record Stat : Type 0 where
  pub czxid : ℤ
  pub mzxid : ℤ
  pub ctime : ℤ
  pub mtime : ℤ
  pub version : ℤ
  pub cversion : ℤ
  pub aversion : ℤ
  pub ephemeral_owner : ℤ
  pub data_length : ℤ
  pub num_children : ℤ
  pub pzxid : ℤ

-- `struct ACL` of the client, its `struct Id` written out
pub record Acl : Type 0 where
  pub perms : ℤ
  pub scheme : Ptr
  pub ident : Ptr

-- `struct String_vector` and `struct ACL_vector` of the client: a count and an array
pub record Vector : Type 0 where
  pub count : ℕ
  pub items : Ptr

pub record DataCompletion : Type 0 where
  pub value : Ptr
  pub data_len : ℕ
  pub stat : Ptr

pub record StatCompletion : Type 0 where
  pub stat : Ptr

pub record StringCompletion : Type 0 where
  pub value : Ptr

pub record StringsCompletion : Type 0 where
  pub values : Ptr

pub record StringsStatCompletion : Type 0 where
  pub values : Ptr
  pub stat : Ptr

pub record AclCompletion : Type 0 where
  pub acl : Ptr
  pub stat : Ptr

pub record WatcherCompletion : Type 0 where
  pub type : ℤ
  pub state : ℤ
  pub path : Ptr

pub data EventType : Type 0 where
  zkrb_data zkrb_stat zkrb_void zkrb_string zkrb_strings zkrb_strings_stat zkrb_acl : EventType
  zkrb_watcher : EventType

-- `rc` is `none` while it is not written. `completion` is the union: the address of the completion
-- that `type` says.
pub record Event : Type 0 where
  pub req_id : ℤ
  pub rc : Option ℤ
  pub type : EventType
  pub completion : Ptr

-- `zkrb_event_ll_t`
pub record EventLl : Type 0 where
  pub event : Ptr
  pub next : Ptr

pub record Queue : Type 0 where
  pub head : Ptr
  pub tail : Ptr
  pub pipe_read : ℕ
  pub pipe_write : ℕ

pub record CallingContext : Type 0 where
  pub req_id : ℤ
  pub queue : Ptr

-- What a block of the heap holds. `raw` is a block that nothing was written to.
pub data Cell : Type 0 where
  raw : Cell
  event_ll : EventLl → Cell
  queue : Queue → Cell
  event : Event → Cell
  calling_context : CallingContext → Cell
  bytes : Bytes → Cell
  int : ℤ → Cell
  stat : Stat → Cell
  vector : Vector → Cell
  strings : List Ptr → Cell
  acls : List Acl → Cell
  data_completion : DataCompletion → Cell
  stat_completion : StatCompletion → Cell
  string_completion : StringCompletion → Cell
  strings_completion : StringsCompletion → Cell
  strings_stat_completion : StringsStatCompletion → Cell
  acl_completion : AclCompletion → Cell
  watcher_completion : WatcherCompletion → Cell

-- The structure that a block holds, if it is the one asked for.
abbrev pub as_event_ll : Cell → Option EventLl
as_event_ll (event_ll n) = some n
as_event_ll _ = none

abbrev pub as_queue : Cell → Option Queue
as_queue (queue q) = some q
as_queue _ = none

abbrev pub as_event : Cell → Option Event
as_event (event e) = some e
as_event _ = none

abbrev pub as_calling_context : Cell → Option CallingContext
as_calling_context (calling_context c) = some c
as_calling_context _ = none

abbrev pub as_bytes : Cell → Option Bytes
as_bytes (bytes b) = some b
as_bytes _ = none

abbrev pub as_int : Cell → Option ℤ
as_int (int n) = some n
as_int _ = none

abbrev pub as_stat : Cell → Option Stat
as_stat (stat s) = some s
as_stat _ = none

abbrev pub as_vector : Cell → Option Vector
as_vector (vector v) = some v
as_vector _ = none

abbrev pub as_strings : Cell → Option (List Ptr)
as_strings (strings l) = some l
as_strings _ = none

abbrev pub as_acls : Cell → Option (List Acl)
as_acls (acls l) = some l
as_acls _ = none

abbrev pub as_data_completion : Cell → Option DataCompletion
as_data_completion (data_completion c) = some c
as_data_completion _ = none

abbrev pub as_stat_completion : Cell → Option StatCompletion
as_stat_completion (stat_completion c) = some c
as_stat_completion _ = none

abbrev pub as_string_completion : Cell → Option StringCompletion
as_string_completion (string_completion c) = some c
as_string_completion _ = none

abbrev pub as_strings_completion : Cell → Option StringsCompletion
as_strings_completion (strings_completion c) = some c
as_strings_completion _ = none

abbrev pub as_strings_stat_completion : Cell → Option StringsStatCompletion
as_strings_stat_completion (strings_stat_completion c) = some c
as_strings_stat_completion _ = none

abbrev pub as_acl_completion : Cell → Option AclCompletion
as_acl_completion (acl_completion c) = some c
as_acl_completion _ = none

abbrev pub as_watcher_completion : Cell → Option WatcherCompletion
as_watcher_completion (watcher_completion c) = some c
as_watcher_completion _ = none
