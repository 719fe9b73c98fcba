-- ===== src/Callbacks.antt =====
-- The completions and the watcher of ext/zookeeper_lib.c, which the client's threads call: each copies
-- what it is handed into an event and puts that into the queue of its calling context. What the
-- client owns (`path`, `value`, `stat`, the vectors) is a value here, `none` for NULL.
pub mod Delivery
pub mod Next
pub mod Clones
pub mod Arrival
pub mod Arrivals
pub mod Replies
pub mod Lists
pub mod Copies
pub mod Finish
pub mod Watcher
pub mod Arrays
pub mod Vectors
pub mod AclRounds
pub mod AclVectors
use zookeeper_fork.Base.{
  ℕ, List, Option, none, some, ℤ, pos, negsuc, eqb_ℤ, ◌==◌, if◌then◌else◌, leb, take, length,
}
use zookeeper_fork.Structs.{
  Ptr, null, Bytes, Stat, EventType, zkrb_data, zkrb_stat, zkrb_void, zkrb_string, zkrb_strings,
  zkrb_strings_stat, zkrb_acl, zkrb_watcher, zkrb_global_req, event, calling_context, bytes, stat,
  data_completion, stat_completion, string_completion, strings_completion, strings_stat_completion,
  acl_completion, watcher_completion, as_calling_context,
}
use zookeeper_fork.Memory.{
  Cmd, pure, crash, ◌>>=◌, ◌>>◌, load_as, store, malloc, new, free, deref, unless,
}
use zookeeper_fork.Translate.{
  Jute, AclValue, strdup, zkrb_clone_string_vector, zkrb_clone_acl_vector,
}
use zookeeper_fork.Event.{zkrb_event_alloc}
use zookeeper_fork.Queue.{zkrb_enqueue}

-- ZOO_SESSION_EVENT of the client: -1
abbrev pub zoo_session_event : ℤ
zoo_session_event = negsuc 0

-- NULL if the memory is exhausted.
unfoldable pub zkrb_calling_context_alloc : ℤ → Ptr → Cmd Ptr
unfolding malloc store
zkrb_calling_context_alloc req_id queue = do
  p ← malloc
  if p == null
      then pure null
      else do store p (calling_context (record { req_id = req_id; queue = queue })); pure p

-- ZKH_SETUP_EVENT: the event, its request and the queue. The context of a single request is done
-- with here; that of the session's watcher stays.
setup_event : Ptr → Cmd (Ptr × ℤ × Ptr)
unfolding load_as free zkrb_event_alloc
setup_event calling_ctx = do
  ctx ← load_as as_calling_context calling_ctx
  e ← zkrb_event_alloc
  deref e
  unless (eqb_ℤ ctx.req_id zkrb_global_req) (free calling_ctx)
  pure (e, ctx.req_id, ctx.queue)

-- The lines from ZKH_SETUP_EVENT on, which the seven completions share.
pub finish : ℤ → EventType → Ptr → Ptr → Cmd (Unit {0})
unfolding setup_event store zkrb_enqueue
finish rc type completion calling_ctx = do
  (e, req_id, queue) ← setup_event calling_ctx
  store e (event (record { req_id = req_id; rc = some rc; type = type; completion = completion }))
  zkrb_enqueue queue e

-- `malloc` and `memcpy` of a Stat.
pub clone_stat : Option Stat → Cmd Ptr
unfolding new
clone_stat none = pure null
clone_stat (some s) = new (stat s)

-- `malloc` and `memcpy` of a buffer; it must have `value_len` bytes.
pub clone_value : Option Bytes → ℤ → Cmd (Ptr × ℕ)
unfolding new
clone_value none n = pure (null, 0)
clone_value (some v) (negsuc n) = crash
clone_value (some v) (pos n) =
    if leb n (length v) then (do p ← new (bytes (take n v)); pure (p, n)) else crash

-- The same lines in the watcher, which goes by the type of the event: a session event may come again,
-- any other is the last one for its context.
pub finish_watch : ℤ → Ptr → Ptr → Cmd (Unit {0})
unfolding load_as store free zkrb_event_alloc zkrb_enqueue
finish_watch type completion calling_ctx = do
  ctx ← load_as as_calling_context calling_ctx
  e ← zkrb_event_alloc
  deref e
  unless (eqb_ℤ type zoo_session_event) (free calling_ctx)
  store e (
      event
        (record { req_id = ctx.req_id; rc = none; type = zkrb_watcher; completion = completion }))
  zkrb_enqueue ctx.queue e

-- `strdup` of a NULL path is undefined.
unfoldable pub zkrb_state_callback : ℤ → ℤ → Option Bytes → Ptr → Cmd (Unit {0})
unfolding store new strdup finish_watch
zkrb_state_callback type state none calling_ctx = crash
zkrb_state_callback type state (some path) calling_ctx = do
  wc ← new (watcher_completion (record { type = type; state = state; path = null }))
  p ← strdup path
  store wc (watcher_completion (record { type = type; state = state; path = p }))
  finish_watch type wc calling_ctx

unfoldable pub zkrb_data_callback : ℤ → Option Bytes → ℤ → Option Stat → Ptr → Cmd (Unit {0})
unfolding store new clone_value clone_stat finish
zkrb_data_callback rc value value_len st calling_ctx = do
  dc ← new (data_completion (record { value = null; data_len = 0; stat = null }))
  (v, n) ← clone_value value value_len
  s ← clone_stat st
  store dc (data_completion (record { value = v; data_len = n; stat = s }))
  finish rc zkrb_data dc calling_ctx

unfoldable pub zkrb_stat_callback : ℤ → Option Stat → Ptr → Cmd (Unit {0})
unfolding store new clone_stat finish
zkrb_stat_callback rc st calling_ctx = do
  sc ← new (stat_completion (record { stat = null }))
  s ← clone_stat st
  store sc (stat_completion (record { stat = s }))
  finish rc zkrb_stat sc calling_ctx

-- `string ? strdup(string) : NULL`
pub clone_string : Option Bytes → Cmd Ptr
unfolding strdup
clone_string none = pure null
clone_string (some s) = strdup s

unfoldable pub zkrb_string_callback : ℤ → Option Bytes → Ptr → Cmd (Unit {0})
unfolding store new clone_string finish
zkrb_string_callback rc s calling_ctx = do
  sc ← new (string_completion (record { value = null }))
  p ← clone_string s
  store sc (string_completion (record { value = p }))
  finish rc zkrb_string sc calling_ctx

unfoldable pub zkrb_void_callback : ℤ → Ptr → Cmd (Unit {0})
unfolding finish
zkrb_void_callback rc calling_ctx = finish rc zkrb_void null calling_ctx

module _ (jute : Jute) where
  pub clone_strings : Option (List Bytes) → Cmd Ptr
  unfolding zkrb_clone_string_vector
  clone_strings none = pure null
  clone_strings (some l) = zkrb_clone_string_vector jute l

  pub clone_acls : Option (List AclValue) → Cmd Ptr
  unfolding zkrb_clone_acl_vector
  clone_acls none = pure null
  clone_acls (some l) = zkrb_clone_acl_vector jute l

  unfoldable pub zkrb_strings_callback : ℤ → Option (List Bytes) → Ptr → Cmd (Unit {0})
  unfolding store new clone_strings finish
  zkrb_strings_callback rc l calling_ctx = do
    sc ← new (strings_completion (record { values = null }))
    v ← clone_strings l
    store sc (strings_completion (record { values = v }))
    finish rc zkrb_strings sc calling_ctx

  unfoldable pub zkrb_strings_stat_callback :
      ℤ → Option (List Bytes) → Option Stat → Ptr → Cmd (Unit {0})
  unfolding store new clone_strings clone_stat finish
  zkrb_strings_stat_callback rc l st calling_ctx = do
    sc ← new (strings_stat_completion (record { values = null; stat = null }))
    s ← clone_stat st
    v ← clone_strings l
    store sc (strings_stat_completion (record { values = v; stat = s }))
    finish rc zkrb_strings_stat sc calling_ctx

  unfoldable pub zkrb_acl_callback : ℤ → Option (List AclValue) → Option Stat → Ptr → Cmd (Unit {0})
  unfolding store new clone_acls clone_stat finish
  zkrb_acl_callback rc l st calling_ctx = do
    ac ← new (acl_completion (record { acl = null; stat = null }))
    v ← clone_acls l
    s ← clone_stat st
    store ac (acl_completion (record { acl = v; stat = s }))
    finish rc zkrb_acl ac calling_ctx
