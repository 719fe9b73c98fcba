-- ===== src/System.antt =====
-- The parts together: requests of Ruby threads, callbacks of the client's thread and calls of the
-- listener on one open handle, one after the other, against a mailbox. The C functions that run are
-- those of ext/zookeeper_c.c and ext/zookeeper_lib.c, as the other files model them.
pub mod Mailbox
pub mod Letters
pub mod Contexts
pub mod State
pub mod Used
pub mod Answering
pub mod Taking
pub mod Reading
pub mod Growing
pub mod Asking
pub mod First
pub mod Refines
pub mod Closing
pub mod Life
use zookeeper_fork.Base.{
  ℕ, zero, suc, Bool, true, false, List, [], ◌∷◌, ◌++◌, Option, none, some, ℤ, pos, eqb_ℤ,
  get_elem?, if◌then◌else◌, ◌≡◌, ltb, ◌^◌,
}
use zookeeper_fork.Structs.{Ptr, Bytes, Stat, zkrb_global_req}
use zookeeper_fork.Memory.{Cmd, pure, ◌>>=◌, ◌>>◌}
use zookeeper_fork.Ruby.{Value}
use zookeeper_fork.Translate.{Jute}
use zookeeper_fork.Callbacks.{
  zkrb_state_callback, zkrb_data_callback, zkrb_stat_callback, zkrb_string_callback,
  zkrb_void_callback, zoo_session_event,
}
use zookeeper_fork.Extension.{
  Handle, Answer, method_get_next_event, method_has_events, method_wake_event_loop_bang,
}
use zookeeper_fork.Wrapper.{Client}
use zookeeper_fork.Wrapper.Region.{Interpreter}
use zookeeper_fork.Requests.{Arg, qnil, qtrue, qfalse, fixnum, string, Functions}
use zookeeper_fork.Requests.Reads.{method_exists, method_get, method_get_children}
use zookeeper_fork.Requests.Writes.{method_create, method_delete, method_set, method_sync}

-- An asynchronous request: a path, known by its address and length, and what the method takes besides.
pub data Request : Type 0 where
  exists_request exists_watch get_request get_watch children_request children_watch :
      Ptr → ℕ → Request
  sync_request : Ptr → ℕ → Request
  delete_request : Ptr → ℕ → ℤ → Request
  set_request create_request : Ptr → ℕ → Ptr → ℕ → ℤ → Request

-- What the client hands to the callback of a context.
pub data Reply : Type 0 where
  void_reply : ℤ → Reply
  stat_reply : ℤ → Option Stat → Reply
  string_reply : ℤ → Option Bytes → Reply
  data_reply : ℤ → Option Bytes → ℤ → Option Stat → Reply
  watch_event : ℤ → ℤ → Bytes → Reply

-- One call from outside. `answer i` is for the context number `i` of those still with the client.
pub data Act : Type 0 where
  ask : ℤ → Request → Act
  answer : ℕ → Reply → Act
  listen : Act
  look : Act
  wake : Act

-- The contexts that the client has, each with the number of its request.
abbrev pub Pending : Type 0
Pending = List (Ptr × ℤ)

abbrev pub delete_at {ℓ} : {A : Type ℓ} → List A → ℕ → List A
delete_at [] i = []
delete_at (x ∷ xs) zero = xs
delete_at (x ∷ xs) (suc i) = x ∷ delete_at xs i

-- What is done with a value that may be missing.
abbrev pub if_some {ℓ κ} : {A : Type ℓ} {B : Type κ} → Option A → B → (A → B) → B
if_some none b k = b
if_some (some a) b k = k a

-- The client calls the function of the reply.
pub deliver : Reply → Ptr → Cmd (Unit {0})
unfolding zkrb_state_callback zkrb_data_callback zkrb_stat_callback zkrb_string_callback
    zkrb_void_callback
deliver (void_reply rc) ctx = zkrb_void_callback rc ctx
deliver (stat_reply rc o) ctx = zkrb_stat_callback rc o ctx
deliver (string_reply rc o) ctx = zkrb_string_callback rc o ctx
deliver (data_reply rc b n o) ctx = zkrb_data_callback rc b n o ctx
deliver (watch_event type state path) ctx = zkrb_state_callback type state (some path) ctx

-- Whether the context stays with the client.
abbrev pub keeps : ℤ → Reply → Bool
keeps n (watch_event type state path) = eqb_ℤ type zoo_session_event
keeps n _ = eqb_ℤ n zkrb_global_req

abbrev pub watches : Request → Bool
watches (exists_watch p len) = true
watches (get_watch p len) = true
watches (children_watch p len) = true
watches _ = false

-- The contexts that a request makes, the first at `ctx`: with a watch there are two.
abbrev pub handed : ℤ → Request → Ptr → Pending
handed n r ctx = (ctx, n) ∷ (if watches r then (suc ctx, n) ∷ [] else [])

module _ (jute : Jute) (client : Client) (ruby : Interpreter) (fns : Functions) (h : Handle) where
  -- The method of the request, called asynchronously.
  pub perform : ℤ → Request → Cmd Answer
  unfolding method_sync method_exists method_get method_get_children method_create method_delete
      method_set
  perform n (exists_request p len) =
      method_exists client ruby fns h (fixnum n) (string p len) qtrue qfalse
  perform n (exists_watch p len) =
      method_exists client ruby fns h (fixnum n) (string p len) qtrue qtrue
  perform n (get_request p len) =
      method_get client ruby fns h (fixnum n) (string p len) qtrue qfalse
  perform n (get_watch p len) = method_get client ruby fns h (fixnum n) (string p len) qtrue qtrue
  perform n (children_watch p len) =
      method_get_children client ruby fns h (fixnum n) (string p len) qtrue qtrue
  perform n (sync_request p len) = method_sync client ruby fns h (fixnum n) (string p len)
  perform n (children_request p len) =
      method_get_children client ruby fns h (fixnum n) (string p len) qtrue qfalse
  perform n (delete_request p len v) =
      method_delete client ruby fns h (fixnum n) (string p len) (fixnum v) qtrue
  perform n (set_request p len b size v) =
      method_set client ruby fns h (fixnum n) (string p len) (string b size) qtrue (fixnum v)
  perform n (create_request p len b size flags) =
      method_create jute client ruby fns h (fixnum n) (string p len) (string b size) qtrue qnil
        (fixnum flags)

  -- The acts in turn, and what the calls from Ruby return. The first block that a request allocates is
  -- its context.
  pub serve : List Act → Pending → Cmd (List Answer)
  unfolding perform deliver method_get_next_event method_has_events method_wake_event_loop_bang
  serve [] ps = pure []
  serve (ask n r ∷ acts) ps =
      λ w. (do a ← perform n r; rest ← serve acts (ps ++ handed n r (suc w.brk)); pure (a ∷ rest)) w
  serve (answer i r ∷ acts) ps =
      if_some (get_elem? ps i) (serve acts ps)
        λ c. do deliver r c.0; serve acts (if keeps c.1 r then ps else delete_at ps i)
  serve (listen ∷ acts) ps = do
    a ← method_get_next_event jute [] h false
    rest ← serve acts ps
    pure (a ∷ rest)
  serve (look ∷ acts) ps = do a ← method_has_events h; rest ← serve acts ps; pure (a ∷ rest)
  serve (wake ∷ acts) ps = do
    a ← method_wake_event_loop_bang h
    rest ← serve acts ps
    pure (a ∷ rest)
