-- ===== src/Extension.antt =====
-- The event side of ext/zookeeper_c.c: the handle that a Ruby object keeps, the loop of
-- `method_get_next_event`, and what wakes and closes it. The client's functions are parameters.
pub mod Handles
pub mod Listening
pub mod Waking
use zookeeper_fork.Base.{
  ℕ, Bool, true, false, not, List, [], ◌∷◌, Option, none, some, ℤ, pos, negsuc, eqb_ℤ, ◌==◌, ◌||◌,
  if◌then◌else◌,
}
use zookeeper_fork.Structs.{Ptr, null, Queue, as_queue}
use zookeeper_fork.Memory.{
  World, Cmd, Run, End, reader, writer, ok, blocked, pure, ◌>>=◌, ◌>>◌, load_as, free, read,
}
use zookeeper_fork.Ruby.{Value}
use zookeeper_fork.Translate.{Jute}
use zookeeper_fork.Event.{zkrb_event_to_ruby, zkrb_event_free}
use zookeeper_fork.Queue.{zkrb_peek, zkrb_dequeue, zkrb_signal, zkrb_queue_free}

-- `struct zkrb_instance_data`, its identifiers left out, and the instance variables `@_closed` and
-- `@_shutting_down` of the object it belongs to.
pub record Handle : Type 0 where
  pub zh : Ptr
  pub queue : Ptr
  pub closed : Bool
  pub shutting_down : Bool

-- What a method returns: a value, or nil, or an exception.
pub data Answer : Type 0 where
  value : Value → Answer
  truth : Bool → Answer
  nothing : Answer
  raised : Answer

-- What the other threads do while the interpreter's lock is released, which may change the handle.
abbrev pub Act : Type 0
Act = Handle → Cmd Handle

-- The functions of the client that take a handle apart.
pub record Closing : Type 0 where
  pub zoo_get_context : Ptr → Cmd Ptr
  pub zookeeper_close : Ptr → Cmd ℤ

-- `char buf[64]`
abbrev pub buf_size : ℕ
buf_size = 64

-- FETCH_DATA_PTR raises if the handle is closed.
abbrev pub fetch_data_ptr : {A : Type 0} → Handle → A → Cmd A → Cmd A
fetch_data_ptr h failed m = if h.zh == null then pure failed else m

-- One round of the loop, up to the wait: an answer, or the descriptor to wait for.
pub data Round : Type 0 where
  answer : Answer → Round
  wait_fd : ℕ → Round

-- `rb_thread_wait_fd` comes back: the pipe has bytes, or the descriptor is no longer one to wait for.
unfoldable pub readable : ℕ → Cmd Bool
readable fd w = elim (w.os.fds fd) [
  | none ↦ ok true w
  | some (writer n) ↦ ok true w
  | some (reader n) ↦ ok (not (w.os.pending n == 0)) w
]

module _ (jute : Jute) where
  -- The event becomes a hash and is freed.
  pub take : Ptr → Cmd Round
  unfolding zkrb_event_to_ruby zkrb_event_free
  take e = do hash ← zkrb_event_to_ruby e; zkrb_event_free jute e; pure (answer (value hash))

  pub round : Handle → Bool → Cmd Round
  unfolding zkrb_dequeue load_as
  round h blocking = if h.closed then pure (answer nothing) else do
    e ← zkrb_dequeue h.queue
    if e == null
        then (if not blocking || h.shutting_down
            then pure (answer nothing)
            else do s ← load_as as_queue h.queue; pure (wait_fd s.pipe_read))
        else take e

  -- The rest of the loop. `others` is what happens in the waits, act by act; after the last the
  -- listener waits for ever.
  pub loop : List Act → Handle → Bool → Round → Cmd Answer
  unfolding readable read round
  loop others h blocking (answer a) = pure a
  loop [] h blocking (wait_fd fd) = λ _. blocked
  loop (act ∷ others) h blocking (wait_fd fd) = do
    h' ← act h
    r ← readable fd
    if not r then loop others h' blocking (wait_fd fd) else do
      bytes_read ← read fd buf_size
      if eqb_ℤ bytes_read (negsuc 0)
          then pure raised
          else do next ← round h' blocking; loop others h' blocking next

  unfoldable pub method_get_next_event : List Act → Handle → Bool → Cmd Answer
  unfolding round loop
  method_get_next_event others h blocking =
      if h.closed
      then pure nothing
      else fetch_data_ptr h raised (do r ← round h blocking; loop others h blocking r)

unfoldable pub method_has_events : Handle → Cmd Answer
unfolding zkrb_peek
method_has_events h =
    fetch_data_ptr h raised do e ← zkrb_peek h.queue; pure (truth (not (e == null)))

unfoldable pub method_wake_event_loop_bang : Handle → Cmd Answer
unfolding zkrb_signal
method_wake_event_loop_bang h = fetch_data_ptr h raised do zkrb_signal h.queue; pure nothing

module _ (client : Closing) where
  unfoldable pub close_zh : Ptr → Cmd ℤ
  unfolding free
  close_zh zh =
      if zh == null
      then pure (pos 0)
      else do ctx ← client.zoo_get_context zh; rv ← client.zookeeper_close zh; free ctx; pure rv

module _ (jute : Jute) (client : Closing) where
  -- `fuel` bounds the loop of `zkrb_queue_free`.
  unfoldable pub destroy_zkrb_instance : ℕ → Handle → Cmd (ℤ × Handle)
  unfolding close_zh zkrb_queue_free
  destroy_zkrb_instance fuel h = do
    rv ← close_zh client h.zh
    if h.queue == null then pure tt else zkrb_queue_free jute fuel h.queue
    pure (rv, record h { zh = null; queue = null })

  -- What the collector calls.
  unfoldable pub free_zkrb_instance_data : ℕ → Handle → Cmd (Unit {0})
  unfolding destroy_zkrb_instance
  free_zkrb_instance_data fuel h = do destroy_zkrb_instance fuel h; pure tt

  unfoldable pub method_close_handle : ℕ → Handle → Cmd (Answer × Handle)
  unfolding destroy_zkrb_instance
  method_close_handle fuel h =
      fetch_data_ptr h (raised, h)
        do (rc, h') ← destroy_zkrb_instance fuel (record h { closed = true }); pure (nothing, h')
