-- ===== src/Extension/Waking.antt =====
-- A listener that waits in `method_get_next_event`, and what ends its wait: the end of the object, or
-- a reply of the client.
use zookeeper_fork.Base.{
  ℕ, suc, ◌≡◌, ◌≢◌, refl, ◌∙◌, Bool, true, false, some, List, [], ◌∷◌, ℤ, arith, ◌<◌,
}
use zookeeper_fork.Structs.{Ptr, null, Queue, queue, zkrb_void}
use zookeeper_fork.Memory.{World, reader, writer, ok, pure, ◌>>=◌, ◌>>◌, Holds, full}
use zookeeper_fork.Ruby.{no_fields}
use zookeeper_fork.Translate.{Jute}
use zookeeper_fork.Event.Show.{EventAt, reply, void-shows}
use zookeeper_fork.Event.Release.{dropped, event_free-void}
use zookeeper_fork.Queue.Chain.{Nodes, IsQueue}
use zookeeper_fork.Queue.Frame.{IsQueue-frame}
use zookeeper_fork.Queue.Fifo.{dequeued}
use zookeeper_fork.Queue.Signal.{signalled, signal-run}
use zookeeper_fork.Callbacks.{zkrb_void_callback}
use zookeeper_fork.Callbacks.Finish.{Ready, done, finish-run, queue-ok, event_at}
use zookeeper_fork.Callbacks.Delivery.{lasting}
use zookeeper_fork.Extension.{
  value, nothing, Act, wait_fd, loop, method_get_next_event, method_wake_event_loop_bang,
}
use zookeeper_fork.Extension.Listening.{
  opened_at, null-no, started, round-cons, round-waits, round-stops, after_read, loop-woken,
}

-- The Ruby side marks the object and calls `wake_event_loop!`.
abbrev pub shut_down : Act
shut_down h = do a ← method_wake_event_loop_bang h; pure (record h { shutting_down = true })

-- A reply without data comes for the request of the context `ctx`.
abbrev pub replies : ℤ → Ptr → Act
replies rc ctx h = do zkrb_void_callback rc ctx; pure h

-- The two ends of the queue's pipe, and a write that will put a byte in.
pub record Piped (w : World) (s : Queue) (n : ℕ) : Type 0 where
  pub read_end : w.os.fds s.pipe_read ≡ some (reader n)
  pub write_end : w.os.fds s.pipe_write ≡ some (writer n)
  pub writes : w.os.write_fails w.os.writes ≡ false

after_read-IsQueue :
    {w : World} {q : Ptr} {s : Queue} {xs : Nodes} (n : ℕ)
    → IsQueue w q s xs
    → IsQueue (after_read n w) q s xs
after_read-IsQueue n is = IsQueue-frame is (record { nodes = λ a k e. e; queues = λ a k e. e })

waiting :
    (jute : Jute) {w : World} {q : Ptr} {s : Queue} (z : Ptr) (others : List Act)
    → z ≢ null
    → IsQueue w q s []
    → method_get_next_event jute others (opened_at z q false) true w
      ≡ loop jute others (opened_at z q false) true (wait_fd s.pipe_read) w
waiting jute {w} {q} z others ne is =
    started jute z q false w ne others true ∙ rw (round-waits jute z false is) refl

shut_down-run :
    {w : World} {q : Ptr} {s : Queue} (z : Ptr)
    → z ≢ null
    → Holds w q (queue s)
    → full s.pipe_write w.os ≡ false
    → shut_down (opened_at z q false) w
      ≡ ok (opened_at z q true) (record w { os = signalled s.pipe_write w.os })
unfolding method_wake_event_loop_bang
shut_down-run z ne h room = rw (null-no ne, signal-run h room) refl

-- A listener that waits on an empty queue of an open handle comes back with nil, once another thread
-- marks the object as shutting down and calls `wake_event_loop!`, if the pipe has room and its write
-- is not refused.
pub get_next_event-shut_down :
    (jute : Jute) {w : World} {q z : Ptr} {s : Queue} {n : ℕ} (others : List Act)
    → z ≢ null
    → IsQueue w q s []
    → Piped w s n
    → full s.pipe_write w.os ≡ false
    → method_get_next_event jute (shut_down ∷ others) (opened_at z q false) true w
      ≡ ok nothing (after_read n (record w { os = signalled s.pipe_write w.os }))
unfolding loop
get_next_event-shut_down jute {w} {q} {z} {s} {n} others ne is p room =
    let v = record w { os = signalled s.pipe_write w.os } in
    let e = p.write_end in
    let r = p.read_end in
    let ok_write = p.writes in
    let is' : IsQueue (after_read n v) q s [] =
      IsQueue-frame is (record { nodes = λ a k e. e; queues = λ a k e. e }) in
    waiting jute z (shut_down ∷ others) ne is
    ∙ loop-woken jute {n = n} {fd = s.pipe_read} (opened_at z q false) (opened_at z q true)
        shut_down others true (shut_down-run z ne is.here room) (ground arith) (ground arith)
    ∙ rw (round-stops jute z true is' true refl) refl

-- The world after the reply, the read of the pipe and the dequeue.
module _ {w : World} {ctx q : Ptr} {req : ℤ} {s : Queue} (r : Ready w ctx req q s []) (rc : ℤ)
    (n : ℕ) where
  abbrev pub replied : World
  replied = done r (lasting req) (some rc) zkrb_void null

  abbrev pub taken_out : World
  taken_out =
      dequeued (after_read n replied) q (record s { tail = suc (suc w.brk) }) s.tail
        (suc (suc w.brk))

  replies-run :
      (z : Ptr) (shutting : Bool)
      → replies rc ctx (opened_at z q shutting) w ≡ ok (opened_at z q shutting) replied
  unfolding zkrb_void_callback
  replies-run z shutting =
      rw (finish-run rc zkrb_void null r, (queue-ok r (lasting req) (some rc) zkrb_void null).0)
        refl

  taken_out-EventAt : EventAt taken_out (suc w.brk) req (some rc) zkrb_void null
  taken_out-EventAt =
      let e = event_at r (lasting req) (some rc) zkrb_void null in
      let is = (queue-ok r (lasting req) (some rc) zkrb_void null).1 in
      let h = is.here.there in
      let c = is.chain.0.there in record { ne_null = omega arith; there = ground arith }

  one_byte :
      Piped w s n → (replied.os.fds s.pipe_read ≡ some (reader n)) × (0 < replied.os.pending n)
  one_byte p =
      let a = p.read_end in let b = p.write_end in let c = p.writes in (ground arith, ground arith)

  -- A listener that waits on an empty queue of an open handle comes back with the reply's hash, the
  -- request and the return code, once the client calls `zkrb_void_callback`, and the event is freed.
  -- It is a condition that the context and the queue are well-formed, that memory does not run out,
  -- and that the pipe has room and its write is not refused.
  pub get_next_event-replies :
      (jute : Jute) {z : Ptr} (others : List Act)
      → z ≢ null
      → Piped w s n
      → method_get_next_event jute (replies rc ctx ∷ others) (opened_at z q false) true w
        ≡ ok (value (reply req rc no_fields)) (dropped taken_out (suc w.brk))
  unfolding loop
  get_next_event-replies jute {z} others ne p =
      let (e, some_bytes) = one_byte p in
      let is = after_read-IsQueue n (queue-ok r (lasting req) (some rc) zkrb_void null).1 in
      waiting jute z (replies rc ctx ∷ others) ne r.is
      ∙ loop-woken jute (opened_at z q false) (opened_at z q false) (replies rc ctx) others true
          (replies-run z false) e some_bytes
      ∙ rw
          (round-cons jute z false true is (void-shows taken_out-EventAt)
            (event_free-void jute taken_out-EventAt))
          refl
