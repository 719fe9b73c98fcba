-- ===== src/Extension/Listening.antt =====
-- `method_get_next_event`: what it returns from a queue with events, from an empty one, and after a
-- wait that another thread ends.
use zookeeper_fork.Base.{
  ℕ, ◌-◌, ◌≡◌, ◌≢◌, refl, ◌∙◌, Bool, true, false, not, some, List, [], ◌∷◌, pos, negsuc, eqb_ℤ, ltb,
  arith, ◌==◌, ◌||◌, if◌then◌else◌, ◌<◌,
}
use zookeeper_fork.Structs.{Ptr, null, Queue, as_queue}
use zookeeper_fork.Memory.{World, Kernel, reader, ok, and_then, read}
use zookeeper_fork.Ruby.{Value}
use zookeeper_fork.Translate.{Jute}
use zookeeper_fork.Translate.Show.{load_as-ok}
use zookeeper_fork.Event.{zkrb_event_to_ruby, zkrb_event_free}
use zookeeper_fork.Queue.Chain.{Nodes, IsQueue, start}
use zookeeper_fork.Queue.Fifo.{dequeued, dequeue-cons, dequeue-nil}
use zookeeper_fork.Extension.{
  Handle, value, nothing, Act, answer, wait_fd, readable, buf_size, take, round, loop,
  method_get_next_event,
}

-- An open handle on the queue `q`.
abbrev pub opened_at : Ptr → Ptr → Bool → Handle
opened_at z q shutting = record { zh = z; queue = q; closed = false; shutting_down = shutting }

pub null-no : {p : Ptr} → p ≢ null → (p == null) ≡ false
null-no ne = ground arith

pub started :
    (jute : Jute) (z q : Ptr) (shutting : Bool) (w : World)
    → z ≢ null
    → (others : List Act) (blocking : Bool)
    → method_get_next_event jute others (opened_at z q shutting) blocking w
      ≡ and_then
          (round jute (opened_at z q shutting) blocking w)
          (loop jute others (opened_at z q shutting) blocking)
unfolding method_get_next_event
started jute z q shutting w ne others blocking = rw (null-no ne) refl

take-ok :
    (jute : Jute) (e : Ptr) {v : Value} {w u : World}
    → zkrb_event_to_ruby e w ≡ ok v w
    → zkrb_event_free jute e w ≡ ok tt u
    → take jute e w ≡ ok (answer (value v)) u
unfolding take
take-ok jute e shows frees = rw (shows, frees) refl

module _ (jute : Jute) {w : World} {q : Ptr} {s : Queue} (z : Ptr) (shutting : Bool) where
  pub round-cons :
      {a e : Ptr} {xs : Nodes} {v : Value} {u : World} (blocking : Bool)
      → IsQueue w q s ((a, e) ∷ xs)
      → zkrb_event_to_ruby e (dequeued w q s a (start xs s.tail))
        ≡ ok v (dequeued w q s a (start xs s.tail))
      → zkrb_event_free jute e (dequeued w q s a (start xs s.tail)) ≡ ok tt u
      → round jute (opened_at z q shutting) blocking w ≡ ok (answer (value v)) u
  unfolding round
  round-cons {e} blocking is shows frees =
      rw ((dequeue-cons is).0, null-no is.chain.1) (take-ok jute e shows frees)

  pub round-waits :
      IsQueue w q s [] → round jute (opened_at z q false) true w ≡ ok (wait_fd s.pipe_read) w
  unfolding round
  round-waits is = rw (dequeue-nil is, load_as-ok as_queue is.here refl) refl

  pub round-stops :
      IsQueue w q s []
      → (blocking : Bool) → (not blocking || shutting) ≡ true
      → round jute (opened_at z q shutting) blocking w ≡ ok (answer nothing) w
  unfolding round
  round-stops is blocking e = rw (dequeue-nil is, e) refl

  -- From an open handle whose queue is not empty, `method_get_next_event` returns the hash of the
  -- first event at once, and the event is taken out and freed, if it can be shown and freed.
  pub get_next_event-cons :
      {a e : Ptr} {xs : Nodes} {v : Value} {u : World} (others : List Act) (blocking : Bool)
      → z ≢ null
      → IsQueue w q s ((a, e) ∷ xs)
      → zkrb_event_to_ruby e (dequeued w q s a (start xs s.tail))
        ≡ ok v (dequeued w q s a (start xs s.tail))
      → zkrb_event_free jute e (dequeued w q s a (start xs s.tail)) ≡ ok tt u
      → method_get_next_event jute others (opened_at z q shutting) blocking w ≡ ok (value v) u
  unfolding loop
  get_next_event-cons others blocking ne is shows frees =
      started jute z q shutting w ne others blocking ∙ rw (round-cons blocking is shows frees) refl

  -- From an open handle whose queue is empty, `method_get_next_event` returns nil and changes
  -- nothing, if it must not block or the object is shutting down.
  pub get_next_event-nil :
      (others : List Act) (blocking : Bool)
      → z ≢ null
      → IsQueue w q s []
      → (not blocking || shutting) ≡ true
      → method_get_next_event jute others (opened_at z q shutting) blocking w ≡ ok nothing w
  unfolding loop
  get_next_event-nil others blocking ne is e =
      started jute z q shutting w ne others blocking ∙ rw (round-stops is blocking e) refl

-- The pipe `n` after a read of all it has, or of the 64 bytes that fit.
abbrev pub drained : ℕ → Kernel → Kernel
drained n os =
    let got = if ltb buf_size (os.pending n) then buf_size else os.pending n in
    record os { pending = λ m. if m == n then os.pending n - got else os.pending m }

abbrev pub after_read : ℕ → World → World
after_read n w = record w { os = drained n w.os }

read-drained :
    (w : World) (n fd : ℕ)
    → w.os.fds fd ≡ some (reader n)
    → eqb_ℤ (pos (if ltb buf_size (w.os.pending n) then buf_size else w.os.pending n)) (negsuc 0)
        ≡ false
      × (read fd buf_size w
          ≡ ok
              (pos (if ltb buf_size (w.os.pending n) then buf_size else w.os.pending n))
              (after_read n w))
unfolding read
read-drained w n fd e = ground arith

readable-pending :
    (w : World) (n fd : ℕ)
    → w.os.fds fd ≡ some (reader n)
    → 0 < w.os.pending n
    → readable fd w ≡ ok true w
unfolding readable
readable-pending w n fd e h = ground arith

-- A wait that one act of another thread ends.
pub loop-woken :
    (jute : Jute) {w v : World} {n fd : ℕ} (h k : Handle) (act : Act) (others : List Act)
    (blocking : Bool)
    → act h w ≡ ok k v
    → v.os.fds fd ≡ some (reader n)
    → 0 < v.os.pending n
    → loop jute (act ∷ others) h blocking (wait_fd fd) w
      ≡ and_then (round jute k blocking (after_read n v)) (loop jute others k blocking)
unfolding loop
loop-woken jute {v} {n} {fd} h k act others blocking run e some_bytes =
    rw (run, readable-pending v n fd e some_bytes, (read-drained v n fd e).1) refl
