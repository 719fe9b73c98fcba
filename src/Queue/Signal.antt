-- ===== src/Queue/Signal.antt =====
-- `zkrb_signal`, which wakes the listener with no event.
use zookeeper_fork.Base.{ℕ, suc, ◌≡◌, true, false, some, none, arith, ◌==◌, if◌then◌else◌}
use zookeeper_fork.Structs.{Ptr, Queue, queue}
use zookeeper_fork.Memory.{
  World, Kernel, reader, writer, ok, blocked, Holds, full, load, load_as, write, log_err,
}
use zookeeper_fork.Queue.{zkrb_signal}

-- The pipe after the write.
abbrev pub signalled : ℕ → Kernel → Kernel
signalled fd os =
    let tried = record os { writes = suc os.writes } in
    if os.write_fails os.writes then tried else elim (os.fds fd) [
      | none ↦ tried
      | some (reader n) ↦ tried
      | some (writer n) ↦ record tried {
        pending = λ m. if m == n then suc (os.pending n) else os.pending m;
      }
    ]

module _ {w : World} {q : Ptr} {s : Queue} (h : Holds w q (queue s)) where
  -- `zkrb_signal` of a queue whose pipe has room, or whose write fails, ends and leaves the memory
  -- alone. A write that succeeds puts one byte into the pipe. One that fails puts none, and no line
  -- is logged about it.
  pub signal-run :
      full s.pipe_write w.os ≡ false
      → zkrb_signal q w ≡ ok tt (record w { os = signalled s.pipe_write w.os })
  unfolding zkrb_signal load load_as write log_err
  signal-run room = ground arith

  pub signal-blocked : full s.pipe_write w.os ≡ true → zkrb_signal q w ≡ blocked
  unfolding zkrb_signal load load_as write log_err
  signal-blocked room = ground arith

pub signal_unlogged : (fd : ℕ) (os : Kernel) → (signalled fd os).logged ≡ os.logged
signal_unlogged fd os = ground arith
