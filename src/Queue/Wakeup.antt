-- ===== src/Queue/Wakeup.antt =====
-- No wakeup is lost, whatever the interleaving of the calls.
use zookeeper_fork.Base.{ℕ, ◌≡◌, ◌≢◌, refl, ◌∙◌, sym, true, [], ◌∷◌, arith, ◌<◌, length}
use mathlib.Core.Path.{subst}
use zookeeper_fork.Structs.{Ptr, null}
use zookeeper_fork.Memory.{ok, read}
use zookeeper_fork.Queue.{zkrb_peek}
use zookeeper_fork.Queue.Chain.{Nodes, events}
use zookeeper_fork.Queue.Fifo.{first_or_null, peek-first}
use zookeeper_fork.Queue.Threads.{
  State, buf_size, Step, produce, signal, take, miss, wake, Reach, here, later, Inv,
}
use zookeeper_fork.Queue.Kept.{read-Inv, same_queue, produced, signal_sent, taken, missed}

pub Step-Inv :
    {q : Ptr} {n : ℕ} {a b : State}
    → Step q a b
    → Inv q n a.world a.waiting
    → Inv q n b.world b.waiting
Step-Inv {q} {n} {a} {b} (produce e ne o f run t) i =
    subst (Inv q n b.world) (sym t) (produced i b.world e ne o f run)
Step-Inv {q} {n} {a} {b} (signal run t) i =
    subst (Inv q n b.world) (sym t) (signal_sent i b.world run)
Step-Inv {q} {n} {a} {b} (take e f run ne t) i =
    subst (Inv q n b.world) (sym t) (taken i b.world e run ne i.xs i.is)
Step-Inv {q} {n} {a} {b} (miss f run t) i =
    subst (Inv q n b.world) (sym t) (missed i b.world run i.xs i.is)
Step-Inv {q} {n} {a} {b} (wake s got h run t) i = subst (Inv q n b.world) (sym t) (
    read-Inv i got b.world
      (subst (λ z. read z.pipe_read buf_size a.world ≡ ok got b.world) (same_queue i s h) run))

pub Reach-Inv :
    {q : Ptr} {n : ℕ} {a b : State}
    → Inv q n a.world a.waiting
    → Reach q a b
    → Inv q n b.world b.waiting
Reach-Inv i here = i
Reach-Inv i (later r st) = Step-Inv st (Reach-Inv i r)

nonempty : (xs : Nodes) → first_or_null (events xs) ≢ null → 0 < length xs
nonempty [] h = absurd (h refl)
nonempty (x ∷ xs) h = omega arith

-- From a state where the queue is well-formed, its descriptors are the two ends of pipe `n`, and
-- each event has its byte if the listener waits, take any steps: events that are not NULL put in with memory
-- at hand and a write that is not refused, signals, and the listener's own steps. If the listener then waits and
-- `zkrb_peek` returns an event, the pipe has a byte, so that the wait is over at once.
pub no_lost_wakeup :
    {q : Ptr} {n : ℕ} {a b : State} (e : Ptr)
    → Inv q n a.world a.waiting
    → Reach q a b
    → b.waiting ≡ true
    → zkrb_peek q b.world ≡ ok e b.world
    → e ≢ null
    → 0 < b.world.os.pending n
no_lost_wakeup {b} e i r waits peek ne =
    let j = Reach-Inv i r in
    let c = j.covered waits in
    let first : first_or_null (events j.xs) ≡ e = (let p = peek-first j.xs j.is in cc) in
    let some_left = nonempty j.xs (λ h. ne (sym first ∙ h)) in omega arith
