-- ===== src/Requests/Locals.antt =====
-- The local variables of a method, and the buffer of `method_get`: the worlds with them and when they
-- are gone.
use zookeeper_fork.Base.{suc, refl, some, none, pos, arith}
use zookeeper_fork.Structs.{raw, int}
use zookeeper_fork.Memory.{World, Fresh, write_cell}
use zookeeper_fork.Queue.Frame.{allocated}
use zookeeper_fork.Requests.Reads.{max_znode_size}
use zookeeper_fork.Requests.Quiet.{Quiet}

-- A local variable has come and gone.
abbrev pub after_local : World → World
after_local w = write_cell (allocated w raw) (suc w.brk) none

pub after_local-Quiet : (w : World) → Fresh w → Quiet w (after_local w)
after_local-Quiet w f = record {
  same = λ a. ground (arith, f a);
  more = omega arith;
  memory = λ n. refl;
  system = refl;
}

-- Two have.
abbrev pub after_locals : World → World
after_locals w =
    write_cell (write_cell (allocated (allocated w raw) raw) (suc (suc w.brk)) none) (suc w.brk)
      none

pub after_locals-Quiet : (w : World) → Fresh w → Quiet w (after_locals w)
after_locals-Quiet w f = record {
  same = λ a. ground (arith, f a);
  more = omega arith;
  memory = λ n. refl;
  system = refl;
}

-- The buffer, the length and the Stat of `method_get`, before the call, and when they are gone.
abbrev pub with_buffer : World → World
with_buffer w =
    let u = record (write_cell w (suc w.brk) (some raw)) { brk = suc w.brk } in
    allocated (allocated u (int (pos max_znode_size))) raw

abbrev pub after_get : World → World
after_get w =
    let b = suc w.brk in
    write_cell (write_cell (write_cell (with_buffer w) (suc (suc b)) none) (suc b) none) b none

pub after_get-Quiet : (w : World) → Fresh w → Quiet w (after_get w)
after_get-Quiet w f = record {
  same = λ a. ground (arith, f a);
  more = omega arith;
  memory = λ n. refl;
  system = refl;
}
