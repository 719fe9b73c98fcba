-- ===== src/Queue/Setup.antt =====
-- `zkrb_queue_alloc`: an empty queue, or NULL with nothing left allocated.
use zookeeper_fork.Base.{
  suc, ◌+◌, ◌*◌, ◌≡◌, refl, true, false, some, none, [], arith, ◌==◌, if◌then◌else◌, ◌||◌,
  Bool-cases, inl, inr,
}
use zookeeper_fork.Structs.{Ptr, null, Queue, Cell, queue, raw}
use zookeeper_fork.Memory.{
  World, reader, writer, Run, ok, Fresh, write_cell, store, malloc, free, pipe, log_err,
}
use zookeeper_fork.Queue.{ll, zkrb_queue_alloc}
use zookeeper_fork.Queue.Chain.{IsQueue}

-- The queue that the `n`-th pipe serves.
abbrev pub fresh_queue : World → Queue
fresh_queue w = record {
  head = suc (suc w.brk);
  tail = suc (suc w.brk);
  pipe_read = 2 * w.os.pipes;
  pipe_write = 2 * w.os.pipes + 1;
}

-- What `zkrb_queue_alloc` has made when it returns `p`.
pub record Made (w : World) (p : Ptr) (v : World) : Type 0 where
  pub is : IsQueue v p (fresh_queue w) []
  pub fresh : Fresh v
  pub read_end : v.os.fds (2 * w.os.pipes) ≡ some (reader w.os.pipes)
  pub write_end : v.os.fds (2 * w.os.pipes + 1) ≡ some (writer w.os.pipes)
  pub kept : (a : Ptr) (c : Cell) → w.cell a ≡ some c → v.cell a ≡ some c

abbrev opened : World → World
opened w = record w {
  os = record w.os {
    pipes = suc w.os.pipes;
    fds = λ d.
        if d == 2 * w.os.pipes
        then some (reader w.os.pipes)
        else if d == 2 * w.os.pipes + 1
        then some (writer w.os.pipes)
        else w.os.fds d;
  };
}

abbrev pub set_up : World → World
set_up w =
    let p = suc w.brk in
    let u = record (write_cell (opened w) p (some raw)) { brk = p } in
    let u = record (write_cell u (suc p) (some raw)) { brk = suc p } in
    let u = write_cell u (suc p) (some (ll null null)) in
    write_cell u p (some (queue (fresh_queue w)))

module _ (w : World) (f : Fresh w) where
  -- The same, with the world written out.
  pub alloc-run :
      w.os.pipe_fails w.os.pipes ≡ false
      → w.oom w.brk ≡ false
      → w.oom (suc w.brk) ≡ false
      → zkrb_queue_alloc w ≡ ok (suc w.brk) (set_up w)
  unfolding zkrb_queue_alloc pipe malloc store
  alloc-run a b c = ground arith

  pub set_up-IsQueue : IsQueue (set_up w) (suc w.brk) (fresh_queue w) []
  set_up-IsQueue = record {
    here = record { ne_null = omega arith; there = ground arith };
    first = refl;
    chain = tt;
    last = record { ne_null = omega arith; there = ground arith };
  }

  set_up-Made : Made w (suc w.brk) (set_up w)
  set_up-Made = record {
    is = set_up-IsQueue;
    fresh = λ a above. ground (arith, f a);
    read_end = ground arith;
    write_end = ground arith;
    kept = λ a c e. ground (arith, f a);
  }

  -- With a pipe and memory for two blocks, `zkrb_queue_alloc` returns a well-formed queue with no
  -- event, whose descriptors are the ends of a new pipe, and every block in use stays as it was.
  pub queue_alloc-empty :
      w.os.pipe_fails w.os.pipes ≡ false
      → w.oom w.brk ≡ false
      → w.oom (suc w.brk) ≡ false
      → (v : World) × (zkrb_queue_alloc w ≡ ok (suc w.brk) v) × Made w (suc w.brk) v
  queue_alloc-empty a b c = (set_up w, alloc-run a b c, set_up-Made)

-- `r` is NULL, with no block more or less than in `w`, one line logged, and the pipe, if there is one, still open.
pub record NoQueue (w : World) (r : Run Ptr) : Type 0 where
  pub world : World
  pub run : r ≡ ok null world
  pub same : (a : Ptr) → world.cell a ≡ w.cell a
  pub logged : world.os.logged ≡ suc w.os.logged
  pub still_open :
      w.os.pipe_fails w.os.pipes ≡ false → world.os.fds (2 * w.os.pipes) ≡ some (reader w.os.pipes)

module _ (w : World) (f : Fresh w) where
  no_pipe : w.os.pipe_fails w.os.pipes ≡ true → NoQueue w (zkrb_queue_alloc w)
  unfolding zkrb_queue_alloc pipe free log_err
  no_pipe h = record {
    world = record w { os = record w.os { pipes = suc w.os.pipes; logged = suc w.os.logged } };
    run = ground arith;
    same = λ a. refl;
    logged = refl;
    still_open = λ o. cc;
  }

  no_memory :
      w.os.pipe_fails w.os.pipes ≡ false → w.oom w.brk ≡ true → NoQueue w (zkrb_queue_alloc w)
  unfolding zkrb_queue_alloc pipe malloc free log_err
  no_memory p h = record {
    world = record w { brk = suc w.brk; os = record (opened w).os { logged = suc w.os.logged } };
    run = ground arith;
    same = λ a. refl;
    logged = refl;
    still_open = λ o. ground arith;
  }

  abbrev given_back : World
  given_back =
      write_cell
        (record (write_cell (opened w) (suc w.brk) (some raw)) {
          brk = suc (suc w.brk);
          os = record (opened w).os { logged = suc w.os.logged };
        })
        (suc w.brk) none

  no_node :
      w.os.pipe_fails w.os.pipes ≡ false
      → w.oom w.brk ≡ false
      → w.oom (suc w.brk) ≡ true
      → NoQueue w (zkrb_queue_alloc w)
  unfolding zkrb_queue_alloc pipe malloc free log_err
  no_node p h k = record {
    world = given_back;
    run = ground arith;
    same = λ a. ground (arith, f a);
    logged = refl;
    still_open = λ o. ground arith;
  }

  -- If the pipe or either block cannot be had, `zkrb_queue_alloc` returns NULL, logs a line and
  -- leaves the memory as it was, and a pipe that was opened stays open.
  pub queue_alloc-null :
      (w.os.pipe_fails w.os.pipes || w.oom w.brk || w.oom (suc w.brk)) ≡ true
      → NoQueue w (zkrb_queue_alloc w)
  queue_alloc-null h = elim (Bool-cases (w.os.pipe_fails w.os.pipes)) [
    | inl y ↦ no_pipe y
    | inr n ↦ elim (Bool-cases (w.oom w.brk)) [
      | inl y ↦ no_memory n y
      | inr m ↦ no_node n m (ground arith)
    ]
  ]
