-- ===== src/Queue/Kept.antt =====
-- Each of these calls keeps the invariant of a listener that waits.
use zookeeper_fork.Base.{
  ℕ, suc, ◌-◌, ◌≡◌, ◌≢◌, ◌∙◌, sym, Bool, true, false, [], ◌∷◌, ◌++◌, ℤ, pos, ltb, arith, ◌==◌,
  length-append, Bool-cases, inl, inr, if◌then◌else◌,
}
use mathlib.Core.Path.{subst}
use zookeeper_fork.Structs.{Ptr, null, Queue, queue}
use zookeeper_fork.Memory.{World, Kernel, ok, Holds, full, read}
use zookeeper_fork.Queue.{zkrb_enqueue, zkrb_dequeue, zkrb_signal}
use zookeeper_fork.Queue.Chain.{Nodes, start, IsQueue}
use zookeeper_fork.Queue.Signal.{signalled, signal-run, signal-blocked}
use zookeeper_fork.Queue.Frame.{IsQueue-frame}
use zookeeper_fork.Queue.Fifo.{
  enqueued, enqueue-snoc, enqueue-blocked, dequeue-nil, dequeue-cons, dequeued-Fresh,
}
use zookeeper_fork.Queue.Threads.{buf_size, Inv}

ok-world : {A : Type 0} {x y : A} {v w : World} → ok x v ≡ ok y w → v ≡ w
ok-world e = cc

module _ {q : Ptr} {n : ℕ} {w : World} {waiting : Bool} (i : Inv q n w waiting) where
  not_full :
      (e : Ptr) (v : World)
      → w.oom w.brk ≡ false
      → zkrb_enqueue q e w ≡ ok tt v
      → full i.s.pipe_write w.os ≡ false
  not_full e v o run = elim (Bool-cases (full i.s.pipe_write w.os)) [
    | inl y ↦ (let b = enqueue-blocked i.is e i.fresh o y in cc)
    | inr room ↦ room
  ]

  enqueued-Inv :
      (e : Ptr)
      → e ≢ null
      → w.oom w.brk ≡ false
      → w.os.write_fails w.os.writes ≡ false
      → full i.s.pipe_write w.os ≡ false
      → (zkrb_enqueue q e w ≡ ok tt (enqueued w q i.s e)) × Inv q n (enqueued w q i.s e) waiting
  enqueued-Inv e ne o f room =
      let (r, is, fr) = enqueue-snoc i.is e ne i.fresh o room in
      (
        r,
        record {
          s = record i.s { tail = suc w.brk };
          xs = i.xs ++ (i.s.tail, e) ∷ [];
          is = is;
          fresh = fr;
          write_end = let h = i.write_end in ground arith;
          read_end = let h = i.read_end in let g = i.write_end in ground arith;
          covered = λ h.
              let c = i.covered h in
              let g = i.write_end in
              let l = length-append i.xs ((i.s.tail, e) ∷ []) in ground arith;
        },
      )

  signal_not_full : (v : World) → zkrb_signal q w ≡ ok tt v → full i.s.pipe_write w.os ≡ false
  signal_not_full v run = elim (Bool-cases (full i.s.pipe_write w.os)) [
    | inl y ↦ (let b = signal-blocked i.is.here y in cc)
    | inr room ↦ room
  ]

  -- A change of the pipes alone.
  os-IsQueue : (os : Kernel) → IsQueue (record w { os = os }) q i.s i.xs
  os-IsQueue os = IsQueue-frame i.is (record { nodes = λ a k e. e; queues = λ a k e. e })

  signalled-Inv : Inv q n (record w { os = signalled i.s.pipe_write w.os }) waiting
  signalled-Inv = record {
    s = i.s;
    xs = i.xs;
    is = os-IsQueue (signalled i.s.pipe_write w.os);
    fresh = i.fresh;
    write_end = let h = i.write_end in ground arith;
    read_end = let h = i.read_end in let g = i.write_end in ground arith;
    covered = λ h. let c = i.covered h in let g = i.write_end in ground arith;
  }

  pub read-Inv : (got : ℤ) (v : World) → read i.s.pipe_read buf_size w ≡ ok got v → Inv q n v false
  unfolding read
  read-Inv got v run =
      subst (λ u. Inv q n u false) (ok-world (sym done ∙ run))
        (record {
          s = i.s;
          xs = i.xs;
          is = os-IsQueue (drained w.os);
          fresh = i.fresh;
          write_end = i.write_end;
          read_end = i.read_end;
          covered = λ h. cc;
        })
    where
      drained : Kernel → Kernel
      drained os =
          let k = if ltb buf_size (os.pending n) then buf_size else os.pending n in
          record os { pending = λ m. if m == n then os.pending n - k else os.pending m }

      done :
          read i.s.pipe_read buf_size w
          ≡ ok
              (pos (if ltb buf_size (w.os.pending n) then buf_size else w.os.pending n))
              (record w { os = drained w.os })
      done = let h = i.read_end in ground arith

  pub same_queue : (s : Queue) → Holds w q (queue s) → s ≡ i.s
  same_queue s h = let a = h.there in let b = i.is.here.there in cc

ok-result : {A : Type 0} {x y : A} {v w : World} → ok x v ≡ ok y w → x ≡ y
ok-result e = cc

module _ {q : Ptr} {n : ℕ} {w : World} {waiting : Bool} (i : Inv q n w waiting) (v : World) where
  pub produced :
      (e : Ptr)
      → e ≢ null
      → w.oom w.brk ≡ false
      → w.os.write_fails w.os.writes ≡ false
      → zkrb_enqueue q e w ≡ ok tt v
      → Inv q n v waiting
  produced e ne o f run =
      let (r, k) = enqueued-Inv i e ne o f (not_full i e v o run) in
      subst (λ u. Inv q n u waiting) (ok-world (sym r ∙ run)) k

  pub signal_sent : zkrb_signal q w ≡ ok tt v → Inv q n v waiting
  signal_sent run =
      subst (λ u. Inv q n u waiting)
        (ok-world (sym (signal-run i.is.here (signal_not_full i v run)) ∙ run)) (signalled-Inv i)

  pub taken :
      (e : Ptr)
      → zkrb_dequeue q w ≡ ok e v
      → e ≢ null
      → (xs : Nodes) → IsQueue w q i.s xs
      → Inv q n v false
  taken e run ne [] is = absurd (ne (ok-result (sym run ∙ dequeue-nil is)))
  taken e run ne ((a, f) ∷ xs) is =
      let (r, is') = dequeue-cons is in
      subst (λ u. Inv q n u false) (ok-world (sym r ∙ run))
        (record {
          s = record i.s { head = start xs i.s.tail };
          xs = xs;
          is = is';
          fresh = dequeued-Fresh is i.fresh;
          write_end = i.write_end;
          read_end = i.read_end;
          covered = λ h. cc;
        })

  pub missed : zkrb_dequeue q w ≡ ok null v → (xs : Nodes) → IsQueue w q i.s xs → Inv q n v true
  missed run [] is =
      subst (λ u. Inv q n u true) (ok-world (sym (dequeue-nil is) ∙ run))
        (record {
          s = i.s;
          xs = [];
          is = is;
          fresh = i.fresh;
          write_end = i.write_end;
          read_end = i.read_end;
          covered = λ h. omega arith;
        })
  missed run ((a, f) ∷ xs) is = absurd (is.chain.1 (ok-result (sym (dequeue-cons is).0 ∙ run)))
