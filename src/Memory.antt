-- ===== src/Memory.antt =====
-- The heap and the pipes that the C code works on, and commands over them: what the code uses of
-- malloc, free, pipe, write and close.
use zookeeper_fork.Base.{
  ℕ, suc, ◌+◌, ◌-◌, ◌*◌, ◌≡◌, ◌≢◌, Bool, false, Option, none, some, ℤ, pos, negsuc, arith, ◌<◌,
  ◌==◌, if◌then◌else◌, ltb, leb,
}
use zookeeper_fork.Structs.{Ptr, null, Cell, raw}

-- The two ends of a pipe.
pub data End : Type 0 where
  reader writer : ℕ → End

-- `logged` counts the lines that `log_err` wrote, `pending` the bytes in a pipe, which holds
-- `capacity` bytes at most. The two tests say which of the calls of `pipe` and `write`
-- the system refuses.
pub record Kernel : Type 0 where
  pub fds : ℕ → Option End
  pub pending : ℕ → ℕ
  pub pipes : ℕ
  pub writes : ℕ
  pub logged : ℕ
  pub capacity : ℕ
  pub pipe_fails : ℕ → Bool
  pub write_fails : ℕ → Bool

-- `brk` is the last address handed out: `oom n` says that a call of malloc at `brk` = n returns NULL.
pub record World : Type 0 where
  pub cell : Ptr → Option Cell
  pub brk : ℕ
  pub oom : ℕ → Bool
  pub os : Kernel

-- `fault` is undefined behaviour: a bad pointer, or a read of what was never written. `blocked` is a
-- system call that does not return while nobody else acts.
pub data Run {ℓ} (A : Type ℓ) : Type ℓ where
  ok : A → World → Run A
  fault : Run A
  blocked : Run A
  out_of_fuel : Run A

abbrev pub Cmd {ℓ} : Type ℓ → Type ℓ
Cmd A = World → Run A

abbrev pub pure {ℓ} : {A : Type ℓ} → A → Cmd A
pure a w = ok a w

abbrev pub crash {ℓ} : {A : Type ℓ} → Cmd A
crash w = fault

module _ {ℓ κ} {A : Type ℓ} {B : Type κ} where
  abbrev pub and_then : Run A → (A → Cmd B) → Run B
  and_then (ok a w) k = k a w
  and_then fault k = fault
  and_then blocked k = blocked
  and_then out_of_fuel k = out_of_fuel

  infixl 5 ◌>>=◌ ◌>>◌
  abbrev pub ◌>>=◌ : Cmd A → (A → Cmd B) → Cmd B
  m >>= k = λ w. and_then (m w) k

  abbrev pub ◌>>◌ : Cmd A → Cmd B → Cmd B
  m >> n = m >>= λ _. n

abbrev pub write_cell : World → Ptr → Option Cell → World
write_cell w p c = record w { cell = λ a. if a == p then c else w.cell a }

-- `*p`
unfoldable pub load : Ptr → Cmd Cell
load p w = if p == null then fault else elim (w.cell p) [ none ↦ fault | some c ↦ ok c w ]

-- `*p = c`
unfoldable pub store : Ptr → Cell → Cmd (Unit {0})
store p c = if p == null then crash else λ w. elim (w.cell p) [
  | none ↦ fault
  | some _ ↦ ok tt (write_cell w p (some c))
]

-- `malloc`: an address that was never handed out, or NULL.
unfoldable pub malloc : Cmd Ptr
malloc w =
    let fresh = suc w.brk in
    if w.oom w.brk
    then ok null (record w { brk = fresh })
    else ok fresh (record (write_cell w fresh (some raw)) { brk = fresh })

-- `free`, which ignores NULL.
unfoldable pub free : Ptr → Cmd (Unit {0})
free p = if p == null then pure tt else λ w. elim (w.cell p) [
  | none ↦ fault
  | some _ ↦ ok tt (write_cell w p none)
]

-- `pipe(pfd)`: the two descriptors, or none for -1.
unfoldable pub pipe : Cmd (Option (ℕ × ℕ))
pipe w =
    let os = w.os in
    let n = os.pipes in
    let fds = λ (d : ℕ).
      if d == 2 * n
      then some (reader n)
      else if d == 2 * n + 1
      then some (writer n)
      else os.fds d in
    if os.pipe_fails n
    then ok none (record w { os = record os { pipes = suc n } })
    else ok (some (2 * n, 2 * n + 1)) (record w { os = record os { pipes = suc n; fds = fds } })

-- `write(fd, "0", 1)`: the byte count 1, or -1; it waits while the pipe is full.
unfoldable pub write : ℕ → Cmd ℤ
write fd w =
    let os = w.os in
    let tried = record os { writes = suc os.writes } in
    let refused = ok (negsuc 0) (record w { os = tried }) in
    if os.write_fails os.writes then refused else elim (os.fds fd) [
      | none ↦ refused
      | some (reader n) ↦ refused
      | some (writer n) ↦
          if leb os.capacity (os.pending n)
          then blocked
          else ok (pos 1) (record w {
            os = record tried {
              pending = λ m. if m == n then suc (os.pending n) else os.pending m;
            };
          })
    ]

-- `read(fd, buf, size)` of a pipe that has bytes: the byte count, or -1.
unfoldable pub read : ℕ → ℕ → Cmd ℤ
read fd size w =
    let os = w.os in
    elim (os.fds fd) [
      | none ↦ ok (negsuc 0) w
      | some (writer n) ↦ ok (negsuc 0) w
      | some (reader n) ↦
          let got = if ltb size (os.pending n) then size else os.pending n in
          ok (pos got) (record w {
            os = record os { pending = λ m. if m == n then os.pending n - got else os.pending m };
          })
    ]

-- `close`, its result not looked at.
unfoldable pub close : ℕ → Cmd (Unit {0})
close fd w =
    ok tt (record w { os = record w.os { fds = λ d. if d == fd then none else w.os.fds d } })

-- The lines that `log_err` prints are counted, not spelled out.
unfoldable pub log_err : Cmd (Unit {0})
log_err w = ok tt (record w { os = record w.os { logged = suc w.os.logged } })

-- A read of `*p` as a structure, which faults if another structure stands there.
abbrev pub expect {ℓ} : {A : Type ℓ} → Option A → Cmd A
expect none = crash
expect (some a) = pure a

-- A use of `*p` whose effect stands in the lines that follow.
abbrev pub deref : Ptr → Cmd (Unit {0})
deref p = if p == null then crash else pure tt

abbrev pub unless : Bool → Cmd (Unit {0}) → Cmd (Unit {0})
unless b m = if b then pure tt else m

unfoldable pub load_as {ℓ} : {A : Type ℓ} → (Cell → Option A) → Ptr → Cmd A
unfolding load
load_as view p = do c ← load p; expect (view c)

-- `malloc` of a structure whose fields are then written: a fault if the memory is exhausted.
unfoldable pub new : Cell → Cmd Ptr
unfolding malloc store
new c = do p ← malloc; store p c; pure p

-- The block of a local variable, which lasts while its function runs.
unfoldable pub alloca : Cell → Cmd Ptr
alloca c w =
    let fresh = suc w.brk in ok fresh (record (write_cell w fresh (some c)) { brk = fresh })

unfoldable pub leave : Ptr → Cmd (Unit {0})
leave p w = ok tt (write_cell w p none)

-- A write to `fd` would wait.
abbrev pub full : ℕ → Kernel → Bool
full fd os = if os.write_fails os.writes then false else elim (os.fds fd) [
  | none ↦ false
  | some (reader n) ↦ false
  | some (writer n) ↦ leb os.capacity (os.pending n)
]

-- Nothing is allocated above `brk`.
abbrev pub Fresh : World → Type 0
Fresh w = (a : Ptr) → w.brk < a → w.cell a ≡ none

-- So a block in use is not the next one.
pub Fresh-apart :
    (w : World) (a : Ptr) (c : Cell) → Fresh w → w.cell a ≡ some c → (a == suc w.brk) ≡ false
Fresh-apart w a c f e = let unused = f (suc w.brk) (omega arith) in ground arith

-- `c` stands at `p`.
pub record Holds (w : World) (p : Ptr) (c : Cell) : Type 0 where
  pub ne_null : p ≢ null
  pub there : w.cell p ≡ some c

module _ {w : World} {p : Ptr} {c : Cell} (at : Holds w p c) where
  pub not_null : (p == null) ≡ false
  not_null = ground arith

  pub load-ok : load p w ≡ ok c w
  unfolding load
  load-ok = ground arith

  pub store-ok : (d : Cell) → store p d w ≡ ok tt (write_cell w p (some d))
  unfolding store
  store-ok d = ground arith

  pub free-ok : free p w ≡ ok tt (write_cell w p none)
  unfolding free
  free-ok = ground arith
