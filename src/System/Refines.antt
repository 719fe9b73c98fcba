-- ===== src/System/Refines.antt =====
-- Any acts in turn on a handle, against the same acts on a mailbox.
use zookeeper_fork.Base.{
  ℕ, suc, ◌≡◌, ◌≢◌, refl, ◌∙◌, ap, Bool, true, false, Option, List, [], ◌∷◌, ◌++◌, ℤ, length,
  get_elem?, if◌then◌else◌, inl, inr, Option-cases, Bool-cases,
}
use mathlib.Core.Path.{subst}
use zookeeper_fork.Structs
use zookeeper_fork.Structs.{Ptr, null}
use zookeeper_fork.Memory.{World, Run, Cmd, ok, pure, and_then, ◌>>=◌}
use zookeeper_fork.Translate.{Jute}
use zookeeper_fork.Extension.{Answer}
use zookeeper_fork.Extension.Listening.{opened_at}
use zookeeper_fork.Wrapper.{Client}
use zookeeper_fork.Wrapper.Region.{Interpreter}
use zookeeper_fork.Requests.{Functions}
use zookeeper_fork.System.{
  Request, watches, Reply, Act, ask, answer, listen, look, wake, Pending, serve, handed, keeps,
  delete_at,
}
use zookeeper_fork.System.Mailbox.{Outcome, also, expected, Fit, FitReply, shows, opens}
use zookeeper_fork.System.First.{Stays, Stays-asked, Stays-answered, Stays-passed, Stays-next}
use zookeeper_fork.System.Letters.{Letter, values, values-snoc}
use zookeeper_fork.System.Contexts.{
  numbers, numbers-at, numbers-none, numbers-deleted, numbers-append,
}
use zookeeper_fork.System.State.{Sys, Sys-less}
use zookeeper_fork.System.Answering.{deliver-Answering}
use zookeeper_fork.System.Reading.{listen-nil, listen-cons, look-is_some, wake-run, wake-Sys}
use zookeeper_fork.System.Asking.{Takes, perform-Asking}

numbers-handed : (n : ℤ) (r : Request) (a : Ptr) → numbers (handed n r a) ≡ opens n r
numbers-handed n r a = elim (Bool-cases (watches r)) [ inl e ↦ rw e refl | inr e ↦ rw e refl ]

numbers-left :
    (keep : Bool) (ps : Pending) (i : ℕ)
    → numbers (if keep then ps else delete_at ps i)
      ≡ (if keep then numbers ps else delete_at (numbers ps) i)
numbers-left true ps i = refl
numbers-left false ps i = numbers-deleted ps i

-- The run `m` ends with the answers of `o`, and leaves a system of what is open and unread in
-- `o`, with `c` first.
pub record Refined (jute : Jute) (rest : Ptr → Option Structs.Cell) (q : Ptr) (c : Option (Ptr × ℤ))
    (m : Run (List Answer)) (o : Outcome) : Type 0 where
  pub world : World
  pub pending : Pending
  pub letters : List Letter
  pub run : m ≡ ok o.answers world
  pub sys : Sys jute rest q world pending letters 0
  pub open_numbers : numbers pending ≡ o.open_numbers
  pub unread : values letters ≡ o.unread
  pub first : Stays c [] pending

-- One answer more.
answered :
    {jute : Jute} {rest : Ptr → Option Structs.Cell} {q : Ptr} {c : Option (Ptr × ℤ)}
    {m : Run Answer} {a : Answer} {u : World} {o : Outcome} (k : Cmd (List Answer))
    → m ≡ ok a u
    → Refined jute rest q c (k u) o
    → Refined jute rest q c (and_then m (λ a. do rest ← k; pure (a ∷ rest))) (also a o)
answered k e x = record {
  world = x.world;
  pending = x.pending;
  letters = x.letters;
  run = rw (e, x.run) refl;
  sys = x.sys;
  open_numbers = x.open_numbers;
  unread = x.unread;
  first = x.first;
}

module _ (jute : Jute) (rest : Ptr → Option Structs.Cell) (client : Client) (ruby : Interpreter)
    (fns : Functions) (z q : Ptr) {rc : Request → ℤ} (t : Takes client ruby fns z rc)
    (has_zh : z ≢ null) (c : Option (Ptr × ℤ)) where
  -- The acts on the handle, from any system on.
  abbrev Refines : List Act → Pending → List Letter → World → Type 0
  Refines acts ps ls w =
      Refined jute rest q c (serve jute client ruby fns (opened_at z q false) acts ps w)
        (expected rc acts (numbers ps) (values ls))

  at_answer :
      (i : ℕ) (r : Reply) (acts : List Act) (ps : Pending) (ls : List Letter) (w : World)
      → Sys jute rest q w ps ls (suc (length acts))
      → FitReply r
      → Stays c (answer i r ∷ acts) ps
      → ((ps : Pending) (ls : List Letter) (w : World)
          → Sys jute rest q w ps ls (length acts)
          → Stays c acts ps
          → Refines acts ps ls w)
      → Refines (answer i r ∷ acts) ps ls w
  unfolding serve expected
  at_answer i r acts ps ls w s f y next = elim (Option-cases (get_elem? ps i)) [
    | inl e ↦ rw (e, numbers-none ps i e) (next ps ls w (Sys-less s) (Stays-passed c i r acts ps y))
    | inr ((a, m), e) ↦
        (let x = deliver-Answering s i e r f in
          let l : Letter = record { shows = shows m r; boxes = x.boxes } in
          rw (e, numbers-at ps i e, x.run, ← numbers-left (keeps m r) ps i, ← values-snoc ls l)
            (next (if keeps m r then ps else delete_at ps i) (ls ++ l ∷ []) x.world x.sys
              (Stays-answered c i r acts ps e y)))
  ]

  -- Asynchronous requests, callbacks of the client and calls of the listener on an open handle, in any
  -- order, end and return exactly what they do on a mailbox: a request returns what the client's call
  -- returned; a callback adds the reply's hash, with the number of the request that its context was
  -- made for; `get_next_event`, which is not to block, returns the oldest hash, or nil; `has_events`
  -- says whether there is one; `wake_event_loop!` returns nil. Afterwards the queue holds the unread
  -- replies and the client the contexts of the requests still open, a context `c` that every callback
  -- is to leave, if one is given, first among them; each unread event owns its blocks alone, and the
  -- `rest` of memory is as it was. The conditions are that all this holds at the start, that the client
  -- takes each call if its context is the one that the request has just made, at its address, and leaves
  -- memory alone, that memory does not run out and each pipe has room for a
  -- byte per act, that numbers fit their C types, and that the client has the bytes it says. The
  -- requests are `exists`, `get` and `get_children`, each with a watch or without, `sync`, `delete`,
  -- `set` with data, and `create` with data and no ACLs; the replies are those without vectors.
  pub serve-Refined :
      (acts : List Act) (ps : Pending) (ls : List Letter) (w : World)
      → Sys jute rest q w ps ls (length acts)
      → Fit acts
      → Stays c acts ps
      → Refined jute rest q c
          (serve jute client ruby fns (opened_at z q false) acts ps w)
          (expected rc acts (numbers ps) (values ls))
  unfolding serve expected
  serve-Refined [] ps ls w s f y = record {
    world = w;
    pending = ps;
    letters = ls;
    run = refl;
    sys = s;
    open_numbers = refl;
    unread = refl;
    first = y;
  }
  serve-Refined (ask n r ∷ acts) ps ls w s (f, g) y =
      let a = perform-Asking s n z has_zh f.0 client ruby fns t r f.1 in
      let e =
        numbers-append ps (handed n r (suc w.brk))
        ∙ ap (◌++◌ (numbers ps)) (numbers-handed n r (suc w.brk)) in
      answered _ a.run (
        subst
          (λ ns.
            Refined jute rest q c
              (serve jute client ruby fns (opened_at z q false) acts (ps ++ handed n r (suc w.brk))
                a.world)
              (expected rc acts ns (values ls)))
          e
          (serve-Refined acts (ps ++ handed n r (suc w.brk)) ls a.world (Sys-less a.sys) g
            (Stays-asked c n r acts ps (handed n r (suc w.brk)) y)))
  serve-Refined (answer i r ∷ acts) ps ls w s (f, g) y =
      at_answer i r acts ps ls w s f y λ ps ls w s y. serve-Refined acts ps ls w s g y
  serve-Refined (listen ∷ acts) ps [] w s (f, g) y = answered _ (listen-nil z has_zh s) (
      serve-Refined acts ps [] w (Sys-less s) g
        (Stays-next c (listen ∷ acts) acts ps (λ n. refl) y))
  serve-Refined (listen ∷ acts) ps (l ∷ ls) w s (f, g) y =
      let a = listen-cons z has_zh l ls (Sys-less s) in
      answered _ a.run (
        serve-Refined acts ps ls a.world a.sys g
          (Stays-next c (listen ∷ acts) acts ps (λ n. refl) y))
  serve-Refined (look ∷ acts) ps ls w s (f, g) y =
      answered _ (look-is_some z has_zh ls s) (
        serve-Refined acts ps ls w (Sys-less s) g
          (Stays-next c (look ∷ acts) acts ps (λ n. refl) y))
  serve-Refined (wake ∷ acts) ps ls w s (f, g) y =
      answered _ (wake-run s z has_zh) (
        serve-Refined acts ps ls _ (wake-Sys s) g
          (Stays-next c (wake ∷ acts) acts ps (λ n. refl) y))
