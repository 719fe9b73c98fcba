-- ===== src/System/Life.antt =====
-- A whole session: it is opened, any acts follow, and it is closed.
use zookeeper_fork.Base.{
  ℕ, suc, ◌≡◌, ◌≢◌, refl, ap, ◌∙◌, sym, true, false, Option, some, List, [], ◌∷◌, ℤ, arith, length,
  ◌<◌, ◌==◌,
}
use mathlib.Core.Path.{subst}
use zookeeper_fork.Structs.{Ptr, null, zkrb_global_req}
use zookeeper_fork.Memory.{World, Run, ok}
use zookeeper_fork.Translate.{Jute}
use zookeeper_fork.Queue.History.{Room}
use zookeeper_fork.Queue.Setup.{fresh_queue}
use zookeeper_fork.Extension.{Handle, Answer, Closing, nothing, method_close_handle}
use zookeeper_fork.Extension.Listening.{opened_at, null-no}
use zookeeper_fork.Wrapper.{Client}
use zookeeper_fork.Wrapper.Region.{Interpreter}
use zookeeper_fork.Requests.{Functions, string}
use zookeeper_fork.Session.{Session, Options, debug_level, method_zkrb_init}
use zookeeper_fork.Session.Life.{
  Serves, Closes, Supplied, queue_at, context_at, opened, opened-Ready, init-run,
}
use zookeeper_fork.System.{Request, Act, Pending, serve, delete_at}
use zookeeper_fork.System.Mailbox.{Outcome, expected, Fit, lasts}
use zookeeper_fork.System.Letters.{Letter, values}
use zookeeper_fork.System.Contexts.{numbers, holds}
use zookeeper_fork.System.State.{Sys}
use zookeeper_fork.System.Asking.{Takes}
use zookeeper_fork.System.Refines.{serve-Refined}
use zookeeper_fork.System.Closing.{closed_handle, close-Closed}

-- Before it is opened.
abbrev pub unopened : Handle
unopened = record { zh = null; queue = null; closed = false; shutting_down = false }

module _ {w : World} (x : Supplied w) where
  -- The session's own context is the first that the client has.
  abbrev pub session : Ptr × ℤ
  session = (context_at x, zkrb_global_req)

  pub opened-Sys :
      (jute : Jute) (n : ℕ)
      → Room n w.os
      → Sys jute w.cell (queue_at x) (opened x) (session ∷ []) [] n
  opened-Sys jute n room =
      let r = opened-Ready x in
      record {
        queue = fresh_queue w;
        nodes = [];
        is = r.is;
        fresh = r.fresh;
        memory = r.memory;
        contexts = (r.context_at, refl, tt);
        post = tt;
        room = room;
        account = record {
          inside = λ a z u. x.fresh a (ground arith);
          outside = λ a z u. ground arith;
        };
      }

values_length : (ls : List Letter) → length (values ls) ≡ length ls
values_length [] = refl
values_length (l ∷ ls) = ap suc (values_length ls)

-- A session of these acts on a handle `k`, from `w` on, with the outcome `o`: the three runs, and
-- memory afterwards, which is that of `w`.
pub record Lived (w : World) (k : Handle) (o : Outcome)
    (opening : Run (Answer × Handle × Option Handle)) (acting : World → Run (List Answer))
    (closing : World → Run (Answer × Handle)) : Type 0 where
  pub begun : World
  pub begin_run : opening ≡ ok (nothing, k, some k) begun
  pub served : World
  pub serve_run : acting begun ≡ ok o.answers served
  pub over : World
  pub close_run : closing served ≡ ok (nothing, closed_handle) over
  pub same : (a : Ptr) → (a == null) ≡ false → over.cell a ≡ w.cell a

-- With only the session's own context left, no other is.
none_left :
    (ps : Pending) (n : ℤ) (a : Ptr) → numbers ps ≡ n ∷ [] → holds a (delete_at ps 0) ≡ false
none_left [] n a e = refl
none_left (p ∷ []) n a e = refl
none_left (p ∷ r ∷ ps) n a e = cc

module _ {w : World} (x : Supplied w) (client : Session) (fns : Functions) (closing : Closing)
    {p : Ptr} {timeout : ℤ} {zh : Ptr} (c : Serves client closing fns p timeout zh (context_at x))
    (zoo : Client) (ruby : Interpreter) {rc : Request → ℤ} (t : Takes zoo ruby fns zh rc)
    (jute : Jute) where
  -- A whole session. `zkrb_init` opens it, asynchronous requests, callbacks of the client and calls of
  -- the listener follow in any order, and `close_handle` ends it: all return, the acts return exactly
  -- what they do on a mailbox that starts with the number of the session alone, and in the end
  -- every block but NULL is as it was before the session. The events that nobody read are freed with the
  -- queue. The conditions are a pipe, memory and room for a byte per act in each pipe; a string for the
  -- host and options that are accepted; a client that makes a handle if it is called with that string,
  -- `zkrb_state_callback`, the timeout and the new context, takes each call if its context is the one
  -- that the request has just made, leaves memory alone and gives its context back at the end; that
  -- at the end every request is answered and every watch has gone off, and that to close the handle
  -- then leaves memory alone; numbers that fit their C types and replies with the bytes that they say; for the context of
  -- the session, no watch event but session events; and fuel for each unread event. The requests are
  -- `exists`, `get` and `get_children`, each with a watch or without, `sync`, `delete`, `set` with
  -- data, and `create` with data and no ACLs; the replies are those without vectors.
  pub session-Lived :
      (acts : List Act) (l : ℤ) (n : ℕ) (opts : Options) (fuel : ℕ)
      → zh ≢ null
      → debug_level opts ≡ some l
      → Room (length acts) w.os
      → Fit acts
      → lasts zkrb_global_req acts ≡ true
      → (expected rc acts (zkrb_global_req ∷ []) []).open_numbers ≡ zkrb_global_req ∷ []
      → ((u : World)
          → serve jute zoo ruby fns
              (opened_at zh (queue_at x) false)
              acts
              (session x ∷ [])
              (opened x)
            ≡ ok (expected rc acts (zkrb_global_req ∷ []) []).answers u
          → Closes closing zh u)
      → length (expected rc acts (zkrb_global_req ∷ []) []).unread < fuel
      → Lived w
          (opened_at zh (queue_at x) false)
          (expected rc acts (zkrb_global_req ∷ []) [])
          (method_zkrb_init client fns timeout (string p n) opts unopened w)
          (serve jute zoo ruby fns (opened_at zh (queue_at x) false) acts (session x ∷ []))
          (method_close_handle jute closing fuel (opened_at zh (queue_at x) false))
  session-Lived acts l n opts fuel ne e room fit l_ok all_answered closes enough =
      let r =
        serve-Refined jute w.cell zoo ruby fns zh (queue_at x) t ne (some (session x)) acts
          (session x ∷ []) [] (opened x) (opened-Sys x jute (length acts) room) fit (refl, l_ok) in
      let d =
        close-Closed r.sys r.first.0 closing zh fuel (closes r.world r.run).rv ne
          (c.get_context r.world) (closes r.world r.run).close
          (let u = r.unread in
            let k = values_length r.letters in
            subst (λ v. v < fuel) (sym (ap length u) ∙ k) enough) in
      record {
        begun = opened x;
        begin_run = init-run x client fns closing c l n opts unopened e ∙ rw (null-no ne) refl;
        served = r.world;
        serve_run = r.run;
        over = d.world;
        close_run = d.run;
        same = λ a z.
            d.same a z (none_left r.pending zkrb_global_req a (r.open_numbers ∙ all_answered));
      }
