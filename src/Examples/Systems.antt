-- ===== src/Examples/Systems.antt =====
-- A session with requests, replies out of order, a watch and an event that nobody reads.
use zookeeper_fork.Base.{
  ℕ, ◌+◌, ◌==◌, if◌then◌else◌, ◌≡◌, refl, false, some, none, List, [], ◌∷◌, ℤ, pos, negsuc, arith,
  length, ◌<◌,
}
use zookeeper_fork.Structs.{Ptr, zkrb_global_req}
use zookeeper_fork.Memory.{World, Cmd, ok}
use zookeeper_fork.Extension.{method_close_handle}
use zookeeper_fork.Extension.Listening.{opened_at}
use zookeeper_fork.Wrapper.{Client}
use zookeeper_fork.Wrapper.Region.{zkrb_thread_blocking_region}
use zookeeper_fork.Wrapper.AsyncNodes.{
  zkrb_call_zoo_aget, zkrb_gvl_zoo_aget, zkrb_call_zoo_acreate, zkrb_gvl_zoo_acreate,
  zkrb_call_zoo_adelete, zkrb_gvl_zoo_adelete, zkrb_call_zoo_aexists, zkrb_gvl_zoo_aexists,
  zkrb_call_zoo_aset, zkrb_gvl_zoo_aset, zkrb_call_zoo_awexists, zkrb_gvl_zoo_awexists,
  zkrb_call_zoo_awget, zkrb_gvl_zoo_awget,
}
use zookeeper_fork.Wrapper.AsyncLists.{
  zkrb_call_zoo_aget_children2, zkrb_gvl_zoo_aget_children2, zkrb_call_zoo_awget_children2,
  zkrb_gvl_zoo_awget_children2, zkrb_call_zoo_async, zkrb_gvl_zoo_async,
}
use zookeeper_fork.Requests.{string, fixnum}
use zookeeper_fork.Session.{options, method_zkrb_init}
use zookeeper_fork.Session.Life.{opened}
use zookeeper_fork.System.{
  Request, exists_request, exists_watch, get_request, get_watch, children_request, children_watch,
  sync_request, delete_request, set_request, create_request, void_reply, stat_reply, data_reply,
  watch_event, Act, ask, answer, listen, look, wake, serve,
}
use zookeeper_fork.System.Mailbox.{Outcome, Fit, expected, shows}
use zookeeper_fork.System.Asking.{Takes, call, since}
use zookeeper_fork.System.Refines.{Refined, serve-Refined}
use zookeeper_fork.System.Life.{Lived, unopened, opened-Sys, session-Lived}
use zookeeper_fork.Examples.{world}
use zookeeper_fork.Examples.Listeners.{jute}
use zookeeper_fork.Examples.Replies.{some_stat}
use zookeeper_fork.Examples.Requests
use zookeeper_fork.Examples.Requests.{ruby}
use zookeeper_fork.Examples.Sessions.{
  fns, making, closing, making-Serves, closing-Closes, nothing_yet,
}

-- Taken if the context stands `k` blocks below the newest one, and refused otherwise.
abbrev stands : ℕ → Ptr → Cmd ℤ
stands k context w = ok (if w.brk == context + k then pos 0 else negsuc 7) w

abbrev zoo : Client
zoo = record Requests.client {
  zoo_aexists = λ zh path watch completion context w. stands 1 context w;
  zoo_aget = λ zh path watch completion context w. stands 3 context w;
  zoo_awget = λ zh path watcher watcher_ctx completion context w. stands 4 context w;
  zoo_awget_children2 = λ zh path watcher watcher_ctx completion context w. stands 3 context w;
  zoo_async = λ zh path completion context w. stands 0 context w;
  zoo_adelete = λ zh path version completion context w. stands 0 context w;
}

abbrev zok_always : Request → ℤ
zok_always r = pos 0

stands-ok : (k : ℕ) (ctx : Ptr) (u : World) → u.brk ≡ ctx + k → stands k ctx u ≡ ok (pos 0) u
stands-ok k ctx u e = ground (arith, e)

zoo_taken :
    (r : Request) (ctx : Ptr) (u : World)
    → u.brk ≡ ctx + since r
    → call zoo ruby fns 99 r ctx u ≡ ok (pos 0) u
unfolding zkrb_call_zoo_aget zkrb_gvl_zoo_aget zkrb_call_zoo_acreate zkrb_gvl_zoo_acreate
    zkrb_call_zoo_adelete zkrb_gvl_zoo_adelete zkrb_call_zoo_aexists zkrb_gvl_zoo_aexists
    zkrb_call_zoo_aset zkrb_gvl_zoo_aset zkrb_call_zoo_awexists zkrb_gvl_zoo_awexists
    zkrb_call_zoo_aget_children2 zkrb_gvl_zoo_aget_children2 zkrb_thread_blocking_region
    zkrb_call_zoo_awget zkrb_gvl_zoo_awget zkrb_call_zoo_awget_children2
    zkrb_gvl_zoo_awget_children2 zkrb_call_zoo_async zkrb_gvl_zoo_async
zoo_taken (exists_request p len) ctx u e = stands-ok 1 ctx u e
zoo_taken (exists_watch p len) ctx u e = refl
zoo_taken (get_request p len) ctx u e = stands-ok 3 ctx u e
zoo_taken (children_request p len) ctx u e = refl
zoo_taken (get_watch p len) ctx u e = stands-ok 4 ctx u e
zoo_taken (children_watch p len) ctx u e = stands-ok 3 ctx u e
zoo_taken (sync_request p len) ctx u e = stands-ok 0 ctx u e
zoo_taken (delete_request p len v) ctx u e = stands-ok 0 ctx u e
zoo_taken (set_request p len b size v) ctx u e = refl
zoo_taken (create_request p len b size flags) ctx u e = refl

zoo-Takes : Takes zoo ruby fns 99 zok_always
zoo-Takes = record { takes = zoo_taken }

-- The session connects; request 5 watches a node, request 6 reads it and is answered first; the watch
-- goes off, which nobody reads, and so is the reply to request 8.
abbrev acts : List Act
acts =
    answer 0 (watch_event (negsuc 0) (pos 3) [])
    ∷ ask (pos 5) (exists_watch 50 2)
    ∷ ask (pos 6) (get_request 50 2)
    ∷ answer 3 (data_reply (pos 0) (some (1 ∷ 2 ∷ [])) (pos 1) (some some_stat))
    ∷ listen
    ∷ answer 1 (stat_reply (negsuc 100) none)
    ∷ look
    ∷ ask (pos 8) (delete_request 50 2 (pos 7))
    ∷ listen
    ∷ listen
    ∷ listen
    ∷ answer 1 (watch_event (pos 1) (pos 3) (47 ∷ []))
    ∷ answer 1 (void_reply (pos 0))
    ∷ wake
    ∷ []

abbrev outcome : Outcome
outcome = expected zok_always acts (zkrb_global_req ∷ []) []

-- What is left: the session's number, the event of the watch and the reply to request 8.
open_numbers : outcome.open_numbers ≡ zkrb_global_req ∷ []
unfolding expected
open_numbers = refl

unread :
    outcome.unread
    ≡ shows (pos 5) (watch_event (pos 1) (pos 3) (47 ∷ []))
      ∷ shows (pos 8) (void_reply (pos 0))
      ∷ []
unfolding expected
unread = refl

fit : Fit acts
fit = (
  tt,
  (
    (refl, tt),
    (
      (refl, tt),
      (omega arith, (tt, (tt, (tt, ((refl, refl), (tt, (tt, (tt, (tt, (tt, (tt, tt))))))))))),
    ),
  ),
)

enough : length outcome.unread < 3
unfolding expected
enough = omega arith

session-Lived_example :
    Lived
      (world [])
      (opened_at 99 1 false)
      outcome
      (method_zkrb_init
        (making 99)
        fns
        (pos 10000)
        (string 50 9)
        (options (fixnum (pos 2)))
        unopened
        (world []))
      (serve jute zoo ruby fns (opened_at 99 1 false) acts ((3, zkrb_global_req) ∷ []))
      (method_close_handle jute closing 3 (opened_at 99 1 false))
session-Lived_example =
    session-Lived nothing_yet (making 99) fns closing (making-Serves 99) zoo ruby zoo-Takes jute
      acts (pos 5) 9 (options (fixnum (pos 2))) 3 (omega arith) refl (λ m. omega arith) fit refl
      open_numbers (λ u e. closing-Closes 99 u) enough

serve-Refined_example :
    Refined jute
      (world []).cell
      1
      (some (3, zkrb_global_req))
      (serve jute zoo ruby fns
        (opened_at 99 1 false)
        acts
        ((3, zkrb_global_req) ∷ [])
        (opened nothing_yet))
      outcome
serve-Refined_example =
    serve-Refined jute (world []).cell zoo ruby fns 99 1 zoo-Takes (omega arith)
      (some (3, zkrb_global_req)) acts ((3, zkrb_global_req) ∷ []) [] (opened nothing_yet)
      (opened-Sys nothing_yet jute 14 (λ m. omega arith)) fit (refl, refl)
