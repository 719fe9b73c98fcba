-- ===== src/Examples/Sessions.antt =====
-- A session that is opened in an empty world and closed again.
use zookeeper_fork.Base.{
  ◌≡◌, refl, false, true, some, none, pos, negsuc, [], arith, ◌==◌, ◌&&◌, eqb_ℤ, if◌then◌else◌,
}
use zookeeper_fork.Structs.{Ptr, null, zkrb_global_req}
use zookeeper_fork.Memory.{World, Holds, ok}
use zookeeper_fork.Callbacks.{zkrb_state_callback}
use zookeeper_fork.Callbacks.Finish.{context}
use zookeeper_fork.Callbacks.Delivery.{Delivered}
use zookeeper_fork.Callbacks.Watcher.{watched}
use zookeeper_fork.Queue.Setup.{fresh_queue}
use zookeeper_fork.Extension.{
  Handle, Closing, nothing, raised, method_close_handle, free_zkrb_instance_data,
}
use zookeeper_fork.Requests.{Functions, string, fixnum}
use zookeeper_fork.Session.{Session, options, method_zkrb_init}
use zookeeper_fork.Session.Life.{Serves, Closes, Supplied, Undone, init-Watched, init-close-Undone}
use zookeeper_fork.Session.Failure.{init-leaks}
use zookeeper_fork.Examples.{world, world-Fresh}
use zookeeper_fork.Examples.Listeners.{jute}

abbrev pub fns : Functions
fns = record {
  state_fn = 201;
  data_fn = 202;
  stat_fn = 203;
  string_fn = 204;
  strings_stat_fn = 205;
  void_fn = 206;
  acl_fn = 207;
}

-- A client that makes the handle `zh` for the host at 50 with the watcher at 201 and a timeout of
-- 10000, and none otherwise.
abbrev pub making : Ptr → Session
making zh = record {
  zoo_set_debug_level = λ l w. ok tt w;
  zoo_deterministic_conn_order = λ b w. ok tt w;
  zookeeper_init = λ host fn timeout ctx flags w.
      ok (if (host == 50) && (fn == 201) && eqb_ℤ timeout (pos 20001) then zh else null) w;
  is_unrecoverable = λ zh w. ok (pos 0) w;
  zoo_client_id = λ zh w. ok (pos 0, null) w;
  zerror = λ n. [];
}

abbrev pub closing : Closing
closing = record { zoo_get_context = λ zh w. ok 3 w; zookeeper_close = λ zh w. ok (pos 0) w }

pub making-Serves : (zh : Ptr) → Serves (making zh) closing fns 50 (pos 10000) zh 3
making-Serves zh = record {
  level = λ l u. refl;
  order = λ u. refl;
  init = λ u. refl;
  get_context = λ u. refl;
}

pub closing-Closes : (zh : Ptr) (u : World) → Closes closing zh u
closing-Closes zh u = record { rv = pos 0; close = refl }

pub nothing_yet : Supplied (world [])
nothing_yet = record {
  fresh = world-Fresh [];
  memory = λ n. refl;
  a_pipe = refl;
  unused = refl;
  capacity = omega arith;
}

abbrev unopened : Handle
unopened = record { zh = null; queue = null; closed = false; shutting_down = false }

init-Watched_example :
    (v : World) × (method_zkrb_init
        (making 99)
        fns
        (pos 10000)
        (string 50 9)
        (options (fixnum (pos 2)))
        unopened
        (world [])
      ≡ ok
          (
            nothing,
            record unopened { zh = 99; queue = 1 },
            some (record unopened { zh = 99; queue = 1 }),
          )
          v)
    × Delivered 3 zkrb_global_req true 1
        (fresh_queue (world []))
        []
        (watched zkrb_global_req (negsuc 0) (pos 3) [])
        (zkrb_state_callback (negsuc 0) (pos 3) (some []) 3 v)
init-Watched_example =
    init-Watched nothing_yet (making 99) fns closing (making-Serves 99) (pos 5) 9
      (options (fixnum (pos 2))) unopened (negsuc 0) (pos 3) [] (omega arith) refl

init-close-Undone_example :
    (k : Handle) × (v : World) × (u : World) × (method_zkrb_init
        (making 99)
        fns
        (pos 10000)
        (string 50 9)
        (options (fixnum (pos 2)))
        unopened
        (world [])
      ≡ ok (nothing, k, some k) v)
    × (method_close_handle jute closing 1 k v ≡ ok (nothing, record unopened { closed = true }) u)
    × Undone (world []) u
init-close-Undone_example =
    init-close-Undone nothing_yet (making 99) fns closing (making-Serves 99) (pos 5) 9
      (options (fixnum (pos 2))) unopened jute 0 (closing-Closes 99 _) (omega arith) refl

init-leaks_example :
    (k : Handle) × (v : World) × (u : World) × (method_zkrb_init
        (making null)
        fns
        (pos 10000)
        (string 50 9)
        (options (fixnum (pos 2)))
        unopened
        (world [])
      ≡ ok (raised, unopened, some k) v)
    × (free_zkrb_instance_data jute closing 1 k v ≡ ok tt u)
    × Holds u 3 (context zkrb_global_req 1)
    × (u.cell 1 ≡ none)
init-leaks_example =
    init-leaks nothing_yet (making null) fns closing 50 (pos 10000) (making-Serves null) (pos 5) 9
      (options (fixnum (pos 2))) unopened jute 0 refl
