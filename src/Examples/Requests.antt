-- ===== src/Examples/Requests.antt =====
-- Requests on an open handle, over a client that takes each call at once.
use zookeeper_fork.Base.{◌≡◌, refl, false, true, some, ℤ, pos, negsuc, [], ◌∷◌, arith, suc}
use zookeeper_fork.Structs.{Ptr, null, bytes, strings, vector, stat}
use zookeeper_fork.Memory.{World, Cmd, ok, write_cell}
use zookeeper_fork.Ruby.{num, str, array, item, no_items, field, no_fields}
use zookeeper_fork.Translate.{zkrb_stat_to_rarray}
use zookeeper_fork.Translate.Show.{strings_value}
use zookeeper_fork.Event.Show.{reply}
use zookeeper_fork.Queue.Frame.{allocated}
use zookeeper_fork.Callbacks.{
  zkrb_data_callback, zkrb_stat_callback, zkrb_string_callback, zkrb_strings_stat_callback,
}
use zookeeper_fork.Extension.{Handle, value}
use zookeeper_fork.Extension.Listening.{opened_at}
use zookeeper_fork.Wrapper.{Client}
use zookeeper_fork.Wrapper.Region.{Interpreter, zkrb_thread_blocking_region}
use zookeeper_fork.Wrapper.AsyncNodes.{
  zkrb_call_zoo_aget, zkrb_gvl_zoo_aget, zkrb_call_zoo_acreate, zkrb_gvl_zoo_acreate,
  zkrb_call_zoo_aset, zkrb_gvl_zoo_aset, zkrb_call_zoo_awexists, zkrb_gvl_zoo_awexists,
}
use zookeeper_fork.Wrapper.AsyncLists.{zkrb_call_zoo_aget_children2, zkrb_gvl_zoo_aget_children2}
use zookeeper_fork.Requests.{qnil, qtrue, qfalse, fixnum, string, other, zok}
use zookeeper_fork.Requests.Guard.{Refused, requests-Refused}
use zookeeper_fork.Requests.Quiet.{Idle}
use zookeeper_fork.Requests.Reads.{method_get, method_exists, method_get_children}
use zookeeper_fork.Requests.Writes.{method_create, method_set}
use zookeeper_fork.Requests.Replies.{Accepted}
use zookeeper_fork.Requests.Answered.{
  Answered, get-Answered, get_children-Answered, create-Answered,
}
use zookeeper_fork.Requests.Bounds.{set-Answered}
use zookeeper_fork.Requests.Watches.{Both, exists-Watched}
use zookeeper_fork.Requests.Synced.{filled, Direct}
use zookeeper_fork.Examples.{handle, empty, empty-IsQueue, world-Fresh}
use zookeeper_fork.Examples.Replies.{jute, jute-IsJute, some_stat, names}
use zookeeper_fork.Examples.Sessions.{fns}
use zookeeper_fork.Examples.Wrappers

abbrev taken : Cmd ℤ
taken w = ok (pos 0) w

-- What `zoo_get_children2` leaves: the name "a", in an array.
abbrev pub listing : Ptr → Ptr → World → World
listing vec st u =
    let v = allocated (allocated u (bytes (97 ∷ []))) (strings (suc u.brk ∷ [])) in
    write_cell (write_cell v vec (some (vector (record { count = 1; items = suc (suc u.brk) })))) st
      (some (stat some_stat))

abbrev pub client : Client
client = record Wrappers.client {
  zoo_aget = λ zh path watch completion context. taken;
  zoo_aget_children2 = λ zh path watch completion context. taken;
  zoo_adelete = λ zh path version completion context. taken;
  zoo_acreate = λ zh path value valuelen acl flags completion context. taken;
  zoo_aset = λ zh path buffer buflen version completion context. taken;
  zoo_awexists = λ zh path watcher watcher_ctx completion context. taken;
  zoo_get = λ zh path watch buffer buffer_len st u.
      ok zok (filled u buffer buffer_len st (some (1 ∷ 2 ∷ [])) some_stat);
  zoo_delete = λ zh path version. taken;
  zoo_set2 = λ zh path buffer buflen version st u. ok zok (write_cell u st (some (stat some_stat)));
  zoo_create = λ zh path value valuelen acl flags buf buf_len u.
      ok zok (write_cell u buf (some (bytes (47 ∷ []))));
  zoo_get_children2 = λ zh path watch vec st u. ok zok (listing vec st u);
}

-- No other thread runs.
abbrev pub ruby : Interpreter
ruby = record { ruby_187 = true; region = λ f a. f a }

abbrev pub h : Handle
h = opened_at 99 1 false

empty-Idle : Idle empty 1 handle []
empty-Idle = record { is = empty-IsQueue; fresh = world-Fresh _; memory = λ n. refl; room = refl }

pub accepted : Accepted h (fixnum (pos 5)) (pos 5) qtrue empty handle []
accepted = record {
  is_number = refl;
  is_long = refl;
  zh_open = omega arith;
  is_async = refl;
  idle = empty-Idle;
}

pub direct : Direct h (fixnum (pos 5)) qfalse (pos 5) empty
direct = record {
  is_number = refl;
  zh_open = omega arith;
  is_sync = refl;
  fresh = world-Fresh _;
  memory = λ n. refl;
}

requests-Refused_example : Refused jute client ruby fns h other (string 50 2) empty
requests-Refused_example = requests-Refused jute client ruby fns h other (string 50 2) empty refl

aget_taken : (u : World) → zkrb_call_zoo_aget client ruby 99 50 (pos 0) 202 4 u ≡ ok (pos 0) u
unfolding zkrb_call_zoo_aget zkrb_gvl_zoo_aget zkrb_thread_blocking_region
aget_taken u = refl

get-Answered_example :
    Answered
      (pos 5)
      (pos 0)
      empty
      1
      handle
      []
      (reply
        (pos 5)
        (pos 0)
        (field "data" (str (1 ∷ [])) (field "stat" (zkrb_stat_to_rarray some_stat) no_fields)))
      (method_get client ruby fns h (fixnum (pos 5)) (string 50 2) qtrue qfalse empty)
      (zkrb_data_callback (pos 0) (some (1 ∷ 2 ∷ [])) (pos 1) (some some_stat) 4)
get-Answered_example =
    get-Answered accepted client ruby fns 50 2 (pos 0) (pos 0) aget_taken (some (1 ∷ 2 ∷ []))
      (pos 1) (some some_stat) (omega arith)

children_taken :
    (u : World) → zkrb_call_zoo_aget_children2 client ruby 99 50 (pos 0) 205 4 u ≡ ok (pos 0) u
unfolding zkrb_call_zoo_aget_children2 zkrb_gvl_zoo_aget_children2 zkrb_thread_blocking_region
children_taken u = refl

get_children-Answered_example :
    Answered
      (pos 5)
      (pos 0)
      empty
      1
      handle
      []
      (reply (pos 5) (pos 0) (
        field "strings"
          (strings_value names)
          (field "stat" (zkrb_stat_to_rarray some_stat) no_fields)))
      (method_get_children client ruby fns h (fixnum (pos 5)) (string 50 2) qtrue qfalse empty)
      (zkrb_strings_stat_callback jute (pos 0) (some names) (some some_stat) 4)
get_children-Answered_example =
    get_children-Answered accepted client ruby fns 50 2 (pos 0) (pos 0) jute jute-IsJute
      children_taken (some names) (some some_stat)

create_taken :
    (u : World)
    → zkrb_call_zoo_acreate client ruby 99 50 60 (pos 3) null (pos 1) 204 4 u ≡ ok (pos 0) u
unfolding zkrb_call_zoo_acreate zkrb_gvl_zoo_acreate zkrb_thread_blocking_region
create_taken u = refl

create-Answered_example :
    Answered
      (pos 5)
      (pos 0)
      empty
      1
      handle
      []
      (reply (pos 5) (pos 0) (field "string" (str (47 ∷ [])) no_fields))
      (method_create jute client ruby fns h
        (fixnum (pos 5))
        (string 50 2)
        (string 60 3)
        qtrue
        qnil
        (fixnum (pos 1))
        empty)
      (zkrb_string_callback (pos 0) (some (47 ∷ [])) 4)
create-Answered_example =
    create-Answered accepted client ruby fns 50 2 (pos 0) (pos 0) jute 60 3 (pos 1) refl
      create_taken (some (47 ∷ []))

set_taken :
    (u : World)
    → zkrb_call_zoo_aset client ruby 99 50 null (negsuc 0) (pos 7) 203 4 u ≡ ok (pos 0) u
unfolding zkrb_call_zoo_aset zkrb_gvl_zoo_aset zkrb_thread_blocking_region
set_taken u = refl

set-Answered_example :
    Answered
      (pos 5)
      (pos 0)
      empty
      1
      handle
      []
      (reply (pos 5) (pos 0) (field "stat" (zkrb_stat_to_rarray some_stat) no_fields))
      (method_set client ruby fns h
        (fixnum (pos 5))
        (string 50 2)
        qnil
        qtrue
        (fixnum (pos 7))
        empty)
      (zkrb_stat_callback (pos 0) (some some_stat) 4)
set-Answered_example =
    set-Answered accepted client ruby fns 50 2 (pos 0) qnil (pos 7) refl refl refl set_taken (pos 0)
      (some some_stat)

watch_taken : (u : World) → zkrb_call_zoo_awexists client ruby 99 50 201 5 203 4 u ≡ ok (pos 0) u
unfolding zkrb_call_zoo_awexists zkrb_gvl_zoo_awexists zkrb_thread_blocking_region
watch_taken u = refl

exists-Watched_example :
    (u : World) × (method_exists client ruby fns h (fixnum (pos 5)) (string 50 2) qtrue qtrue empty
      ≡ ok (value (array (item (num (pos 0)) no_items))) u)
    × Both accepted client ruby fns 50 2
        (pos 0)
        (pos 0)
        (some some_stat)
        (pos 1)
        (pos 3)
        (47 ∷ [])
        u
exists-Watched_example =
    exists-Watched accepted client ruby fns 50 2 (pos 0) (pos 0) qtrue refl refl watch_taken
      (some some_stat) (pos 1) (pos 3) (47 ∷ [])
