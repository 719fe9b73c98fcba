-- ===== src/Session.antt =====
-- The methods of ext/zookeeper_c.c that open a session, `zkrb_init`, or only ask the client about one. The
-- client's functions are parameters.
pub mod Failure
pub mod Life
use zookeeper_fork.Base.{
  ℕ, Bool, true, false, Option, none, some, ℤ, pos, negsuc, eqb_ℤ, not, ◌==◌, ◌+◌, ◌-◌, ◌*◌, ◌^◌,
  if◌then◌else◌,
}
use zookeeper_fork.Structs.{Ptr, null, Bytes, zkrb_global_req}
use zookeeper_fork.Memory.{Cmd, pure, ◌>>=◌, ◌>>◌}
use zookeeper_fork.Ruby.{num, str, hash, field, no_fields}
use zookeeper_fork.Translate.{rb_str_new2}
use zookeeper_fork.Queue.{zkrb_queue_alloc}
use zookeeper_fork.Callbacks.{zkrb_calling_context_alloc}
use zookeeper_fork.Wrapper.{Client}
use zookeeper_fork.Extension.{Handle, Answer, value, truth, nothing, raised, fetch_data_ptr}
use zookeeper_fork.Requests.{
  Arg, qnil, qtrue, qfalse, fixnum, bignum, string, acl_array, other, Functions, to_int, fits,
  fix2int,
}

-- The functions of the client that are called here and nowhere else. `zoo_client_id` gives the number
-- of the session and the address of its password.
pub record Session : Type 0 where
  pub zoo_set_debug_level : ℤ → Cmd (Unit {0})
  pub zoo_deterministic_conn_order : Bool → Cmd (Unit {0})
  pub zookeeper_init : Ptr → Ptr → ℤ → Ptr → ℤ → Cmd Ptr
  pub is_unrecoverable : Ptr → Cmd ℤ
  pub zoo_client_id : Ptr → Cmd (ℤ × Ptr)
  pub zerror : ℤ → Bytes

-- The second argument of `zkrb_init`: left out, a hash with this value at :zkc_log_level, or
-- something else.
pub data Options : Type 0 where
  no_options : Options
  options : Arg → Options
  not_a_hash : Options

-- The machine word of a Fixnum: twice the number and one, in 64 bits.
abbrev pub fixnum_word : ℤ → ℕ
fixnum_word (pos n) = 2 * n + 1
fixnum_word (negsuc n) = 2 ^ 64 - (2 * n + 1)

-- What `zoo_set_debug_level` is given, or none for an exception. The level is cast as it stands, its
-- tag included.
abbrev pub debug_level : Options → Option ℤ
debug_level no_options = some (pos 0)
debug_level (options qnil) = some (pos 0)
debug_level (options (fixnum n)) = some (to_int (fixnum_word n))
debug_level (options _) = none
debug_level not_a_hash = none

-- `Check_Type(hostPort, T_STRING)` and RSTRING_PTR
abbrev pub host_ptr : Arg → Option Ptr
host_ptr (string p n) = some p
host_ptr _ = none

module _ (client : Session) (fns : Functions) where
  -- From the queue on. `timeout` is the Fixnum in `@_session_timeout_msec`, whose machine word is what
  -- `zookeeper_init` gets. With the answer come the handle as the object has it then and the structure
  -- that was made, which the object keeps only at the end; before that it is the collector's.
  unfoldable pub open_session : ℤ → Ptr → Handle → Cmd (Answer × Handle × Option Handle)
  unfolding zkrb_queue_alloc zkrb_calling_context_alloc
  open_session timeout host h = do
    q ← zkrb_queue_alloc
    if q == null then pure (raised, h, some (record h { zh = null; queue = null })) else do
      client.zoo_deterministic_conn_order false
      ctx ← zkrb_calling_context_alloc zkrb_global_req q
      zh ← client.zookeeper_init host fns.state_fn (to_int (fixnum_word timeout)) ctx (pos 0)
      let made : Handle = record h { zh = zh; queue = q }
      pure (if zh == null then (raised, h, some made) else (nothing, made, some made))

  -- No structure is made for arguments of a wrong type. `zkc_set_running_and_notify!`, which the last line calls, sets a flag that this code does not read.
  unfoldable pub method_zkrb_init :
      ℤ → Arg → Options → Handle → Cmd (Answer × Handle × Option Handle)
  unfolding open_session
  method_zkrb_init timeout host opts h = elim (host_ptr host) [
    | none ↦ pure (raised, h, none)
    | some p ↦ elim (debug_level opts) [
      | none ↦ pure (raised, h, none)
      | some l ↦ client.zoo_set_debug_level l >> open_session timeout p h
    ]
  ]

-- ZINVALIDSTATE of the client
abbrev pub zinvalidstate : ℤ
zinvalidstate = negsuc 8

-- ZOO_LOG_LEVEL_DEBUG of the client
abbrev pub zoo_log_level_debug : ℤ
zoo_log_level_debug = pos 4

module _ (client : Session) where
  unfoldable pub method_is_unrecoverable : Handle → Cmd Answer
  method_is_unrecoverable h =
      fetch_data_ptr h raised
        do rc ← client.is_unrecoverable h.zh; pure (truth (eqb_ℤ rc zinvalidstate))

  unfoldable pub method_deterministic_conn_order : Arg → Cmd Answer
  method_deterministic_conn_order qtrue = do client.zoo_deterministic_conn_order true; pure nothing
  method_deterministic_conn_order _ = do client.zoo_deterministic_conn_order false; pure nothing

  -- The object that comes back has these two attributes.
  unfoldable pub method_client_id : Handle → Cmd Answer
  unfolding rb_str_new2
  method_client_id h = fetch_data_ptr h raised do
    (session_id, passwd) ← client.zoo_client_id h.zh
    p ← rb_str_new2 passwd
    pure (value (hash (field "session_id" (num session_id) (field "passwd" p no_fields))))

  unfoldable pub method_zerror : Arg → Cmd Answer
  method_zerror errc = fix2int errc λ n. pure (value (str (client.zerror n)))

  -- The new value of ZKRBDebugging comes with the answer; an exception leaves the old one.
  unfoldable pub klass_method_zkrb_set_debug_level : Bool → Arg → Cmd (Answer × Bool)
  klass_method_zkrb_set_debug_level old (fixnum n) =
      if not (fits 31 n)
      then pure (raised, old)
      else do client.zoo_set_debug_level n; pure (nothing, eqb_ℤ n zoo_log_level_debug)
  klass_method_zkrb_set_debug_level old _ = pure (raised, old)

module _ (client : Client) where
  unfoldable pub method_zkrb_state : Handle → Cmd Answer
  method_zkrb_state h = fetch_data_ptr h raised do s ← client.zoo_state h.zh; pure (value (num s))

  unfoldable pub method_recv_timeout : Handle → Cmd Answer
  method_recv_timeout h =
      fetch_data_ptr h raised do t ← client.zoo_recv_timeout h.zh; pure (value (num t))
