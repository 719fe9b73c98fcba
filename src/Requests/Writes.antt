-- ===== src/Requests/Writes.antt =====
-- The methods of ext/zookeeper_c.c that write: `create`, `delete`, `set` and `set_acl`; and `sync`.
use zookeeper_fork.Base.{ℕ, ℤ, Option, none, some, pos, ◌==◌, if◌then◌else◌}
use zookeeper_fork.Structs.{Ptr, null, raw}
use zookeeper_fork.Memory.{Cmd, pure, ◌>>=◌, ◌>>◌, free}
use zookeeper_fork.Ruby.{rb_ary_push}
use zookeeper_fork.Translate.{Jute, rb_str_new2}
use zookeeper_fork.Translate.FromRuby.{zkrb_ruby_to_aclvector}
use zookeeper_fork.Event.{stat_value}
use zookeeper_fork.Extension.{Handle, Answer, nothing, raised}
use zookeeper_fork.Wrapper.{Client}
use zookeeper_fork.Wrapper.Region.{Interpreter}
use zookeeper_fork.Wrapper.AsyncNodes.{
  zkrb_call_zoo_acreate, zkrb_call_zoo_adelete, zkrb_call_zoo_aset,
}
use zookeeper_fork.Wrapper.AsyncLists.{zkrb_call_zoo_async, zkrb_call_zoo_aset_acl}
use zookeeper_fork.Wrapper.SyncNodes.{
  zkrb_call_zoo_create, zkrb_call_zoo_delete, zkrb_call_zoo_set2,
}
use zookeeper_fork.Wrapper.SyncLists.{zkrb_call_zoo_set_acl}
use zookeeper_fork.Requests.{
  Arg, qnil, qtrue, qfalse, acl_array, Functions, CallType, sync, async, standard_preamble,
  with_local, answer_with, just_rc, fix2int, check_fixnum, with_data, to_int,
}

module _ (client : Client) (ruby : Interpreter) (fns : Functions) where
  -- It is only called asynchronously.
  unfoldable pub sync_body : Handle → Ptr → Ptr → Ptr → CallType → Cmd Answer
  sync_body h p data_ctx watch_ctx type = do
    rc ← zkrb_call_zoo_async client ruby h.zh p fns.string_fn data_ctx
    just_rc rc

  unfoldable pub method_sync : Handle → Arg → Arg → Cmd Answer
  method_sync h reqid path = standard_preamble h reqid path qtrue qfalse (sync_body h)

  -- The `switch` of each method. A call with a watch returns nil at once.
  unfoldable pub delete_call : Ptr → Ptr → Arg → Ptr → CallType → (ℤ → Cmd Answer) → Cmd Answer
  delete_call zh path version data_ctx sync k =
      fix2int version λ v. zkrb_call_zoo_delete client ruby zh path v >>= k
  delete_call zh path version data_ctx async k =
      fix2int version λ v. zkrb_call_zoo_adelete client ruby zh path v fns.void_fn data_ctx >>= k
  delete_call zh path version data_ctx _ k = pure nothing

  unfoldable pub delete_body : Handle → Arg → Ptr → Ptr → Ptr → CallType → Cmd Answer
  unfolding delete_call
  delete_body h version p data_ctx watch_ctx type =
      check_fixnum version (delete_call h.zh p version data_ctx type just_rc)

  unfoldable pub method_delete : Handle → Arg → Arg → Arg → Arg → Cmd Answer
  method_delete h reqid path version async_v =
      standard_preamble h reqid path async_v qfalse (delete_body h version)

  unfoldable pub set_call :
      Ptr → Ptr → Ptr → ℕ → Arg → Ptr → Ptr → CallType → (ℤ → Cmd Answer) → Cmd Answer
  set_call zh path data_ptr data_len version st data_ctx sync k =
      fix2int version
        λ v. zkrb_call_zoo_set2 client ruby zh path data_ptr (to_int data_len) v st >>= k
  set_call zh path data_ptr data_len version st data_ctx async k = fix2int version λ v.
      zkrb_call_zoo_aset client ruby zh path data_ptr (to_int data_len) v fns.stat_fn data_ctx >>= k
  set_call zh path data_ptr data_len version st data_ctx _ k = pure nothing

  unfoldable pub set_body : Handle → Arg → Arg → Ptr → Ptr → Ptr → CallType → Cmd Answer
  unfolding set_call stat_value
  set_body h bytes version p data_ctx watch_ctx type = with_local raw λ st.
      with_data bytes λ data_ptr data_len.
        set_call h.zh p data_ptr data_len version st data_ctx type
          λ rc. answer_with type rc λ output. do s ← stat_value st; pure (rb_ary_push output s)

  unfoldable pub method_set : Handle → Arg → Arg → Arg → Arg → Arg → Cmd Answer
  method_set h reqid path bytes async_v version =
      standard_preamble h reqid path async_v qfalse (set_body h bytes version)

module _ (jute : Jute) where
  -- What follows on the vector; an exception is the method's.
  abbrev pub or_raise : Option Ptr → (Ptr → Cmd Answer) → Cmd Answer
  or_raise none k = pure raised
  or_raise (some v) k = k v

  -- `acls != Qnil ? zkrb_ruby_to_aclvector(acls) : NULL`
  unfoldable pub acl_arg : Arg → (Ptr → Cmd Answer) → Cmd Answer
  unfolding zkrb_ruby_to_aclvector
  acl_arg qnil k = k null
  acl_arg (acl_array l) k = zkrb_ruby_to_aclvector jute l >>= λ v. or_raise v k
  acl_arg _ k = pure raised

  -- `zkrb_ruby_to_aclvector(acls)`, whose Check_Type does not let nil pass.
  unfoldable pub acl_array_arg : Arg → (Ptr → Cmd Answer) → Cmd Answer
  unfolding zkrb_ruby_to_aclvector
  acl_array_arg (acl_array l) k = zkrb_ruby_to_aclvector jute l >>= λ v. or_raise v k
  acl_array_arg _ k = pure raised

  unfoldable pub release_acl : Ptr → Cmd (Unit {0})
  unfolding free
  release_acl p = do jute.deallocate_acl_vector p; free p

module _ (jute : Jute) (client : Client) (ruby : Interpreter) (fns : Functions) where
  unfoldable pub create_call :
      Ptr → Ptr → Ptr → ℕ → Ptr → Arg → Ptr → Ptr → CallType → (ℤ → Cmd Answer) → Cmd Answer
  create_call zh path data_ptr data_len aclptr flags realpath data_ctx sync k = fix2int flags λ f.
      zkrb_call_zoo_create client ruby zh path data_ptr (to_int data_len) aclptr f realpath
        (pos 16384)
      >>= k
  create_call zh path data_ptr data_len aclptr flags realpath data_ctx async k = fix2int flags λ f.
      zkrb_call_zoo_acreate client ruby zh path data_ptr (to_int data_len) aclptr f fns.string_fn
        data_ctx
      >>= k
  create_call zh path data_ptr data_len aclptr flags realpath data_ctx _ k = pure nothing

  unfoldable pub create_body : Handle → Arg → Arg → Arg → Ptr → Ptr → Ptr → CallType → Cmd Answer
  unfolding create_call acl_arg release_acl rb_str_new2
  create_body h bytes acls flags p data_ctx watch_ctx type = with_data bytes λ data_ptr data_len.
      check_fixnum flags (
        acl_arg jute acls λ aclptr. with_local raw λ realpath.
          create_call h.zh p data_ptr data_len aclptr flags realpath data_ctx type λ rc. do
            if aclptr == null then pure tt else release_acl jute aclptr
            answer_with type rc λ output. do r ← rb_str_new2 realpath; pure (rb_ary_push output r))

  unfoldable pub method_create : Handle → Arg → Arg → Arg → Arg → Arg → Arg → Cmd Answer
  method_create h reqid path bytes async_v acls flags =
      standard_preamble h reqid path async_v qfalse (create_body h bytes acls flags)

  unfoldable pub set_acl_call :
      Ptr → Ptr → Arg → Ptr → Ptr → CallType → (ℤ → Cmd Answer) → Cmd Answer
  set_acl_call zh path version aclptr data_ctx sync k =
      fix2int version λ v. zkrb_call_zoo_set_acl client ruby zh path v aclptr >>= k
  set_acl_call zh path version aclptr data_ctx async k =
      fix2int version
        λ v. zkrb_call_zoo_aset_acl client ruby zh path v aclptr fns.void_fn data_ctx >>= k
  set_acl_call zh path version aclptr data_ctx _ k = pure nothing

  unfoldable pub set_acl_body : Handle → Arg → Arg → Ptr → Ptr → Ptr → CallType → Cmd Answer
  unfolding set_acl_call acl_array_arg release_acl
  set_acl_body h acls version p data_ctx watch_ctx type = acl_array_arg jute acls λ aclptr.
      set_acl_call h.zh p version aclptr data_ctx type λ rc. do release_acl jute aclptr; just_rc rc

  unfoldable pub method_set_acl : Handle → Arg → Arg → Arg → Arg → Arg → Cmd Answer
  method_set_acl h reqid path acls async_v version =
      standard_preamble h reqid path async_v qfalse (set_acl_body h acls version)
