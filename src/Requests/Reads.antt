-- ===== src/Requests/Reads.antt =====
-- The methods of ext/zookeeper_c.c that read: `get`, `exists`, `get_children` and `get_acl`.
use zookeeper_fork.Base.{ℕ, ℤ, pos, negsuc, eqb_ℤ, if◌then◌else◌, length, take, leb}
use zookeeper_fork.Structs.{Ptr, raw, int, as_int, as_bytes}
use zookeeper_fork.Memory.{Cmd, pure, crash, ◌>>=◌, ◌>>◌, load_as, malloc, free}
use zookeeper_fork.Ruby.{Value, nil, str, rb_ary_push}
use zookeeper_fork.Translate.{Jute, zkrb_string_vector_to_ruby, zkrb_acl_vector_to_ruby}
use zookeeper_fork.Event.{stat_value}
use zookeeper_fork.Extension.{Handle, Answer, nothing}
use zookeeper_fork.Wrapper.{Client}
use zookeeper_fork.Wrapper.Region.{Interpreter}
use zookeeper_fork.Wrapper.AsyncNodes.{
  zkrb_call_zoo_aget, zkrb_call_zoo_awget, zkrb_call_zoo_aexists, zkrb_call_zoo_awexists,
}
use zookeeper_fork.Wrapper.AsyncLists.{
  zkrb_call_zoo_aget_children2, zkrb_call_zoo_awget_children2, zkrb_call_zoo_aget_acl,
}
use zookeeper_fork.Wrapper.SyncNodes.{
  zkrb_call_zoo_get, zkrb_call_zoo_wget, zkrb_call_zoo_exists, zkrb_call_zoo_wexists,
}
use zookeeper_fork.Wrapper.SyncLists.{
  zkrb_call_zoo_get_children2, zkrb_call_zoo_wget_children2, zkrb_call_zoo_get_acl,
}
use zookeeper_fork.Requests.{
  Arg, qfalse, Functions, CallType, sync, async, sync_watch, async_watch, standard_preamble,
  with_local, answer_with,
}

abbrev pub max_znode_size : ℕ
max_znode_size = 1048576

-- What is pushed for the data: nil if the client says that there is none, else `rb_str_new`. A length
-- below -1, which the client does not give, is a fault here; Ruby raises.
unfoldable pub data_value : Ptr → ℤ → Cmd Value
unfolding load_as
data_value p (pos n) = do
  b ← load_as as_bytes p
  if leb n (length b) then pure (str (take n b)) else crash
data_value p (negsuc n) = if eqb_ℤ (negsuc n) (negsuc 0) then pure nil else crash

module _ (client : Client) (ruby : Interpreter) (fns : Functions) where
  -- The `switch` of each method.
  unfoldable pub get_call : Ptr → Ptr → Ptr → Ptr → Ptr → Ptr → Ptr → CallType → Cmd ℤ
  get_call zh path buf len st data_ctx watch_ctx sync =
      zkrb_call_zoo_get client ruby zh path (pos 0) buf len st
  get_call zh path buf len st data_ctx watch_ctx sync_watch =
      zkrb_call_zoo_wget client ruby zh path fns.state_fn watch_ctx buf len st
  get_call zh path buf len st data_ctx watch_ctx async =
      zkrb_call_zoo_aget client ruby zh path (pos 0) fns.data_fn data_ctx
  get_call zh path buf len st data_ctx watch_ctx async_watch =
      zkrb_call_zoo_awget client ruby zh path fns.state_fn watch_ctx fns.data_fn data_ctx

  unfoldable pub get_body : Handle → Ptr → Ptr → Ptr → CallType → Cmd Answer
  unfolding get_call malloc free load_as data_value stat_value
  get_body h p data_ctx watch_ctx type = do
    buf ← malloc
    with_local (int (pos max_znode_size)) λ len. with_local raw λ st. do
      rc ← get_call h.zh p buf len st data_ctx watch_ctx type
      output ← answer_with type rc λ output. do
        n ← load_as as_int len
        d ← data_value buf n
        s ← stat_value st
        pure (rb_ary_push (rb_ary_push output d) s)
      free buf
      pure output

  unfoldable pub method_get : Handle → Arg → Arg → Arg → Arg → Cmd Answer
  method_get h reqid path async_v watch = standard_preamble h reqid path async_v watch (get_body h)

  unfoldable pub exists_call : Ptr → Ptr → Ptr → Ptr → Ptr → CallType → Cmd ℤ
  exists_call zh path st data_ctx watch_ctx sync =
      zkrb_call_zoo_exists client ruby zh path (pos 0) st
  exists_call zh path st data_ctx watch_ctx sync_watch =
      zkrb_call_zoo_wexists client ruby zh path fns.state_fn watch_ctx st
  exists_call zh path st data_ctx watch_ctx async =
      zkrb_call_zoo_aexists client ruby zh path (pos 0) fns.stat_fn data_ctx
  exists_call zh path st data_ctx watch_ctx async_watch =
      zkrb_call_zoo_awexists client ruby zh path fns.state_fn watch_ctx fns.stat_fn data_ctx

  unfoldable pub exists_body : Handle → Ptr → Ptr → Ptr → CallType → Cmd Answer
  unfolding exists_call stat_value
  exists_body h p data_ctx watch_ctx type = with_local raw λ st. do
    rc ← exists_call h.zh p st data_ctx watch_ctx type
    answer_with type rc λ output. do s ← stat_value st; pure (rb_ary_push output s)

  unfoldable pub method_exists : Handle → Arg → Arg → Arg → Arg → Cmd Answer
  method_exists h reqid path async_v watch =
      standard_preamble h reqid path async_v watch (exists_body h)

  unfoldable pub get_children_call : Ptr → Ptr → Ptr → Ptr → Ptr → Ptr → CallType → Cmd ℤ
  get_children_call zh path strings st data_ctx watch_ctx sync =
      zkrb_call_zoo_get_children2 client ruby zh path (pos 0) strings st
  get_children_call zh path strings st data_ctx watch_ctx sync_watch =
      zkrb_call_zoo_wget_children2 client ruby zh path fns.state_fn watch_ctx strings st
  get_children_call zh path strings st data_ctx watch_ctx async =
      zkrb_call_zoo_aget_children2 client ruby zh path (pos 0) fns.strings_stat_fn data_ctx
  get_children_call zh path strings st data_ctx watch_ctx async_watch =
      zkrb_call_zoo_awget_children2 client ruby zh path fns.state_fn watch_ctx fns.strings_stat_fn
        data_ctx

  unfoldable pub get_children_body : Handle → Ptr → Ptr → Ptr → CallType → Cmd Answer
  unfolding get_children_call stat_value zkrb_string_vector_to_ruby
  get_children_body h p data_ctx watch_ctx type = with_local raw λ strings. with_local raw λ st. do
    rc ← get_children_call h.zh p strings st data_ctx watch_ctx type
    answer_with type rc λ output. do
      l ← zkrb_string_vector_to_ruby strings
      s ← stat_value st
      pure (rb_ary_push (rb_ary_push output l) s)

  unfoldable pub method_get_children : Handle → Arg → Arg → Arg → Arg → Cmd Answer
  method_get_children h reqid path async_v watch =
      standard_preamble h reqid path async_v watch (get_children_body h)

  -- A call of the other two types returns nil at once.
  unfoldable pub get_acl_call :
      Ptr → Ptr → Ptr → Ptr → Ptr → CallType → (ℤ → Cmd Answer) → Cmd Answer
  get_acl_call zh path acls st data_ctx sync k =
      zkrb_call_zoo_get_acl client ruby zh path acls st >>= k
  get_acl_call zh path acls st data_ctx async k =
      zkrb_call_zoo_aget_acl client ruby zh path fns.acl_fn data_ctx >>= k
  get_acl_call zh path acls st data_ctx _ k = pure nothing

  unfoldable pub get_acl_body : Jute → Handle → Ptr → Ptr → Ptr → CallType → Cmd Answer
  unfolding get_acl_call stat_value zkrb_acl_vector_to_ruby
  get_acl_body jute h p data_ctx watch_ctx type = with_local raw λ acls. with_local raw λ st.
      get_acl_call h.zh p acls st data_ctx type λ rc. answer_with type rc λ output. do
        l ← zkrb_acl_vector_to_ruby acls
        s ← stat_value st
        jute.deallocate_acl_vector acls
        pure (rb_ary_push (rb_ary_push output l) s)

  unfoldable pub method_get_acl : Jute → Handle → Arg → Arg → Arg → Cmd Answer
  method_get_acl jute h reqid path async_v =
      standard_preamble h reqid path async_v qfalse (get_acl_body jute h)
