-- ===== src/Wrapper/Calls.antt =====
-- The wrappers all together, as a client of their own.
use zookeeper_fork.Base.{◌≡◌}
use zookeeper_fork.Wrapper.{Client}
use zookeeper_fork.Wrapper.Region.{Interpreter, Runs, amid}
use zookeeper_fork.Wrapper.AsyncNodes.{
  zkrb_call_zoo_recv_timeout, zkrb_call_zoo_state, zkrb_call_zoo_acreate, zkrb_call_zoo_adelete,
  zkrb_call_zoo_aexists, zkrb_call_zoo_awexists, zkrb_call_zoo_aget, zkrb_call_zoo_awget,
  zkrb_call_zoo_aset,
}
use zookeeper_fork.Wrapper.AsyncLists.{
  zkrb_call_zoo_aget_children, zkrb_call_zoo_awget_children, zkrb_call_zoo_aget_children2,
  zkrb_call_zoo_awget_children2, zkrb_call_zoo_async, zkrb_call_zoo_aget_acl,
  zkrb_call_zoo_aset_acl, zkrb_call_zoo_add_auth,
}
use zookeeper_fork.Wrapper.SyncNodes.{
  zkrb_call_zoo_create, zkrb_call_zoo_delete, zkrb_call_zoo_exists, zkrb_call_zoo_wexists,
  zkrb_call_zoo_get, zkrb_call_zoo_wget, zkrb_call_zoo_set, zkrb_call_zoo_set2,
}
use zookeeper_fork.Wrapper.SyncLists.{
  zkrb_call_zoo_get_children, zkrb_call_zoo_wget_children, zkrb_call_zoo_get_children2,
  zkrb_call_zoo_wget_children2, zkrb_call_zoo_get_acl, zkrb_call_zoo_set_acl,
}
use zookeeper_fork.Wrapper.AsyncNodesCalls.{
  zoo_recv_timeout-once, zoo_state-once, zoo_acreate-once, zoo_adelete-once, zoo_aexists-once,
  zoo_awexists-once, zoo_aget-once, zoo_awget-once, zoo_aset-once,
}
use zookeeper_fork.Wrapper.AsyncListsCalls.{
  zoo_aget_children-once, zoo_awget_children-once, zoo_aget_children2-once,
  zoo_awget_children2-once, zoo_async-once, zoo_aget_acl-once, zoo_aset_acl-once, zoo_add_auth-once,
}
use zookeeper_fork.Wrapper.SyncNodesCalls.{
  zoo_create-once, zoo_delete-once, zoo_exists-once, zoo_wexists-once, zoo_get-once, zoo_wget-once,
  zoo_set-once, zoo_set2-once,
}
use zookeeper_fork.Wrapper.SyncListsCalls.{
  zoo_get_children-once, zoo_wget_children-once, zoo_get_children2-once, zoo_wget_children2-once,
  zoo_get_acl-once, zoo_set_acl-once,
}

-- The wrappers, as a client.
abbrev pub wrapped : Client → Interpreter → Client
wrapped client ruby = record {
  zoo_recv_timeout = zkrb_call_zoo_recv_timeout client ruby;
  zoo_state = zkrb_call_zoo_state client ruby;
  zoo_acreate = zkrb_call_zoo_acreate client ruby;
  zoo_adelete = zkrb_call_zoo_adelete client ruby;
  zoo_aexists = zkrb_call_zoo_aexists client ruby;
  zoo_awexists = zkrb_call_zoo_awexists client ruby;
  zoo_aget = zkrb_call_zoo_aget client ruby;
  zoo_awget = zkrb_call_zoo_awget client ruby;
  zoo_aset = zkrb_call_zoo_aset client ruby;
  zoo_aget_children = zkrb_call_zoo_aget_children client ruby;
  zoo_awget_children = zkrb_call_zoo_awget_children client ruby;
  zoo_aget_children2 = zkrb_call_zoo_aget_children2 client ruby;
  zoo_awget_children2 = zkrb_call_zoo_awget_children2 client ruby;
  zoo_async = zkrb_call_zoo_async client ruby;
  zoo_aget_acl = zkrb_call_zoo_aget_acl client ruby;
  zoo_aset_acl = zkrb_call_zoo_aset_acl client ruby;
  zoo_add_auth = zkrb_call_zoo_add_auth client ruby;
  zoo_create = zkrb_call_zoo_create client ruby;
  zoo_delete = zkrb_call_zoo_delete client ruby;
  zoo_exists = zkrb_call_zoo_exists client ruby;
  zoo_wexists = zkrb_call_zoo_wexists client ruby;
  zoo_get = zkrb_call_zoo_get client ruby;
  zoo_wget = zkrb_call_zoo_wget client ruby;
  zoo_set = zkrb_call_zoo_set client ruby;
  zoo_set2 = zkrb_call_zoo_set2 client ruby;
  zoo_get_children = zkrb_call_zoo_get_children client ruby;
  zoo_wget_children = zkrb_call_zoo_wget_children client ruby;
  zoo_get_children2 = zkrb_call_zoo_get_children2 client ruby;
  zoo_wget_children2 = zkrb_call_zoo_wget_children2 client ruby;
  zoo_get_acl = zkrb_call_zoo_get_acl client ruby;
  zoo_set_acl = zkrb_call_zoo_set_acl client ruby;
}

-- The client's own functions, each amid what the other threads do while it runs.
abbrev pub released : {ruby : Interpreter} → Client → Runs ruby → Client
released client runs = record {
  zoo_recv_timeout = λ zh. amid runs (client.zoo_recv_timeout zh);
  zoo_state = λ zh. amid runs (client.zoo_state zh);
  zoo_acreate = λ zh path value valuelen acl flags completion context.
      amid runs (client.zoo_acreate zh path value valuelen acl flags completion context);
  zoo_adelete = λ zh path version completion context.
      amid runs (client.zoo_adelete zh path version completion context);
  zoo_aexists = λ zh path watch completion context.
      amid runs (client.zoo_aexists zh path watch completion context);
  zoo_awexists = λ zh path watcher watcher_ctx completion context.
      amid runs (client.zoo_awexists zh path watcher watcher_ctx completion context);
  zoo_aget = λ zh path watch completion context.
      amid runs (client.zoo_aget zh path watch completion context);
  zoo_awget = λ zh path watcher watcher_ctx completion context.
      amid runs (client.zoo_awget zh path watcher watcher_ctx completion context);
  zoo_aset = λ zh path buffer buflen version completion context.
      amid runs (client.zoo_aset zh path buffer buflen version completion context);
  zoo_aget_children = λ zh path watch completion context.
      amid runs (client.zoo_aget_children zh path watch completion context);
  zoo_awget_children = λ zh path watcher watcher_ctx completion context.
      amid runs (client.zoo_awget_children zh path watcher watcher_ctx completion context);
  zoo_aget_children2 = λ zh path watch completion context.
      amid runs (client.zoo_aget_children2 zh path watch completion context);
  zoo_awget_children2 = λ zh path watcher watcher_ctx completion context.
      amid runs (client.zoo_awget_children2 zh path watcher watcher_ctx completion context);
  zoo_async = λ zh path completion context. amid runs (client.zoo_async zh path completion context);
  zoo_aget_acl =
      λ zh path completion context. amid runs (client.zoo_aget_acl zh path completion context);
  zoo_aset_acl = λ zh path version acl completion context.
      amid runs (client.zoo_aset_acl zh path version acl completion context);
  zoo_add_auth = λ zh scheme cert cert_len completion context.
      amid runs (client.zoo_add_auth zh scheme cert cert_len completion context);
  zoo_create = λ zh path value valuelen acl flags path_buffer path_buffer_len.
      amid runs (client.zoo_create zh path value valuelen acl flags path_buffer path_buffer_len);
  zoo_delete = λ zh path version. amid runs (client.zoo_delete zh path version);
  zoo_exists = λ zh path watch stat. amid runs (client.zoo_exists zh path watch stat);
  zoo_wexists = λ zh path watcher watcher_ctx stat.
      amid runs (client.zoo_wexists zh path watcher watcher_ctx stat);
  zoo_get = λ zh path watch buffer buffer_len stat.
      amid runs (client.zoo_get zh path watch buffer buffer_len stat);
  zoo_wget = λ zh path watcher watcher_ctx buffer buffer_len stat.
      amid runs (client.zoo_wget zh path watcher watcher_ctx buffer buffer_len stat);
  zoo_set =
      λ zh path buffer buflen version. amid runs (client.zoo_set zh path buffer buflen version);
  zoo_set2 = λ zh path buffer buflen version stat.
      amid runs (client.zoo_set2 zh path buffer buflen version stat);
  zoo_get_children =
      λ zh path watch strings. amid runs (client.zoo_get_children zh path watch strings);
  zoo_wget_children = λ zh path watcher watcher_ctx strings.
      amid runs (client.zoo_wget_children zh path watcher watcher_ctx strings);
  zoo_get_children2 =
      λ zh path watch strings stat. amid runs (client.zoo_get_children2 zh path watch strings stat);
  zoo_wget_children2 = λ zh path watcher watcher_ctx strings stat.
      amid runs (client.zoo_wget_children2 zh path watcher watcher_ctx strings stat);
  zoo_get_acl = λ zh path acl stat. amid runs (client.zoo_get_acl zh path acl stat);
  zoo_set_acl = λ zh path version acl. amid runs (client.zoo_set_acl zh path version acl);
}

-- Each of the wrappers `zkrb_call_zoo_*` calls its function of the client once, with the arguments it
-- was given in their order, and returns the result of that call and never ZKRB_FAIL of its own, if the interpreter
-- runs a function that it is handed once and lets other threads run before and after it.
pub wrapped-released :
    {ruby : Interpreter} (client : Client) (runs : Runs ruby)
    → wrapped client ruby ≡ released client runs
wrapped-released client runs = λ i. record {
  zoo_recv_timeout = λ zh w. zoo_recv_timeout-once client runs zh w i;
  zoo_state = λ zh w. zoo_state-once client runs zh w i;
  zoo_acreate = λ zh path value valuelen acl flags completion context w.
      zoo_acreate-once client runs zh path value valuelen acl flags completion context w i;
  zoo_adelete = λ zh path version completion context w.
      zoo_adelete-once client runs zh path version completion context w i;
  zoo_aexists = λ zh path watch completion context w.
      zoo_aexists-once client runs zh path watch completion context w i;
  zoo_awexists = λ zh path watcher watcher_ctx completion context w.
      zoo_awexists-once client runs zh path watcher watcher_ctx completion context w i;
  zoo_aget = λ zh path watch completion context w.
      zoo_aget-once client runs zh path watch completion context w i;
  zoo_awget = λ zh path watcher watcher_ctx completion context w.
      zoo_awget-once client runs zh path watcher watcher_ctx completion context w i;
  zoo_aset = λ zh path buffer buflen version completion context w.
      zoo_aset-once client runs zh path buffer buflen version completion context w i;
  zoo_aget_children = λ zh path watch completion context w.
      zoo_aget_children-once client runs zh path watch completion context w i;
  zoo_awget_children = λ zh path watcher watcher_ctx completion context w.
      zoo_awget_children-once client runs zh path watcher watcher_ctx completion context w i;
  zoo_aget_children2 = λ zh path watch completion context w.
      zoo_aget_children2-once client runs zh path watch completion context w i;
  zoo_awget_children2 = λ zh path watcher watcher_ctx completion context w.
      zoo_awget_children2-once client runs zh path watcher watcher_ctx completion context w i;
  zoo_async =
      λ zh path completion context w. zoo_async-once client runs zh path completion context w i;
  zoo_aget_acl =
      λ zh path completion context w. zoo_aget_acl-once client runs zh path completion context w i;
  zoo_aset_acl = λ zh path version acl completion context w.
      zoo_aset_acl-once client runs zh path version acl completion context w i;
  zoo_add_auth = λ zh scheme cert cert_len completion context w.
      zoo_add_auth-once client runs zh scheme cert cert_len completion context w i;
  zoo_create = λ zh path value valuelen acl flags path_buffer path_buffer_len w.
      zoo_create-once client runs zh path value valuelen acl flags path_buffer path_buffer_len w i;
  zoo_delete = λ zh path version w. zoo_delete-once client runs zh path version w i;
  zoo_exists = λ zh path watch stat w. zoo_exists-once client runs zh path watch stat w i;
  zoo_wexists = λ zh path watcher watcher_ctx stat w.
      zoo_wexists-once client runs zh path watcher watcher_ctx stat w i;
  zoo_get = λ zh path watch buffer buffer_len stat w.
      zoo_get-once client runs zh path watch buffer buffer_len stat w i;
  zoo_wget = λ zh path watcher watcher_ctx buffer buffer_len stat w.
      zoo_wget-once client runs zh path watcher watcher_ctx buffer buffer_len stat w i;
  zoo_set =
      λ zh path buffer buflen version w. zoo_set-once client runs zh path buffer buflen version w i;
  zoo_set2 = λ zh path buffer buflen version stat w.
      zoo_set2-once client runs zh path buffer buflen version stat w i;
  zoo_get_children =
      λ zh path watch strings w. zoo_get_children-once client runs zh path watch strings w i;
  zoo_wget_children = λ zh path watcher watcher_ctx strings w.
      zoo_wget_children-once client runs zh path watcher watcher_ctx strings w i;
  zoo_get_children2 = λ zh path watch strings stat w.
      zoo_get_children2-once client runs zh path watch strings stat w i;
  zoo_wget_children2 = λ zh path watcher watcher_ctx strings stat w.
      zoo_wget_children2-once client runs zh path watcher watcher_ctx strings stat w i;
  zoo_get_acl = λ zh path acl stat w. zoo_get_acl-once client runs zh path acl stat w i;
  zoo_set_acl = λ zh path version acl w. zoo_set_acl-once client runs zh path version acl w i;
}
