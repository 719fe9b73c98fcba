-- ===== src/Wrapper/AsyncLists.antt =====
-- The wrappers of ext/zkrb_wrapper.c for the asynchronous calls on children and ACLs.
use zookeeper_fork.Base.{ℤ}
use zookeeper_fork.Structs.{Ptr}
use zookeeper_fork.Memory.{Cmd, pure, ◌>>=◌}
use zookeeper_fork.Wrapper.{Client, zkrb_fail}
use zookeeper_fork.Wrapper.Region.{Interpreter, zkrb_thread_blocking_region}
use zookeeper_fork.Wrapper.AsyncArgs.{
  ZooAgetChildrenArgs, ZooAwgetChildrenArgs, ZooAgetChildren2Args, ZooAwgetChildren2Args,
  ZooAsyncArgs, ZooAgetAclArgs, ZooAsetAclArgs, ZooAddAuthArgs,
}

module _ (client : Client) (ruby : Interpreter) where
  unfoldable pub zkrb_gvl_zoo_aget_children : ZooAgetChildrenArgs → Cmd ZooAgetChildrenArgs
  zkrb_gvl_zoo_aget_children a = do
    rc ← client.zoo_aget_children a.zh a.path a.watch a.completion a.context
    pure (record a { rc = rc })

  unfoldable pub zkrb_call_zoo_aget_children : Ptr → Ptr → ℤ → Ptr → Ptr → Cmd ℤ
  zkrb_call_zoo_aget_children zh path watch completion context = do
    args ← zkrb_thread_blocking_region ruby zkrb_gvl_zoo_aget_children (record {
      rc = zkrb_fail;
      zh = zh;
      path = path;
      watch = watch;
      completion = completion;
      context = context;
    })
    pure args.rc

  unfoldable pub zkrb_gvl_zoo_awget_children : ZooAwgetChildrenArgs → Cmd ZooAwgetChildrenArgs
  zkrb_gvl_zoo_awget_children a = do
    rc ← client.zoo_awget_children a.zh a.path a.watcher a.watcher_ctx a.completion a.context
    pure (record a { rc = rc })

  unfoldable pub zkrb_call_zoo_awget_children : Ptr → Ptr → Ptr → Ptr → Ptr → Ptr → Cmd ℤ
  zkrb_call_zoo_awget_children zh path watcher watcher_ctx completion context = do
    args ← zkrb_thread_blocking_region ruby zkrb_gvl_zoo_awget_children (record {
      rc = zkrb_fail;
      zh = zh;
      path = path;
      watcher = watcher;
      watcher_ctx = watcher_ctx;
      completion = completion;
      context = context;
    })
    pure args.rc

  unfoldable pub zkrb_gvl_zoo_aget_children2 : ZooAgetChildren2Args → Cmd ZooAgetChildren2Args
  zkrb_gvl_zoo_aget_children2 a = do
    rc ← client.zoo_aget_children2 a.zh a.path a.watch a.completion a.context
    pure (record a { rc = rc })

  unfoldable pub zkrb_call_zoo_aget_children2 : Ptr → Ptr → ℤ → Ptr → Ptr → Cmd ℤ
  zkrb_call_zoo_aget_children2 zh path watch completion context = do
    args ← zkrb_thread_blocking_region ruby zkrb_gvl_zoo_aget_children2 (record {
      rc = zkrb_fail;
      zh = zh;
      path = path;
      watch = watch;
      completion = completion;
      context = context;
    })
    pure args.rc

  unfoldable pub zkrb_gvl_zoo_awget_children2 : ZooAwgetChildren2Args → Cmd ZooAwgetChildren2Args
  zkrb_gvl_zoo_awget_children2 a = do
    rc ← client.zoo_awget_children2 a.zh a.path a.watcher a.watcher_ctx a.completion a.context
    pure (record a { rc = rc })

  unfoldable pub zkrb_call_zoo_awget_children2 : Ptr → Ptr → Ptr → Ptr → Ptr → Ptr → Cmd ℤ
  zkrb_call_zoo_awget_children2 zh path watcher watcher_ctx completion context = do
    args ← zkrb_thread_blocking_region ruby zkrb_gvl_zoo_awget_children2 (record {
      rc = zkrb_fail;
      zh = zh;
      path = path;
      watcher = watcher;
      watcher_ctx = watcher_ctx;
      completion = completion;
      context = context;
    })
    pure args.rc

  unfoldable pub zkrb_gvl_zoo_async : ZooAsyncArgs → Cmd ZooAsyncArgs
  zkrb_gvl_zoo_async a = do
    rc ← client.zoo_async a.zh a.path a.completion a.context
    pure (record a { rc = rc })

  unfoldable pub zkrb_call_zoo_async : Ptr → Ptr → Ptr → Ptr → Cmd ℤ
  zkrb_call_zoo_async zh path completion context = do
    args ← zkrb_thread_blocking_region ruby zkrb_gvl_zoo_async (record {
      rc = zkrb_fail;
      zh = zh;
      path = path;
      completion = completion;
      context = context;
    })
    pure args.rc

  unfoldable pub zkrb_gvl_zoo_aget_acl : ZooAgetAclArgs → Cmd ZooAgetAclArgs
  zkrb_gvl_zoo_aget_acl a = do
    rc ← client.zoo_aget_acl a.zh a.path a.completion a.context
    pure (record a { rc = rc })

  unfoldable pub zkrb_call_zoo_aget_acl : Ptr → Ptr → Ptr → Ptr → Cmd ℤ
  zkrb_call_zoo_aget_acl zh path completion context = do
    args ← zkrb_thread_blocking_region ruby zkrb_gvl_zoo_aget_acl (record {
      rc = zkrb_fail;
      zh = zh;
      path = path;
      completion = completion;
      context = context;
    })
    pure args.rc

  unfoldable pub zkrb_gvl_zoo_aset_acl : ZooAsetAclArgs → Cmd ZooAsetAclArgs
  zkrb_gvl_zoo_aset_acl a = do
    rc ← client.zoo_aset_acl a.zh a.path a.version a.acl a.completion a.context
    pure (record a { rc = rc })

  unfoldable pub zkrb_call_zoo_aset_acl : Ptr → Ptr → ℤ → Ptr → Ptr → Ptr → Cmd ℤ
  zkrb_call_zoo_aset_acl zh path version acl completion context = do
    args ← zkrb_thread_blocking_region ruby zkrb_gvl_zoo_aset_acl (record {
      rc = zkrb_fail;
      zh = zh;
      path = path;
      version = version;
      acl = acl;
      completion = completion;
      context = context;
    })
    pure args.rc

  unfoldable pub zkrb_gvl_zoo_add_auth : ZooAddAuthArgs → Cmd ZooAddAuthArgs
  zkrb_gvl_zoo_add_auth a = do
    rc ← client.zoo_add_auth a.zh a.scheme a.cert a.cert_len a.completion a.context
    pure (record a { rc = rc })

  unfoldable pub zkrb_call_zoo_add_auth : Ptr → Ptr → Ptr → ℤ → Ptr → Ptr → Cmd ℤ
  zkrb_call_zoo_add_auth zh scheme cert cert_len completion context = do
    args ← zkrb_thread_blocking_region ruby zkrb_gvl_zoo_add_auth (record {
      rc = zkrb_fail;
      zh = zh;
      scheme = scheme;
      cert = cert;
      cert_len = cert_len;
      completion = completion;
      context = context;
    })
    pure args.rc
