-- ===== src/Wrapper/AsyncNodes.antt =====
-- The wrappers of ext/zkrb_wrapper.c for the asynchronous calls on nodes.
use zookeeper_fork.Base.{ℤ}
use zookeeper_fork.Structs.{Ptr}
use zookeeper_fork.Memory.{Cmd, pure, ◌>>=◌}
use zookeeper_fork.Wrapper.{Client, zkrb_fail}
use zookeeper_fork.Wrapper.Region.{Interpreter, zkrb_thread_blocking_region}
use zookeeper_fork.Wrapper.AsyncArgs.{
  ZooRecvTimeoutArgs, ZooStateArgs, ZooAcreateArgs, ZooAdeleteArgs, ZooAexistsArgs, ZooAwexistsArgs,
  ZooAgetArgs, ZooAwgetArgs, ZooAsetArgs,
}

module _ (client : Client) (ruby : Interpreter) where
  unfoldable pub zkrb_gvl_zoo_recv_timeout : ZooRecvTimeoutArgs → Cmd ZooRecvTimeoutArgs
  zkrb_gvl_zoo_recv_timeout a = do rc ← client.zoo_recv_timeout a.zh; pure (record a { rc = rc })

  unfoldable pub zkrb_call_zoo_recv_timeout : Ptr → Cmd ℤ
  zkrb_call_zoo_recv_timeout zh = do
    args ←
        zkrb_thread_blocking_region ruby zkrb_gvl_zoo_recv_timeout
          (record { rc = zkrb_fail; zh = zh })
    pure args.rc

  unfoldable pub zkrb_gvl_zoo_state : ZooStateArgs → Cmd ZooStateArgs
  zkrb_gvl_zoo_state a = do rc ← client.zoo_state a.zh; pure (record a { rc = rc })

  unfoldable pub zkrb_call_zoo_state : Ptr → Cmd ℤ
  zkrb_call_zoo_state zh = do
    args ← zkrb_thread_blocking_region ruby zkrb_gvl_zoo_state (record { rc = zkrb_fail; zh = zh })
    pure args.rc

  unfoldable pub zkrb_gvl_zoo_acreate : ZooAcreateArgs → Cmd ZooAcreateArgs
  zkrb_gvl_zoo_acreate a = do
    rc ← client.zoo_acreate a.zh a.path a.value a.valuelen a.acl a.flags a.completion a.context
    pure (record a { rc = rc })

  unfoldable pub zkrb_call_zoo_acreate : Ptr → Ptr → Ptr → ℤ → Ptr → ℤ → Ptr → Ptr → Cmd ℤ
  zkrb_call_zoo_acreate zh path value valuelen acl flags completion context = do
    args ← zkrb_thread_blocking_region ruby zkrb_gvl_zoo_acreate (record {
      rc = zkrb_fail;
      zh = zh;
      path = path;
      value = value;
      valuelen = valuelen;
      acl = acl;
      flags = flags;
      completion = completion;
      context = context;
    })
    pure args.rc

  unfoldable pub zkrb_gvl_zoo_adelete : ZooAdeleteArgs → Cmd ZooAdeleteArgs
  zkrb_gvl_zoo_adelete a = do
    rc ← client.zoo_adelete a.zh a.path a.version a.completion a.context
    pure (record a { rc = rc })

  unfoldable pub zkrb_call_zoo_adelete : Ptr → Ptr → ℤ → Ptr → Ptr → Cmd ℤ
  zkrb_call_zoo_adelete zh path version completion context = do
    args ← zkrb_thread_blocking_region ruby zkrb_gvl_zoo_adelete (record {
      rc = zkrb_fail;
      zh = zh;
      path = path;
      version = version;
      completion = completion;
      context = context;
    })
    pure args.rc

  unfoldable pub zkrb_gvl_zoo_aexists : ZooAexistsArgs → Cmd ZooAexistsArgs
  zkrb_gvl_zoo_aexists a = do
    rc ← client.zoo_aexists a.zh a.path a.watch a.completion a.context
    pure (record a { rc = rc })

  unfoldable pub zkrb_call_zoo_aexists : Ptr → Ptr → ℤ → Ptr → Ptr → Cmd ℤ
  zkrb_call_zoo_aexists zh path watch completion context = do
    args ← zkrb_thread_blocking_region ruby zkrb_gvl_zoo_aexists (record {
      rc = zkrb_fail;
      zh = zh;
      path = path;
      watch = watch;
      completion = completion;
      context = context;
    })
    pure args.rc

  unfoldable pub zkrb_gvl_zoo_awexists : ZooAwexistsArgs → Cmd ZooAwexistsArgs
  zkrb_gvl_zoo_awexists a = do
    rc ← client.zoo_awexists a.zh a.path a.watcher a.watcher_ctx a.completion a.context
    pure (record a { rc = rc })

  unfoldable pub zkrb_call_zoo_awexists : Ptr → Ptr → Ptr → Ptr → Ptr → Ptr → Cmd ℤ
  zkrb_call_zoo_awexists zh path watcher watcher_ctx completion context = do
    args ← zkrb_thread_blocking_region ruby zkrb_gvl_zoo_awexists (record {
      rc = zkrb_fail;
      zh = zh;
      path = path;
      watcher = watcher;
      watcher_ctx = watcher_ctx;
      completion = completion;
      context = context;
    })
    pure args.rc

  unfoldable pub zkrb_gvl_zoo_aget : ZooAgetArgs → Cmd ZooAgetArgs
  zkrb_gvl_zoo_aget a = do
    rc ← client.zoo_aget a.zh a.path a.watch a.completion a.context
    pure (record a { rc = rc })

  unfoldable pub zkrb_call_zoo_aget : Ptr → Ptr → ℤ → Ptr → Ptr → Cmd ℤ
  zkrb_call_zoo_aget zh path watch completion context = do
    args ← zkrb_thread_blocking_region ruby zkrb_gvl_zoo_aget (record {
      rc = zkrb_fail;
      zh = zh;
      path = path;
      watch = watch;
      completion = completion;
      context = context;
    })
    pure args.rc

  unfoldable pub zkrb_gvl_zoo_awget : ZooAwgetArgs → Cmd ZooAwgetArgs
  zkrb_gvl_zoo_awget a = do
    rc ← client.zoo_awget a.zh a.path a.watcher a.watcher_ctx a.completion a.context
    pure (record a { rc = rc })

  unfoldable pub zkrb_call_zoo_awget : Ptr → Ptr → Ptr → Ptr → Ptr → Ptr → Cmd ℤ
  zkrb_call_zoo_awget zh path watcher watcher_ctx completion context = do
    args ← zkrb_thread_blocking_region ruby zkrb_gvl_zoo_awget (record {
      rc = zkrb_fail;
      zh = zh;
      path = path;
      watcher = watcher;
      watcher_ctx = watcher_ctx;
      completion = completion;
      context = context;
    })
    pure args.rc

  unfoldable pub zkrb_gvl_zoo_aset : ZooAsetArgs → Cmd ZooAsetArgs
  zkrb_gvl_zoo_aset a = do
    rc ← client.zoo_aset a.zh a.path a.buffer a.buflen a.version a.completion a.context
    pure (record a { rc = rc })

  unfoldable pub zkrb_call_zoo_aset : Ptr → Ptr → Ptr → ℤ → ℤ → Ptr → Ptr → Cmd ℤ
  zkrb_call_zoo_aset zh path buffer buflen version completion context = do
    args ← zkrb_thread_blocking_region ruby zkrb_gvl_zoo_aset (record {
      rc = zkrb_fail;
      zh = zh;
      path = path;
      buffer = buffer;
      buflen = buflen;
      version = version;
      completion = completion;
      context = context;
    })
    pure args.rc
