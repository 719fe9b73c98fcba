-- ===== src/Wrapper/SyncNodes.antt =====
-- The wrappers of ext/zkrb_wrapper.c for the synchronous calls on nodes.
use zookeeper_fork.Base.{ℤ}
use zookeeper_fork.Structs.{Ptr}
use zookeeper_fork.Memory.{Cmd, pure, ◌>>=◌}
use zookeeper_fork.Wrapper.{Client, zkrb_fail}
use zookeeper_fork.Wrapper.Region.{Interpreter, zkrb_thread_blocking_region}
use zookeeper_fork.Wrapper.SyncArgs.{
  ZooCreateArgs, ZooDeleteArgs, ZooExistsArgs, ZooWexistsArgs, ZooGetArgs, ZooWgetArgs, ZooSetArgs,
  ZooSet2Args,
}

module _ (client : Client) (ruby : Interpreter) where
  unfoldable pub zkrb_gvl_zoo_create : ZooCreateArgs → Cmd ZooCreateArgs
  zkrb_gvl_zoo_create a = do
    rc ←
        client.zoo_create a.zh a.path a.value a.valuelen a.acl a.flags a.path_buffer
          a.path_buffer_len
    pure (record a { rc = rc })

  unfoldable pub zkrb_call_zoo_create : Ptr → Ptr → Ptr → ℤ → Ptr → ℤ → Ptr → ℤ → Cmd ℤ
  zkrb_call_zoo_create zh path value valuelen acl flags path_buffer path_buffer_len = do
    args ← zkrb_thread_blocking_region ruby zkrb_gvl_zoo_create (record {
      rc = zkrb_fail;
      zh = zh;
      path = path;
      value = value;
      valuelen = valuelen;
      acl = acl;
      flags = flags;
      path_buffer = path_buffer;
      path_buffer_len = path_buffer_len;
    })
    pure args.rc

  unfoldable pub zkrb_gvl_zoo_delete : ZooDeleteArgs → Cmd ZooDeleteArgs
  zkrb_gvl_zoo_delete a = do
    rc ← client.zoo_delete a.zh a.path a.version
    pure (record a { rc = rc })

  unfoldable pub zkrb_call_zoo_delete : Ptr → Ptr → ℤ → Cmd ℤ
  zkrb_call_zoo_delete zh path version = do
    args ←
        zkrb_thread_blocking_region ruby zkrb_gvl_zoo_delete
          (record { rc = zkrb_fail; zh = zh; path = path; version = version })
    pure args.rc

  unfoldable pub zkrb_gvl_zoo_exists : ZooExistsArgs → Cmd ZooExistsArgs
  zkrb_gvl_zoo_exists a = do
    rc ← client.zoo_exists a.zh a.path a.watch a.stat
    pure (record a { rc = rc })

  unfoldable pub zkrb_call_zoo_exists : Ptr → Ptr → ℤ → Ptr → Cmd ℤ
  zkrb_call_zoo_exists zh path watch stat = do
    args ←
        zkrb_thread_blocking_region ruby zkrb_gvl_zoo_exists
          (record { rc = zkrb_fail; zh = zh; path = path; watch = watch; stat = stat })
    pure args.rc

  unfoldable pub zkrb_gvl_zoo_wexists : ZooWexistsArgs → Cmd ZooWexistsArgs
  zkrb_gvl_zoo_wexists a = do
    rc ← client.zoo_wexists a.zh a.path a.watcher a.watcher_ctx a.stat
    pure (record a { rc = rc })

  unfoldable pub zkrb_call_zoo_wexists : Ptr → Ptr → Ptr → Ptr → Ptr → Cmd ℤ
  zkrb_call_zoo_wexists zh path watcher watcher_ctx stat = do
    args ← zkrb_thread_blocking_region ruby zkrb_gvl_zoo_wexists (record {
      rc = zkrb_fail;
      zh = zh;
      path = path;
      watcher = watcher;
      watcher_ctx = watcher_ctx;
      stat = stat;
    })
    pure args.rc

  unfoldable pub zkrb_gvl_zoo_get : ZooGetArgs → Cmd ZooGetArgs
  zkrb_gvl_zoo_get a = do
    rc ← client.zoo_get a.zh a.path a.watch a.buffer a.buffer_len a.stat
    pure (record a { rc = rc })

  unfoldable pub zkrb_call_zoo_get : Ptr → Ptr → ℤ → Ptr → Ptr → Ptr → Cmd ℤ
  zkrb_call_zoo_get zh path watch buffer buffer_len stat = do
    args ← zkrb_thread_blocking_region ruby zkrb_gvl_zoo_get (record {
      rc = zkrb_fail;
      zh = zh;
      path = path;
      watch = watch;
      buffer = buffer;
      buffer_len = buffer_len;
      stat = stat;
    })
    pure args.rc

  unfoldable pub zkrb_gvl_zoo_wget : ZooWgetArgs → Cmd ZooWgetArgs
  zkrb_gvl_zoo_wget a = do
    rc ← client.zoo_wget a.zh a.path a.watcher a.watcher_ctx a.buffer a.buffer_len a.stat
    pure (record a { rc = rc })

  unfoldable pub zkrb_call_zoo_wget : Ptr → Ptr → Ptr → Ptr → Ptr → Ptr → Ptr → Cmd ℤ
  zkrb_call_zoo_wget zh path watcher watcher_ctx buffer buffer_len stat = do
    args ← zkrb_thread_blocking_region ruby zkrb_gvl_zoo_wget (record {
      rc = zkrb_fail;
      zh = zh;
      path = path;
      watcher = watcher;
      watcher_ctx = watcher_ctx;
      buffer = buffer;
      buffer_len = buffer_len;
      stat = stat;
    })
    pure args.rc

  unfoldable pub zkrb_gvl_zoo_set : ZooSetArgs → Cmd ZooSetArgs
  zkrb_gvl_zoo_set a = do
    rc ← client.zoo_set a.zh a.path a.buffer a.buflen a.version
    pure (record a { rc = rc })

  unfoldable pub zkrb_call_zoo_set : Ptr → Ptr → Ptr → ℤ → ℤ → Cmd ℤ
  zkrb_call_zoo_set zh path buffer buflen version = do
    args ← zkrb_thread_blocking_region ruby zkrb_gvl_zoo_set (record {
      rc = zkrb_fail;
      zh = zh;
      path = path;
      buffer = buffer;
      buflen = buflen;
      version = version;
    })
    pure args.rc

  unfoldable pub zkrb_gvl_zoo_set2 : ZooSet2Args → Cmd ZooSet2Args
  zkrb_gvl_zoo_set2 a = do
    rc ← client.zoo_set2 a.zh a.path a.buffer a.buflen a.version a.stat
    pure (record a { rc = rc })

  unfoldable pub zkrb_call_zoo_set2 : Ptr → Ptr → Ptr → ℤ → ℤ → Ptr → Cmd ℤ
  zkrb_call_zoo_set2 zh path buffer buflen version stat = do
    args ← zkrb_thread_blocking_region ruby zkrb_gvl_zoo_set2 (record {
      rc = zkrb_fail;
      zh = zh;
      path = path;
      buffer = buffer;
      buflen = buflen;
      version = version;
      stat = stat;
    })
    pure args.rc
