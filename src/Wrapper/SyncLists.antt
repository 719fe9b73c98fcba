-- ===== src/Wrapper/SyncLists.antt =====
-- The wrappers of ext/zkrb_wrapper.c for the synchronous calls on children and ACLs.
use zookeeper_fork.Base.{ℤ}
use zookeeper_fork.Structs.{Ptr}
use zookeeper_fork.Memory.{Cmd, pure, ◌>>=◌}
use zookeeper_fork.Wrapper.{Client, zkrb_fail}
use zookeeper_fork.Wrapper.Region.{Interpreter, zkrb_thread_blocking_region}
use zookeeper_fork.Wrapper.SyncArgs.{
  ZooGetChildrenArgs, ZooWgetChildrenArgs, ZooGetChildren2Args, ZooWgetChildren2Args, ZooGetAclArgs,
  ZooSetAclArgs,
}

module _ (client : Client) (ruby : Interpreter) where
  unfoldable pub zkrb_gvl_zoo_get_children : ZooGetChildrenArgs → Cmd ZooGetChildrenArgs
  zkrb_gvl_zoo_get_children a = do
    rc ← client.zoo_get_children a.zh a.path a.watch a.strings
    pure (record a { rc = rc })

  unfoldable pub zkrb_call_zoo_get_children : Ptr → Ptr → ℤ → Ptr → Cmd ℤ
  zkrb_call_zoo_get_children zh path watch strings = do
    args ←
        zkrb_thread_blocking_region ruby zkrb_gvl_zoo_get_children
          (record { rc = zkrb_fail; zh = zh; path = path; watch = watch; strings = strings })
    pure args.rc

  unfoldable pub zkrb_gvl_zoo_wget_children : ZooWgetChildrenArgs → Cmd ZooWgetChildrenArgs
  zkrb_gvl_zoo_wget_children a = do
    rc ← client.zoo_wget_children a.zh a.path a.watcher a.watcher_ctx a.strings
    pure (record a { rc = rc })

  unfoldable pub zkrb_call_zoo_wget_children : Ptr → Ptr → Ptr → Ptr → Ptr → Cmd ℤ
  zkrb_call_zoo_wget_children zh path watcher watcher_ctx strings = do
    args ← zkrb_thread_blocking_region ruby zkrb_gvl_zoo_wget_children (record {
      rc = zkrb_fail;
      zh = zh;
      path = path;
      watcher = watcher;
      watcher_ctx = watcher_ctx;
      strings = strings;
    })
    pure args.rc

  unfoldable pub zkrb_gvl_zoo_get_children2 : ZooGetChildren2Args → Cmd ZooGetChildren2Args
  zkrb_gvl_zoo_get_children2 a = do
    rc ← client.zoo_get_children2 a.zh a.path a.watch a.strings a.stat
    pure (record a { rc = rc })

  unfoldable pub zkrb_call_zoo_get_children2 : Ptr → Ptr → ℤ → Ptr → Ptr → Cmd ℤ
  zkrb_call_zoo_get_children2 zh path watch strings stat = do
    args ← zkrb_thread_blocking_region ruby zkrb_gvl_zoo_get_children2 (record {
      rc = zkrb_fail;
      zh = zh;
      path = path;
      watch = watch;
      strings = strings;
      stat = stat;
    })
    pure args.rc

  unfoldable pub zkrb_gvl_zoo_wget_children2 : ZooWgetChildren2Args → Cmd ZooWgetChildren2Args
  zkrb_gvl_zoo_wget_children2 a = do
    rc ← client.zoo_wget_children2 a.zh a.path a.watcher a.watcher_ctx a.strings a.stat
    pure (record a { rc = rc })

  unfoldable pub zkrb_call_zoo_wget_children2 : Ptr → Ptr → Ptr → Ptr → Ptr → Ptr → Cmd ℤ
  zkrb_call_zoo_wget_children2 zh path watcher watcher_ctx strings stat = do
    args ← zkrb_thread_blocking_region ruby zkrb_gvl_zoo_wget_children2 (record {
      rc = zkrb_fail;
      zh = zh;
      path = path;
      watcher = watcher;
      watcher_ctx = watcher_ctx;
      strings = strings;
      stat = stat;
    })
    pure args.rc

  unfoldable pub zkrb_gvl_zoo_get_acl : ZooGetAclArgs → Cmd ZooGetAclArgs
  zkrb_gvl_zoo_get_acl a = do
    rc ← client.zoo_get_acl a.zh a.path a.acl a.stat
    pure (record a { rc = rc })

  unfoldable pub zkrb_call_zoo_get_acl : Ptr → Ptr → Ptr → Ptr → Cmd ℤ
  zkrb_call_zoo_get_acl zh path acl stat = do
    args ←
        zkrb_thread_blocking_region ruby zkrb_gvl_zoo_get_acl
          (record { rc = zkrb_fail; zh = zh; path = path; acl = acl; stat = stat })
    pure args.rc

  unfoldable pub zkrb_gvl_zoo_set_acl : ZooSetAclArgs → Cmd ZooSetAclArgs
  zkrb_gvl_zoo_set_acl a = do
    rc ← client.zoo_set_acl a.zh a.path a.version a.acl
    pure (record a { rc = rc })

  unfoldable pub zkrb_call_zoo_set_acl : Ptr → Ptr → ℤ → Ptr → Cmd ℤ
  zkrb_call_zoo_set_acl zh path version acl = do
    args ←
        zkrb_thread_blocking_region ruby zkrb_gvl_zoo_set_acl
          (record { rc = zkrb_fail; zh = zh; path = path; version = version; acl = acl })
    pure args.rc
