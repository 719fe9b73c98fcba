-- ===== src/Wrapper/SyncListsCalls.antt =====
-- Each wrapper of these synchronous calls returns what the client returns.
use zookeeper_fork.Base.{ℤ, ◌≡◌, refl}
use zookeeper_fork.Structs.{Ptr}
use zookeeper_fork.Memory.{World}
use zookeeper_fork.Wrapper.{Client}
use zookeeper_fork.Wrapper.Region.{Interpreter, Runs, amid}
use zookeeper_fork.Wrapper.Once.{region-lem}
use zookeeper_fork.Wrapper.SyncLists.{
  zkrb_gvl_zoo_get_children, zkrb_call_zoo_get_children, zkrb_gvl_zoo_wget_children,
  zkrb_call_zoo_wget_children, zkrb_gvl_zoo_get_children2, zkrb_call_zoo_get_children2,
  zkrb_gvl_zoo_wget_children2, zkrb_call_zoo_wget_children2, zkrb_gvl_zoo_get_acl,
  zkrb_call_zoo_get_acl, zkrb_gvl_zoo_set_acl, zkrb_call_zoo_set_acl,
}
use zookeeper_fork.Wrapper.SyncArgs.{
  ZooGetChildrenArgs, ZooWgetChildrenArgs, ZooGetChildren2Args, ZooWgetChildren2Args, ZooGetAclArgs,
  ZooSetAclArgs,
}

module _ (client : Client) {ruby : Interpreter} (runs : Runs ruby) where
  pub zoo_get_children-once :
      (zh : Ptr) (path : Ptr) (watch : ℤ) (strings : Ptr) (w : World)
      → zkrb_call_zoo_get_children client ruby zh path watch strings w
        ≡ amid runs (client.zoo_get_children zh path watch strings) w
  unfolding zkrb_call_zoo_get_children zkrb_gvl_zoo_get_children
  zoo_get_children-once zh path watch strings =
      region-lem (λ (a : ZooGetChildrenArgs). a.rc)
        (λ x. record { rc = x; zh = zh; path = path; watch = watch; strings = strings }) (λ x. refl)
        runs (zkrb_gvl_zoo_get_children client ruby) _
        (client.zoo_get_children zh path watch strings) (λ w. refl)

  pub zoo_wget_children-once :
      (zh : Ptr) (path : Ptr) (watcher : Ptr) (watcher_ctx : Ptr) (strings : Ptr) (w : World)
      → zkrb_call_zoo_wget_children client ruby zh path watcher watcher_ctx strings w
        ≡ amid runs (client.zoo_wget_children zh path watcher watcher_ctx strings) w
  unfolding zkrb_call_zoo_wget_children zkrb_gvl_zoo_wget_children
  zoo_wget_children-once zh path watcher watcher_ctx strings =
      region-lem (λ (a : ZooWgetChildrenArgs). a.rc)
        (λ x. record {
          rc = x;
          zh = zh;
          path = path;
          watcher = watcher;
          watcher_ctx = watcher_ctx;
          strings = strings;
        })
        (λ x. refl) runs (zkrb_gvl_zoo_wget_children client ruby) _
        (client.zoo_wget_children zh path watcher watcher_ctx strings) (λ w. refl)

  pub zoo_get_children2-once :
      (zh : Ptr) (path : Ptr) (watch : ℤ) (strings : Ptr) (stat : Ptr) (w : World)
      → zkrb_call_zoo_get_children2 client ruby zh path watch strings stat w
        ≡ amid runs (client.zoo_get_children2 zh path watch strings stat) w
  unfolding zkrb_call_zoo_get_children2 zkrb_gvl_zoo_get_children2
  zoo_get_children2-once zh path watch strings stat =
      region-lem (λ (a : ZooGetChildren2Args). a.rc)
        (λ x. record {
          rc = x;
          zh = zh;
          path = path;
          watch = watch;
          strings = strings;
          stat = stat;
        })
        (λ x. refl) runs (zkrb_gvl_zoo_get_children2 client ruby) _
        (client.zoo_get_children2 zh path watch strings stat) (λ w. refl)

  pub zoo_wget_children2-once :
      (zh : Ptr) (path : Ptr) (watcher : Ptr) (watcher_ctx : Ptr) (strings : Ptr) (stat : Ptr)
      (w : World)
      → zkrb_call_zoo_wget_children2 client ruby zh path watcher watcher_ctx strings stat w
        ≡ amid runs (client.zoo_wget_children2 zh path watcher watcher_ctx strings stat) w
  unfolding zkrb_call_zoo_wget_children2 zkrb_gvl_zoo_wget_children2
  zoo_wget_children2-once zh path watcher watcher_ctx strings stat =
      region-lem (λ (a : ZooWgetChildren2Args). a.rc)
        (λ x. record {
          rc = x;
          zh = zh;
          path = path;
          watcher = watcher;
          watcher_ctx = watcher_ctx;
          strings = strings;
          stat = stat;
        })
        (λ x. refl) runs (zkrb_gvl_zoo_wget_children2 client ruby) _
        (client.zoo_wget_children2 zh path watcher watcher_ctx strings stat) (λ w. refl)

  pub zoo_get_acl-once :
      (zh : Ptr) (path : Ptr) (acl : Ptr) (stat : Ptr) (w : World)
      → zkrb_call_zoo_get_acl client ruby zh path acl stat w
        ≡ amid runs (client.zoo_get_acl zh path acl stat) w
  unfolding zkrb_call_zoo_get_acl zkrb_gvl_zoo_get_acl
  zoo_get_acl-once zh path acl stat =
      region-lem (λ (a : ZooGetAclArgs). a.rc)
        (λ x. record { rc = x; zh = zh; path = path; acl = acl; stat = stat }) (λ x. refl) runs
        (zkrb_gvl_zoo_get_acl client ruby) _ (client.zoo_get_acl zh path acl stat) (λ w. refl)

  pub zoo_set_acl-once :
      (zh : Ptr) (path : Ptr) (version : ℤ) (acl : Ptr) (w : World)
      → zkrb_call_zoo_set_acl client ruby zh path version acl w
        ≡ amid runs (client.zoo_set_acl zh path version acl) w
  unfolding zkrb_call_zoo_set_acl zkrb_gvl_zoo_set_acl
  zoo_set_acl-once zh path version acl =
      region-lem (λ (a : ZooSetAclArgs). a.rc)
        (λ x. record { rc = x; zh = zh; path = path; version = version; acl = acl }) (λ x. refl)
        runs (zkrb_gvl_zoo_set_acl client ruby) _ (client.zoo_set_acl zh path version acl)
        (λ w. refl)
