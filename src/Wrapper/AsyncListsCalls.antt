-- ===== src/Wrapper/AsyncListsCalls.antt =====
-- Each wrapper of these asynchronous calls returns what the client returns.
use zookeeper_fork.Base.{ℤ, ◌≡◌, refl}
use zookeeper_fork.Structs.{Ptr}
use zookeeper_fork.Memory.{World}
use zookeeper_fork.Wrapper.{Client}
use zookeeper_fork.Wrapper.Region.{Interpreter, Runs, amid}
use zookeeper_fork.Wrapper.Once.{region-lem}
use zookeeper_fork.Wrapper.AsyncLists.{
  zkrb_gvl_zoo_aget_children, zkrb_call_zoo_aget_children, zkrb_gvl_zoo_awget_children,
  zkrb_call_zoo_awget_children, zkrb_gvl_zoo_aget_children2, zkrb_call_zoo_aget_children2,
  zkrb_gvl_zoo_awget_children2, zkrb_call_zoo_awget_children2, zkrb_gvl_zoo_async,
  zkrb_call_zoo_async, zkrb_gvl_zoo_aget_acl, zkrb_call_zoo_aget_acl, zkrb_gvl_zoo_aset_acl,
  zkrb_call_zoo_aset_acl, zkrb_gvl_zoo_add_auth, zkrb_call_zoo_add_auth,
}
use zookeeper_fork.Wrapper.AsyncArgs.{
  ZooAgetChildrenArgs, ZooAwgetChildrenArgs, ZooAgetChildren2Args, ZooAwgetChildren2Args,
  ZooAsyncArgs, ZooAgetAclArgs, ZooAsetAclArgs, ZooAddAuthArgs,
}

module _ (client : Client) {ruby : Interpreter} (runs : Runs ruby) where
  pub zoo_aget_children-once :
      (zh : Ptr) (path : Ptr) (watch : ℤ) (completion : Ptr) (context : Ptr) (w : World)
      → zkrb_call_zoo_aget_children client ruby zh path watch completion context w
        ≡ amid runs (client.zoo_aget_children zh path watch completion context) w
  unfolding zkrb_call_zoo_aget_children zkrb_gvl_zoo_aget_children
  zoo_aget_children-once zh path watch completion context =
      region-lem (λ (a : ZooAgetChildrenArgs). a.rc)
        (λ x. record {
          rc = x;
          zh = zh;
          path = path;
          watch = watch;
          completion = completion;
          context = context;
        })
        (λ x. refl) runs (zkrb_gvl_zoo_aget_children client ruby) _
        (client.zoo_aget_children zh path watch completion context) (λ w. refl)

  pub zoo_awget_children-once :
      (zh : Ptr) (path : Ptr) (watcher : Ptr) (watcher_ctx : Ptr) (completion : Ptr) (context : Ptr)
      (w : World)
      → zkrb_call_zoo_awget_children client ruby zh path watcher watcher_ctx completion context w
        ≡ amid runs (client.zoo_awget_children zh path watcher watcher_ctx completion context) w
  unfolding zkrb_call_zoo_awget_children zkrb_gvl_zoo_awget_children
  zoo_awget_children-once zh path watcher watcher_ctx completion context =
      region-lem (λ (a : ZooAwgetChildrenArgs). a.rc)
        (λ x. record {
          rc = x;
          zh = zh;
          path = path;
          watcher = watcher;
          watcher_ctx = watcher_ctx;
          completion = completion;
          context = context;
        })
        (λ x. refl) runs (zkrb_gvl_zoo_awget_children client ruby) _
        (client.zoo_awget_children zh path watcher watcher_ctx completion context) (λ w. refl)

  pub zoo_aget_children2-once :
      (zh : Ptr) (path : Ptr) (watch : ℤ) (completion : Ptr) (context : Ptr) (w : World)
      → zkrb_call_zoo_aget_children2 client ruby zh path watch completion context w
        ≡ amid runs (client.zoo_aget_children2 zh path watch completion context) w
  unfolding zkrb_call_zoo_aget_children2 zkrb_gvl_zoo_aget_children2
  zoo_aget_children2-once zh path watch completion context =
      region-lem (λ (a : ZooAgetChildren2Args). a.rc)
        (λ x. record {
          rc = x;
          zh = zh;
          path = path;
          watch = watch;
          completion = completion;
          context = context;
        })
        (λ x. refl) runs (zkrb_gvl_zoo_aget_children2 client ruby) _
        (client.zoo_aget_children2 zh path watch completion context) (λ w. refl)

  pub zoo_awget_children2-once :
      (zh : Ptr) (path : Ptr) (watcher : Ptr) (watcher_ctx : Ptr) (completion : Ptr) (context : Ptr)
      (w : World)
      → zkrb_call_zoo_awget_children2 client ruby zh path watcher watcher_ctx completion context w
        ≡ amid runs (client.zoo_awget_children2 zh path watcher watcher_ctx completion context) w
  unfolding zkrb_call_zoo_awget_children2 zkrb_gvl_zoo_awget_children2
  zoo_awget_children2-once zh path watcher watcher_ctx completion context =
      region-lem (λ (a : ZooAwgetChildren2Args). a.rc)
        (λ x. record {
          rc = x;
          zh = zh;
          path = path;
          watcher = watcher;
          watcher_ctx = watcher_ctx;
          completion = completion;
          context = context;
        })
        (λ x. refl) runs (zkrb_gvl_zoo_awget_children2 client ruby) _
        (client.zoo_awget_children2 zh path watcher watcher_ctx completion context) (λ w. refl)

  pub zoo_async-once :
      (zh : Ptr) (path : Ptr) (completion : Ptr) (context : Ptr) (w : World)
      → zkrb_call_zoo_async client ruby zh path completion context w
        ≡ amid runs (client.zoo_async zh path completion context) w
  unfolding zkrb_call_zoo_async zkrb_gvl_zoo_async
  zoo_async-once zh path completion context =
      region-lem (λ (a : ZooAsyncArgs). a.rc)
        (λ x. record { rc = x; zh = zh; path = path; completion = completion; context = context })
        (λ x. refl) runs (zkrb_gvl_zoo_async client ruby) _
        (client.zoo_async zh path completion context) (λ w. refl)

  pub zoo_aget_acl-once :
      (zh : Ptr) (path : Ptr) (completion : Ptr) (context : Ptr) (w : World)
      → zkrb_call_zoo_aget_acl client ruby zh path completion context w
        ≡ amid runs (client.zoo_aget_acl zh path completion context) w
  unfolding zkrb_call_zoo_aget_acl zkrb_gvl_zoo_aget_acl
  zoo_aget_acl-once zh path completion context =
      region-lem (λ (a : ZooAgetAclArgs). a.rc)
        (λ x. record { rc = x; zh = zh; path = path; completion = completion; context = context })
        (λ x. refl) runs (zkrb_gvl_zoo_aget_acl client ruby) _
        (client.zoo_aget_acl zh path completion context) (λ w. refl)

  pub zoo_aset_acl-once :
      (zh : Ptr) (path : Ptr) (version : ℤ) (acl : Ptr) (completion : Ptr) (context : Ptr)
      (w : World)
      → zkrb_call_zoo_aset_acl client ruby zh path version acl completion context w
        ≡ amid runs (client.zoo_aset_acl zh path version acl completion context) w
  unfolding zkrb_call_zoo_aset_acl zkrb_gvl_zoo_aset_acl
  zoo_aset_acl-once zh path version acl completion context =
      region-lem (λ (a : ZooAsetAclArgs). a.rc)
        (λ x. record {
          rc = x;
          zh = zh;
          path = path;
          version = version;
          acl = acl;
          completion = completion;
          context = context;
        })
        (λ x. refl) runs (zkrb_gvl_zoo_aset_acl client ruby) _
        (client.zoo_aset_acl zh path version acl completion context) (λ w. refl)

  pub zoo_add_auth-once :
      (zh : Ptr) (scheme : Ptr) (cert : Ptr) (cert_len : ℤ) (completion : Ptr) (context : Ptr)
      (w : World)
      → zkrb_call_zoo_add_auth client ruby zh scheme cert cert_len completion context w
        ≡ amid runs (client.zoo_add_auth zh scheme cert cert_len completion context) w
  unfolding zkrb_call_zoo_add_auth zkrb_gvl_zoo_add_auth
  zoo_add_auth-once zh scheme cert cert_len completion context =
      region-lem (λ (a : ZooAddAuthArgs). a.rc)
        (λ x. record {
          rc = x;
          zh = zh;
          scheme = scheme;
          cert = cert;
          cert_len = cert_len;
          completion = completion;
          context = context;
        })
        (λ x. refl) runs (zkrb_gvl_zoo_add_auth client ruby) _
        (client.zoo_add_auth zh scheme cert cert_len completion context) (λ w. refl)
