-- ===== src/Wrapper/AsyncNodesCalls.antt =====
-- Each wrapper of these asynchronous calls returns what the client returns.
use zookeeper_fork.Base.{ℤ, ◌≡◌, refl}
use zookeeper_fork.Structs.{Ptr}
use zookeeper_fork.Memory.{World}
use zookeeper_fork.Wrapper.{Client}
use zookeeper_fork.Wrapper.Region.{Interpreter, Runs, amid}
use zookeeper_fork.Wrapper.Once.{region-lem}
use zookeeper_fork.Wrapper.AsyncNodes.{
  zkrb_gvl_zoo_recv_timeout, zkrb_call_zoo_recv_timeout, zkrb_gvl_zoo_state, zkrb_call_zoo_state,
  zkrb_gvl_zoo_acreate, zkrb_call_zoo_acreate, zkrb_gvl_zoo_adelete, zkrb_call_zoo_adelete,
  zkrb_gvl_zoo_aexists, zkrb_call_zoo_aexists, zkrb_gvl_zoo_awexists, zkrb_call_zoo_awexists,
  zkrb_gvl_zoo_aget, zkrb_call_zoo_aget, zkrb_gvl_zoo_awget, zkrb_call_zoo_awget, zkrb_gvl_zoo_aset,
  zkrb_call_zoo_aset,
}
use zookeeper_fork.Wrapper.AsyncArgs.{
  ZooRecvTimeoutArgs, ZooStateArgs, ZooAcreateArgs, ZooAdeleteArgs, ZooAexistsArgs, ZooAwexistsArgs,
  ZooAgetArgs, ZooAwgetArgs, ZooAsetArgs,
}

module _ (client : Client) {ruby : Interpreter} (runs : Runs ruby) where
  pub zoo_recv_timeout-once :
      (zh : Ptr) (w : World)
      → zkrb_call_zoo_recv_timeout client ruby zh w ≡ amid runs (client.zoo_recv_timeout zh) w
  unfolding zkrb_call_zoo_recv_timeout zkrb_gvl_zoo_recv_timeout
  zoo_recv_timeout-once zh =
      region-lem (λ (a : ZooRecvTimeoutArgs). a.rc) (λ x. record { rc = x; zh = zh }) (λ x. refl)
        runs (zkrb_gvl_zoo_recv_timeout client ruby) _ (client.zoo_recv_timeout zh) (λ w. refl)

  pub zoo_state-once :
      (zh : Ptr) (w : World)
      → zkrb_call_zoo_state client ruby zh w ≡ amid runs (client.zoo_state zh) w
  unfolding zkrb_call_zoo_state zkrb_gvl_zoo_state
  zoo_state-once zh =
      region-lem (λ (a : ZooStateArgs). a.rc) (λ x. record { rc = x; zh = zh }) (λ x. refl) runs
        (zkrb_gvl_zoo_state client ruby) _ (client.zoo_state zh) (λ w. refl)

  pub zoo_acreate-once :
      (zh : Ptr) (path : Ptr) (value : Ptr) (valuelen : ℤ) (acl : Ptr) (flags : ℤ)
      (completion : Ptr) (context : Ptr) (w : World)
      → zkrb_call_zoo_acreate client ruby zh path value valuelen acl flags completion context w
        ≡ amid runs (client.zoo_acreate zh path value valuelen acl flags completion context) w
  unfolding zkrb_call_zoo_acreate zkrb_gvl_zoo_acreate
  zoo_acreate-once zh path value valuelen acl flags completion context =
      region-lem (λ (a : ZooAcreateArgs). a.rc)
        (λ x. record {
          rc = x;
          zh = zh;
          path = path;
          value = value;
          valuelen = valuelen;
          acl = acl;
          flags = flags;
          completion = completion;
          context = context;
        })
        (λ x. refl) runs (zkrb_gvl_zoo_acreate client ruby) _
        (client.zoo_acreate zh path value valuelen acl flags completion context) (λ w. refl)

  pub zoo_adelete-once :
      (zh : Ptr) (path : Ptr) (version : ℤ) (completion : Ptr) (context : Ptr) (w : World)
      → zkrb_call_zoo_adelete client ruby zh path version completion context w
        ≡ amid runs (client.zoo_adelete zh path version completion context) w
  unfolding zkrb_call_zoo_adelete zkrb_gvl_zoo_adelete
  zoo_adelete-once zh path version completion context =
      region-lem (λ (a : ZooAdeleteArgs). a.rc)
        (λ x. record {
          rc = x;
          zh = zh;
          path = path;
          version = version;
          completion = completion;
          context = context;
        })
        (λ x. refl) runs (zkrb_gvl_zoo_adelete client ruby) _
        (client.zoo_adelete zh path version completion context) (λ w. refl)

  pub zoo_aexists-once :
      (zh : Ptr) (path : Ptr) (watch : ℤ) (completion : Ptr) (context : Ptr) (w : World)
      → zkrb_call_zoo_aexists client ruby zh path watch completion context w
        ≡ amid runs (client.zoo_aexists zh path watch completion context) w
  unfolding zkrb_call_zoo_aexists zkrb_gvl_zoo_aexists
  zoo_aexists-once zh path watch completion context =
      region-lem (λ (a : ZooAexistsArgs). a.rc)
        (λ x. record {
          rc = x;
          zh = zh;
          path = path;
          watch = watch;
          completion = completion;
          context = context;
        })
        (λ x. refl) runs (zkrb_gvl_zoo_aexists client ruby) _
        (client.zoo_aexists zh path watch completion context) (λ w. refl)

  pub zoo_awexists-once :
      (zh : Ptr) (path : Ptr) (watcher : Ptr) (watcher_ctx : Ptr) (completion : Ptr) (context : Ptr)
      (w : World)
      → zkrb_call_zoo_awexists client ruby zh path watcher watcher_ctx completion context w
        ≡ amid runs (client.zoo_awexists zh path watcher watcher_ctx completion context) w
  unfolding zkrb_call_zoo_awexists zkrb_gvl_zoo_awexists
  zoo_awexists-once zh path watcher watcher_ctx completion context =
      region-lem (λ (a : ZooAwexistsArgs). a.rc)
        (λ x. record {
          rc = x;
          zh = zh;
          path = path;
          watcher = watcher;
          watcher_ctx = watcher_ctx;
          completion = completion;
          context = context;
        })
        (λ x. refl) runs (zkrb_gvl_zoo_awexists client ruby) _
        (client.zoo_awexists zh path watcher watcher_ctx completion context) (λ w. refl)

  pub zoo_aget-once :
      (zh : Ptr) (path : Ptr) (watch : ℤ) (completion : Ptr) (context : Ptr) (w : World)
      → zkrb_call_zoo_aget client ruby zh path watch completion context w
        ≡ amid runs (client.zoo_aget zh path watch completion context) w
  unfolding zkrb_call_zoo_aget zkrb_gvl_zoo_aget
  zoo_aget-once zh path watch completion context =
      region-lem (λ (a : ZooAgetArgs). a.rc)
        (λ x. record {
          rc = x;
          zh = zh;
          path = path;
          watch = watch;
          completion = completion;
          context = context;
        })
        (λ x. refl) runs (zkrb_gvl_zoo_aget client ruby) _
        (client.zoo_aget zh path watch completion context) (λ w. refl)

  pub zoo_awget-once :
      (zh : Ptr) (path : Ptr) (watcher : Ptr) (watcher_ctx : Ptr) (completion : Ptr) (context : Ptr)
      (w : World)
      → zkrb_call_zoo_awget client ruby zh path watcher watcher_ctx completion context w
        ≡ amid runs (client.zoo_awget zh path watcher watcher_ctx completion context) w
  unfolding zkrb_call_zoo_awget zkrb_gvl_zoo_awget
  zoo_awget-once zh path watcher watcher_ctx completion context =
      region-lem (λ (a : ZooAwgetArgs). a.rc)
        (λ x. record {
          rc = x;
          zh = zh;
          path = path;
          watcher = watcher;
          watcher_ctx = watcher_ctx;
          completion = completion;
          context = context;
        })
        (λ x. refl) runs (zkrb_gvl_zoo_awget client ruby) _
        (client.zoo_awget zh path watcher watcher_ctx completion context) (λ w. refl)

  pub zoo_aset-once :
      (zh : Ptr) (path : Ptr) (buffer : Ptr) (buflen : ℤ) (version : ℤ) (completion : Ptr)
      (context : Ptr) (w : World)
      → zkrb_call_zoo_aset client ruby zh path buffer buflen version completion context w
        ≡ amid runs (client.zoo_aset zh path buffer buflen version completion context) w
  unfolding zkrb_call_zoo_aset zkrb_gvl_zoo_aset
  zoo_aset-once zh path buffer buflen version completion context =
      region-lem (λ (a : ZooAsetArgs). a.rc)
        (λ x. record {
          rc = x;
          zh = zh;
          path = path;
          buffer = buffer;
          buflen = buflen;
          version = version;
          completion = completion;
          context = context;
        })
        (λ x. refl) runs (zkrb_gvl_zoo_aset client ruby) _
        (client.zoo_aset zh path buffer buflen version completion context) (λ w. refl)
