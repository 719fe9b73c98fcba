-- ===== src/Wrapper/SyncNodesCalls.antt =====
-- Each wrapper of these synchronous calls returns what the client returns.
use zookeeper_fork.Base.{ℤ, ◌≡◌, refl}
use zookeeper_fork.Structs.{Ptr}
use zookeeper_fork.Memory.{World}
use zookeeper_fork.Wrapper.{Client}
use zookeeper_fork.Wrapper.Region.{Interpreter, Runs, amid}
use zookeeper_fork.Wrapper.Once.{region-lem}
use zookeeper_fork.Wrapper.SyncNodes.{
  zkrb_gvl_zoo_create, zkrb_call_zoo_create, zkrb_gvl_zoo_delete, zkrb_call_zoo_delete,
  zkrb_gvl_zoo_exists, zkrb_call_zoo_exists, zkrb_gvl_zoo_wexists, zkrb_call_zoo_wexists,
  zkrb_gvl_zoo_get, zkrb_call_zoo_get, zkrb_gvl_zoo_wget, zkrb_call_zoo_wget, zkrb_gvl_zoo_set,
  zkrb_call_zoo_set, zkrb_gvl_zoo_set2, zkrb_call_zoo_set2,
}
use zookeeper_fork.Wrapper.SyncArgs.{
  ZooCreateArgs, ZooDeleteArgs, ZooExistsArgs, ZooWexistsArgs, ZooGetArgs, ZooWgetArgs, ZooSetArgs,
  ZooSet2Args,
}

module _ (client : Client) {ruby : Interpreter} (runs : Runs ruby) where
  pub zoo_create-once :
      (zh : Ptr) (path : Ptr) (value : Ptr) (valuelen : ℤ) (acl : Ptr) (flags : ℤ)
      (path_buffer : Ptr) (path_buffer_len : ℤ) (w : World)
      → zkrb_call_zoo_create client ruby zh path value valuelen acl flags path_buffer
          path_buffer_len w
        ≡ amid runs
            (client.zoo_create zh path value valuelen acl flags path_buffer path_buffer_len)
            w
  unfolding zkrb_call_zoo_create zkrb_gvl_zoo_create
  zoo_create-once zh path value valuelen acl flags path_buffer path_buffer_len =
      region-lem (λ (a : ZooCreateArgs). a.rc)
        (λ x. record {
          rc = x;
          zh = zh;
          path = path;
          value = value;
          valuelen = valuelen;
          acl = acl;
          flags = flags;
          path_buffer = path_buffer;
          path_buffer_len = path_buffer_len;
        })
        (λ x. refl) runs (zkrb_gvl_zoo_create client ruby) _
        (client.zoo_create zh path value valuelen acl flags path_buffer path_buffer_len) (λ w. refl)

  pub zoo_delete-once :
      (zh : Ptr) (path : Ptr) (version : ℤ) (w : World)
      → zkrb_call_zoo_delete client ruby zh path version w
        ≡ amid runs (client.zoo_delete zh path version) w
  unfolding zkrb_call_zoo_delete zkrb_gvl_zoo_delete
  zoo_delete-once zh path version =
      region-lem (λ (a : ZooDeleteArgs). a.rc)
        (λ x. record { rc = x; zh = zh; path = path; version = version }) (λ x. refl) runs
        (zkrb_gvl_zoo_delete client ruby) _ (client.zoo_delete zh path version) (λ w. refl)

  pub zoo_exists-once :
      (zh : Ptr) (path : Ptr) (watch : ℤ) (stat : Ptr) (w : World)
      → zkrb_call_zoo_exists client ruby zh path watch stat w
        ≡ amid runs (client.zoo_exists zh path watch stat) w
  unfolding zkrb_call_zoo_exists zkrb_gvl_zoo_exists
  zoo_exists-once zh path watch stat =
      region-lem (λ (a : ZooExistsArgs). a.rc)
        (λ x. record { rc = x; zh = zh; path = path; watch = watch; stat = stat }) (λ x. refl) runs
        (zkrb_gvl_zoo_exists client ruby) _ (client.zoo_exists zh path watch stat) (λ w. refl)

  pub zoo_wexists-once :
      (zh : Ptr) (path : Ptr) (watcher : Ptr) (watcher_ctx : Ptr) (stat : Ptr) (w : World)
      → zkrb_call_zoo_wexists client ruby zh path watcher watcher_ctx stat w
        ≡ amid runs (client.zoo_wexists zh path watcher watcher_ctx stat) w
  unfolding zkrb_call_zoo_wexists zkrb_gvl_zoo_wexists
  zoo_wexists-once zh path watcher watcher_ctx stat =
      region-lem (λ (a : ZooWexistsArgs). a.rc)
        (λ x. record {
          rc = x;
          zh = zh;
          path = path;
          watcher = watcher;
          watcher_ctx = watcher_ctx;
          stat = stat;
        })
        (λ x. refl) runs (zkrb_gvl_zoo_wexists client ruby) _
        (client.zoo_wexists zh path watcher watcher_ctx stat) (λ w. refl)

  pub zoo_get-once :
      (zh : Ptr) (path : Ptr) (watch : ℤ) (buffer : Ptr) (buffer_len : Ptr) (stat : Ptr) (w : World)
      → zkrb_call_zoo_get client ruby zh path watch buffer buffer_len stat w
        ≡ amid runs (client.zoo_get zh path watch buffer buffer_len stat) w
  unfolding zkrb_call_zoo_get zkrb_gvl_zoo_get
  zoo_get-once zh path watch buffer buffer_len stat =
      region-lem (λ (a : ZooGetArgs). a.rc)
        (λ x. record {
          rc = x;
          zh = zh;
          path = path;
          watch = watch;
          buffer = buffer;
          buffer_len = buffer_len;
          stat = stat;
        })
        (λ x. refl) runs (zkrb_gvl_zoo_get client ruby) _
        (client.zoo_get zh path watch buffer buffer_len stat) (λ w. refl)

  pub zoo_wget-once :
      (zh : Ptr) (path : Ptr) (watcher : Ptr) (watcher_ctx : Ptr) (buffer : Ptr) (buffer_len : Ptr)
      (stat : Ptr) (w : World)
      → zkrb_call_zoo_wget client ruby zh path watcher watcher_ctx buffer buffer_len stat w
        ≡ amid runs (client.zoo_wget zh path watcher watcher_ctx buffer buffer_len stat) w
  unfolding zkrb_call_zoo_wget zkrb_gvl_zoo_wget
  zoo_wget-once zh path watcher watcher_ctx buffer buffer_len stat =
      region-lem (λ (a : ZooWgetArgs). a.rc)
        (λ x. record {
          rc = x;
          zh = zh;
          path = path;
          watcher = watcher;
          watcher_ctx = watcher_ctx;
          buffer = buffer;
          buffer_len = buffer_len;
          stat = stat;
        })
        (λ x. refl) runs (zkrb_gvl_zoo_wget client ruby) _
        (client.zoo_wget zh path watcher watcher_ctx buffer buffer_len stat) (λ w. refl)

  pub zoo_set-once :
      (zh : Ptr) (path : Ptr) (buffer : Ptr) (buflen : ℤ) (version : ℤ) (w : World)
      → zkrb_call_zoo_set client ruby zh path buffer buflen version w
        ≡ amid runs (client.zoo_set zh path buffer buflen version) w
  unfolding zkrb_call_zoo_set zkrb_gvl_zoo_set
  zoo_set-once zh path buffer buflen version =
      region-lem (λ (a : ZooSetArgs). a.rc)
        (λ x. record {
          rc = x;
          zh = zh;
          path = path;
          buffer = buffer;
          buflen = buflen;
          version = version;
        })
        (λ x. refl) runs (zkrb_gvl_zoo_set client ruby) _
        (client.zoo_set zh path buffer buflen version) (λ w. refl)

  pub zoo_set2-once :
      (zh : Ptr) (path : Ptr) (buffer : Ptr) (buflen : ℤ) (version : ℤ) (stat : Ptr) (w : World)
      → zkrb_call_zoo_set2 client ruby zh path buffer buflen version stat w
        ≡ amid runs (client.zoo_set2 zh path buffer buflen version stat) w
  unfolding zkrb_call_zoo_set2 zkrb_gvl_zoo_set2
  zoo_set2-once zh path buffer buflen version stat =
      region-lem (λ (a : ZooSet2Args). a.rc)
        (λ x. record {
          rc = x;
          zh = zh;
          path = path;
          buffer = buffer;
          buflen = buflen;
          version = version;
          stat = stat;
        })
        (λ x. refl) runs (zkrb_gvl_zoo_set2 client ruby) _
        (client.zoo_set2 zh path buffer buflen version stat) (λ w. refl)
