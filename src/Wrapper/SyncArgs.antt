-- ===== src/Wrapper/SyncArgs.antt =====
-- The argument structures of ext/zkrb_wrapper.h for the synchronous calls. `rc` is the result.
use zookeeper_fork.Base.{ℤ}
use zookeeper_fork.Structs.{Ptr}

pub record ZooCreateArgs : Type 0 where
  pub zh : Ptr
  pub path : Ptr
  pub value : Ptr
  pub valuelen : ℤ
  pub acl : Ptr
  pub flags : ℤ
  pub path_buffer : Ptr
  pub path_buffer_len : ℤ
  pub rc : ℤ

pub record ZooDeleteArgs : Type 0 where
  pub zh : Ptr
  pub path : Ptr
  pub version : ℤ
  pub rc : ℤ

pub record ZooExistsArgs : Type 0 where
  pub zh : Ptr
  pub path : Ptr
  pub watch : ℤ
  pub stat : Ptr
  pub rc : ℤ

pub record ZooWexistsArgs : Type 0 where
  pub zh : Ptr
  pub path : Ptr
  pub watcher : Ptr
  pub watcher_ctx : Ptr
  pub stat : Ptr
  pub rc : ℤ

pub record ZooGetArgs : Type 0 where
  pub zh : Ptr
  pub path : Ptr
  pub watch : ℤ
  pub buffer : Ptr
  pub buffer_len : Ptr
  pub stat : Ptr
  pub rc : ℤ

pub record ZooWgetArgs : Type 0 where
  pub zh : Ptr
  pub path : Ptr
  pub watcher : Ptr
  pub watcher_ctx : Ptr
  pub buffer : Ptr
  pub buffer_len : Ptr
  pub stat : Ptr
  pub rc : ℤ

pub record ZooSetArgs : Type 0 where
  pub zh : Ptr
  pub path : Ptr
  pub buffer : Ptr
  pub buflen : ℤ
  pub version : ℤ
  pub rc : ℤ

pub record ZooSet2Args : Type 0 where
  pub zh : Ptr
  pub path : Ptr
  pub buffer : Ptr
  pub buflen : ℤ
  pub version : ℤ
  pub stat : Ptr
  pub rc : ℤ

pub record ZooGetChildrenArgs : Type 0 where
  pub zh : Ptr
  pub path : Ptr
  pub watch : ℤ
  pub strings : Ptr
  pub rc : ℤ

pub record ZooWgetChildrenArgs : Type 0 where
  pub zh : Ptr
  pub path : Ptr
  pub watcher : Ptr
  pub watcher_ctx : Ptr
  pub strings : Ptr
  pub rc : ℤ

pub record ZooGetChildren2Args : Type 0 where
  pub zh : Ptr
  pub path : Ptr
  pub watch : ℤ
  pub strings : Ptr
  pub stat : Ptr
  pub rc : ℤ

pub record ZooWgetChildren2Args : Type 0 where
  pub zh : Ptr
  pub path : Ptr
  pub watcher : Ptr
  pub watcher_ctx : Ptr
  pub strings : Ptr
  pub stat : Ptr
  pub rc : ℤ

pub record ZooGetAclArgs : Type 0 where
  pub zh : Ptr
  pub path : Ptr
  pub acl : Ptr
  pub stat : Ptr
  pub rc : ℤ

pub record ZooSetAclArgs : Type 0 where
  pub zh : Ptr
  pub path : Ptr
  pub version : ℤ
  pub acl : Ptr
  pub rc : ℤ
