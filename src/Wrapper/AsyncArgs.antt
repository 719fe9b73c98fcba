-- ===== src/Wrapper/AsyncArgs.antt =====
-- The argument structures of ext/zkrb_wrapper.h for the asynchronous calls. `rc` is the result.
use zookeeper_fork.Base.{ℤ}
use zookeeper_fork.Structs.{Ptr}

pub record ZooRecvTimeoutArgs : Type 0 where
  pub zh : Ptr
  pub rc : ℤ

pub record ZooStateArgs : Type 0 where
  pub zh : Ptr
  pub rc : ℤ

pub record ZooAcreateArgs : Type 0 where
  pub zh : Ptr
  pub path : Ptr
  pub value : Ptr
  pub valuelen : ℤ
  pub acl : Ptr
  pub flags : ℤ
  pub completion : Ptr
  pub context : Ptr
  pub rc : ℤ

pub record ZooAdeleteArgs : Type 0 where
  pub zh : Ptr
  pub path : Ptr
  pub version : ℤ
  pub completion : Ptr
  pub context : Ptr
  pub rc : ℤ

pub record ZooAexistsArgs : Type 0 where
  pub zh : Ptr
  pub path : Ptr
  pub watch : ℤ
  pub completion : Ptr
  pub context : Ptr
  pub rc : ℤ

pub record ZooAwexistsArgs : Type 0 where
  pub zh : Ptr
  pub path : Ptr
  pub watcher : Ptr
  pub watcher_ctx : Ptr
  pub completion : Ptr
  pub context : Ptr
  pub rc : ℤ

pub record ZooAgetArgs : Type 0 where
  pub zh : Ptr
  pub path : Ptr
  pub watch : ℤ
  pub completion : Ptr
  pub context : Ptr
  pub rc : ℤ

pub record ZooAwgetArgs : Type 0 where
  pub zh : Ptr
  pub path : Ptr
  pub watcher : Ptr
  pub watcher_ctx : Ptr
  pub completion : Ptr
  pub context : Ptr
  pub rc : ℤ

pub record ZooAsetArgs : Type 0 where
  pub zh : Ptr
  pub path : Ptr
  pub buffer : Ptr
  pub buflen : ℤ
  pub version : ℤ
  pub completion : Ptr
  pub context : Ptr
  pub rc : ℤ

pub record ZooAgetChildrenArgs : Type 0 where
  pub zh : Ptr
  pub path : Ptr
  pub watch : ℤ
  pub completion : Ptr
  pub context : Ptr
  pub rc : ℤ

pub record ZooAwgetChildrenArgs : Type 0 where
  pub zh : Ptr
  pub path : Ptr
  pub watcher : Ptr
  pub watcher_ctx : Ptr
  pub completion : Ptr
  pub context : Ptr
  pub rc : ℤ

pub record ZooAgetChildren2Args : Type 0 where
  pub zh : Ptr
  pub path : Ptr
  pub watch : ℤ
  pub completion : Ptr
  pub context : Ptr
  pub rc : ℤ

pub record ZooAwgetChildren2Args : Type 0 where
  pub zh : Ptr
  pub path : Ptr
  pub watcher : Ptr
  pub watcher_ctx : Ptr
  pub completion : Ptr
  pub context : Ptr
  pub rc : ℤ

pub record ZooAsyncArgs : Type 0 where
  pub zh : Ptr
  pub path : Ptr
  pub completion : Ptr
  pub context : Ptr
  pub rc : ℤ

pub record ZooAgetAclArgs : Type 0 where
  pub zh : Ptr
  pub path : Ptr
  pub completion : Ptr
  pub context : Ptr
  pub rc : ℤ

pub record ZooAsetAclArgs : Type 0 where
  pub zh : Ptr
  pub path : Ptr
  pub version : ℤ
  pub acl : Ptr
  pub completion : Ptr
  pub context : Ptr
  pub rc : ℤ

pub record ZooAddAuthArgs : Type 0 where
  pub zh : Ptr
  pub scheme : Ptr
  pub cert : Ptr
  pub cert_len : ℤ
  pub completion : Ptr
  pub context : Ptr
  pub rc : ℤ
