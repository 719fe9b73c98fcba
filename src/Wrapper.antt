-- ===== src/Wrapper.antt =====
-- The wrappers of ext/zkrb_wrapper.c and ext/zkrb_wrapper.h, which call the client library with the
-- interpreter's lock released. Each packs its arguments into a structure, and a function that runs
-- in `rb_thread_blocking_region` unpacks them and writes the result into it.
pub mod Region
pub mod AsyncArgs
pub mod SyncArgs
pub mod AsyncNodes
pub mod AsyncLists
pub mod SyncNodes
pub mod SyncLists
pub mod Once
pub mod AsyncNodesCalls
pub mod AsyncListsCalls
pub mod SyncNodesCalls
pub mod SyncListsCalls
pub mod Calls
use zookeeper_fork.Base.{ℤ, negsuc, Bool, if◌then◌else◌}
use zookeeper_fork.Structs.{Ptr}
use zookeeper_fork.Memory.{Cmd}

-- ZKRB_FAIL
abbrev pub zkrb_fail : ℤ
zkrb_fail = negsuc 0

-- The functions of the client library, as commands. A pointer to a function is a pointer.
pub record Client : Type 0 where
  pub zoo_recv_timeout : Ptr → Cmd ℤ
  pub zoo_state : Ptr → Cmd ℤ
  pub zoo_acreate : Ptr → Ptr → Ptr → ℤ → Ptr → ℤ → Ptr → Ptr → Cmd ℤ
  pub zoo_adelete : Ptr → Ptr → ℤ → Ptr → Ptr → Cmd ℤ
  pub zoo_aexists : Ptr → Ptr → ℤ → Ptr → Ptr → Cmd ℤ
  pub zoo_awexists : Ptr → Ptr → Ptr → Ptr → Ptr → Ptr → Cmd ℤ
  pub zoo_aget : Ptr → Ptr → ℤ → Ptr → Ptr → Cmd ℤ
  pub zoo_awget : Ptr → Ptr → Ptr → Ptr → Ptr → Ptr → Cmd ℤ
  pub zoo_aset : Ptr → Ptr → Ptr → ℤ → ℤ → Ptr → Ptr → Cmd ℤ
  pub zoo_aget_children : Ptr → Ptr → ℤ → Ptr → Ptr → Cmd ℤ
  pub zoo_awget_children : Ptr → Ptr → Ptr → Ptr → Ptr → Ptr → Cmd ℤ
  pub zoo_aget_children2 : Ptr → Ptr → ℤ → Ptr → Ptr → Cmd ℤ
  pub zoo_awget_children2 : Ptr → Ptr → Ptr → Ptr → Ptr → Ptr → Cmd ℤ
  pub zoo_async : Ptr → Ptr → Ptr → Ptr → Cmd ℤ
  pub zoo_aget_acl : Ptr → Ptr → Ptr → Ptr → Cmd ℤ
  pub zoo_aset_acl : Ptr → Ptr → ℤ → Ptr → Ptr → Ptr → Cmd ℤ
  pub zoo_add_auth : Ptr → Ptr → Ptr → ℤ → Ptr → Ptr → Cmd ℤ
  pub zoo_create : Ptr → Ptr → Ptr → ℤ → Ptr → ℤ → Ptr → ℤ → Cmd ℤ
  pub zoo_delete : Ptr → Ptr → ℤ → Cmd ℤ
  pub zoo_exists : Ptr → Ptr → ℤ → Ptr → Cmd ℤ
  pub zoo_wexists : Ptr → Ptr → Ptr → Ptr → Ptr → Cmd ℤ
  pub zoo_get : Ptr → Ptr → ℤ → Ptr → Ptr → Ptr → Cmd ℤ
  pub zoo_wget : Ptr → Ptr → Ptr → Ptr → Ptr → Ptr → Ptr → Cmd ℤ
  pub zoo_set : Ptr → Ptr → Ptr → ℤ → ℤ → Cmd ℤ
  pub zoo_set2 : Ptr → Ptr → Ptr → ℤ → ℤ → Ptr → Cmd ℤ
  pub zoo_get_children : Ptr → Ptr → ℤ → Ptr → Cmd ℤ
  pub zoo_wget_children : Ptr → Ptr → Ptr → Ptr → Ptr → Cmd ℤ
  pub zoo_get_children2 : Ptr → Ptr → ℤ → Ptr → Ptr → Cmd ℤ
  pub zoo_wget_children2 : Ptr → Ptr → Ptr → Ptr → Ptr → Ptr → Cmd ℤ
  pub zoo_get_acl : Ptr → Ptr → Ptr → Ptr → Cmd ℤ
  pub zoo_set_acl : Ptr → Ptr → ℤ → Ptr → Cmd ℤ
