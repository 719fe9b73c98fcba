-- ===== src/Callbacks/Lists.antt =====
-- What the completions of children and of ACLs deliver.
use zookeeper_fork.Base.{refl, Option, List, ℤ}
use zookeeper_fork.Structs.{
  Ptr, null, Bytes, Stat, Queue, zkrb_strings, zkrb_strings_stat, zkrb_acl, strings_completion,
  strings_stat_completion, acl_completion,
}
use zookeeper_fork.Memory.{World}
use zookeeper_fork.Ruby.{field, no_fields}
use zookeeper_fork.Translate.{Jute, AclValue, zkrb_stat_to_rarray}
use zookeeper_fork.Translate.Show.{or_nil, strings_value, acls_value}
use zookeeper_fork.Translate.Frame.{StatAt-frame, StringsAt-frame, AclsAt-frame}
use zookeeper_fork.Event.Show.{reply, strings-shows, strings_stat-shows, acl-shows}
use zookeeper_fork.Queue.Chain.{Nodes}
use zookeeper_fork.Callbacks.{zkrb_strings_callback, zkrb_strings_stat_callback, zkrb_acl_callback}
use zookeeper_fork.Callbacks.Finish.{Ready}
use zookeeper_fork.Callbacks.Copies.{Extends-KeepsData, new-Copied, clone_stat-Copied}
use zookeeper_fork.Callbacks.Arrays.{IsJute}
use zookeeper_fork.Callbacks.Vectors.{clone_strings-Copied}
use zookeeper_fork.Callbacks.AclVectors.{clone_acls-Copied}
use zookeeper_fork.Callbacks.Delivery.{Delivered, lasting, completed, Holds-kept}

module _ (jute : Jute) (lawful : IsJute jute) {w : World} {ctx q : Ptr} {req : ℤ} {s : Queue}
    {xs : Nodes} (r : Ready w ctx req q s xs) (rc : ℤ) where
  -- If the context and its queue are well-formed, memory does not run out and the pipe has room,
  -- and the client's vectors are allocated as documented, `zkrb_strings_callback` delivers an event
  -- that Ruby sees with the context's request, the return code and the strings in order, or nil.
  pub strings_callback-Delivered :
      (l : Option (List Bytes))
      → Delivered ctx req
          (lasting req)
          q
          s
          xs
          (reply req rc (field "strings" (or_nil strings_value l) no_fields))
          (zkrb_strings_callback jute rc l ctx w)
  unfolding zkrb_strings_callback
  strings_callback-Delivered l =
      let blank = strings_completion (record { values = null }) in
      let n = new-Copied r blank in
      let c = clone_strings-Copied jute lawful n.ready l in
      rw (n.run, c.run)
        (completed c.ready rc zkrb_strings (strings_completion (record { values = c.result }))
          (Holds-kept {v = c.world} n.result blank c.kept n.at) refl refl
          λ u e ev at k. strings-shows l ev at (StringsAt-frame k c.result l c.at))

  -- If the context and its queue are well-formed, memory does not run out and the pipe has room,
  -- and the client's vectors are allocated as documented, `zkrb_strings_stat_callback` delivers an
  -- event that Ruby sees with the context's request, the return code, the strings in order, or nil,
  -- and the Stat, or nil.
  pub strings_stat_callback-Delivered :
      (l : Option (List Bytes)) (o : Option Stat)
      → Delivered ctx req
          (lasting req)
          q
          s
          xs
          (reply req rc (
            field "strings"
              (or_nil strings_value l)
              (field "stat" (or_nil zkrb_stat_to_rarray o) no_fields)))
          (zkrb_strings_stat_callback jute rc l o ctx w)
  unfolding zkrb_strings_stat_callback
  strings_stat_callback-Delivered l o =
      let blank = strings_stat_completion (record { values = null; stat = null }) in
      let n = new-Copied r blank in
      let c = clone_stat-Copied n.ready o in
      let d = clone_strings-Copied jute lawful c.ready l in
      rw (n.run, c.run, d.run)
        (completed d.ready rc zkrb_strings_stat
          (strings_stat_completion (record { values = d.result; stat = c.result }))
          (Holds-kept {v = d.world} n.result blank d.kept
            (Holds-kept {v = c.world} n.result blank c.kept n.at))
          refl refl
          λ u e ev at k.
            strings_stat-shows l o ev at (StringsAt-frame k d.result l d.at)
              (StatAt-frame k c.result o (StatAt-frame (Extends-KeepsData d.kept) c.result o c.at)))

  -- If the context and its queue are well-formed, memory does not run out and the pipe has room,
  -- and the client's vectors are allocated as documented, `zkrb_acl_callback` delivers an event that
  -- Ruby sees with the context's request, the return code, the ACLs in order, or nil, and the Stat, or
  -- nil.
  pub acl_callback-Delivered :
      (l : Option (List AclValue)) (o : Option Stat)
      → Delivered ctx req
          (lasting req)
          q
          s
          xs
          (reply req rc (
            field "acl"
              (or_nil acls_value l)
              (field "stat" (or_nil zkrb_stat_to_rarray o) no_fields)))
          (zkrb_acl_callback jute rc l o ctx w)
  unfolding zkrb_acl_callback
  acl_callback-Delivered l o =
      let blank = acl_completion (record { acl = null; stat = null }) in
      let n = new-Copied r blank in
      let c = clone_acls-Copied jute lawful n.ready l in
      let d = clone_stat-Copied c.ready o in
      rw (n.run, c.run, d.run)
        (completed d.ready rc zkrb_acl (acl_completion (record { acl = c.result; stat = d.result }))
          (Holds-kept {v = d.world} n.result blank d.kept
            (Holds-kept {v = c.world} n.result blank c.kept n.at))
          refl refl
          λ u e ev at k.
            acl-shows l o ev at
              (AclsAt-frame k c.result l (AclsAt-frame (Extends-KeepsData d.kept) c.result l c.at))
              (StatAt-frame k d.result o d.at))
