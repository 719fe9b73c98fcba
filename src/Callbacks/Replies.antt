-- ===== src/Callbacks/Replies.antt =====
-- What the completions of a Stat, of a string and of data deliver.
use zookeeper_fork.Base.{refl, Option, ℤ}
use zookeeper_fork.Structs.{
  Ptr, null, Bytes, Stat, Queue, zkrb_data, zkrb_stat, zkrb_string, data_completion,
  stat_completion, string_completion,
}
use zookeeper_fork.Memory.{World}
use zookeeper_fork.Ruby.{str, field, no_fields}
use zookeeper_fork.Translate.{zkrb_stat_to_rarray}
use zookeeper_fork.Translate.Show.{or_nil}
use zookeeper_fork.Translate.Frame.{BytesAt-frame, StatAt-frame}
use zookeeper_fork.Event.Show.{reply, stat-shows, data-shows, string-shows}
use zookeeper_fork.Queue.Chain.{Nodes}
use zookeeper_fork.Callbacks.{zkrb_stat_callback, zkrb_string_callback, zkrb_data_callback}
use zookeeper_fork.Callbacks.Finish.{Ready}
use zookeeper_fork.Callbacks.Copies.{Extends-KeepsData}
use zookeeper_fork.Callbacks.Clones.{
  new-Cloned, clone_stat-Cloned, clone_string-Cloned, clone_value-Cloned, Readable, cut,
  Grown-Holds, Grown-trans,
}
use zookeeper_fork.Callbacks.Delivery.{Delivered, lasting, completed}

module _ {w : World} {ctx q : Ptr} {req : ℤ} {s : Queue} {xs : Nodes} (r : Ready w ctx req q s xs)
    (rc : ℤ) where
  -- If the context and its queue are well-formed, memory does not run out and the pipe has room,
  -- `zkrb_stat_callback` delivers an event that Ruby sees with the context's request, the return code
  -- and the Stat, or nil.
  pub stat_callback-Delivered :
      (o : Option Stat)
      → Delivered ctx req
          (lasting req)
          q
          s
          xs
          (reply req rc (field "stat" (or_nil zkrb_stat_to_rarray o) no_fields))
          (zkrb_stat_callback rc o ctx w)
  unfolding zkrb_stat_callback
  stat_callback-Delivered o =
      let blank = stat_completion (record { stat = null }) in
      let n = new-Cloned r blank in
      let c = clone_stat-Cloned n.ready o in
      rw (n.run, c.run)
        (completed c.ready rc zkrb_stat (stat_completion (record { stat = c.result }))
          (Grown-Holds {u = c.world} c.grown n.at.0) refl refl
          λ u e ev at k. stat-shows o ev at (StatAt-frame k c.result o c.at.0))

  -- If the context and its queue are well-formed, memory does not run out and the pipe has room,
  -- `zkrb_string_callback` delivers an event that Ruby sees with the context's request, the return code
  -- and the string, or nil.
  pub string_callback-Delivered :
      (o : Option Bytes)
      → Delivered ctx req
          (lasting req)
          q
          s
          xs
          (reply req rc (field "string" (or_nil str o) no_fields))
          (zkrb_string_callback rc o ctx w)
  unfolding zkrb_string_callback
  string_callback-Delivered o =
      let blank = string_completion (record { value = null }) in
      let n = new-Cloned r blank in
      let c = clone_string-Cloned n.ready o in
      rw (n.run, c.run)
        (completed c.ready rc zkrb_string (string_completion (record { value = c.result }))
          (Grown-Holds {u = c.world} c.grown n.at.0) refl refl
          λ u e ev at k. string-shows o ev at (BytesAt-frame k c.result o c.at.0))

  -- If the context and its queue are well-formed, memory does not run out and the pipe has room,
  -- and the client has the `n` bytes that it says, `zkrb_data_callback` ends: behind the events of
  -- the queue stands one that `zkrb_event_to_ruby` turns into a hash of the context's request, the
  -- return code, the first `n` bytes of the data, or nil, and the Stat, or nil. The context is freed
  -- unless it is the session's.
  pub data_callback-Delivered :
      (b : Option Bytes) (n : ℤ) (o : Option Stat)
      → Readable b n
      → Delivered ctx req
          (lasting req)
          q
          s
          xs
          (reply req rc (
            field "data"
              (or_nil str (cut b n))
              (field "stat" (or_nil zkrb_stat_to_rarray o) no_fields)))
          (zkrb_data_callback rc b n o ctx w)
  unfolding zkrb_data_callback
  data_callback-Delivered b len o le =
      let blank = data_completion (record { value = null; data_len = 0; stat = null }) in
      let n = new-Cloned r blank in
      let c = clone_value-Cloned n.ready b len le in
      let d = clone_stat-Cloned c.ready o in
      rw (n.run, c.run, d.run)
        (completed d.ready rc zkrb_data
          (data_completion (record { value = c.result.0; data_len = c.result.1; stat = d.result }))
          (Grown-Holds {u = d.world} (Grown-trans c.grown d.grown) n.at.0) refl refl
          λ u e ev at k.
            data-shows (cut b len) o ev (rw c.at.2 at at)
              (BytesAt-frame k c.result.0 (cut b len)
                (BytesAt-frame (Extends-KeepsData d.grown.kept) c.result.0 (cut b len) c.at.0))
              (StatAt-frame k d.result o d.at.0))
