-- ===== src/Callbacks/Arrivals.antt =====
-- What the completions without vectors and the watcher bring.
use zookeeper_fork.Base.{suc, refl, Option, some, none, [], ◌∷◌, ℤ, eqb_ℤ, arith}
use zookeeper_fork.Structs.{
  Ptr, null, Bytes, Stat, Queue, Cell, zkrb_data, zkrb_stat, zkrb_void, zkrb_string, zkrb_watcher,
  data_completion, stat_completion, string_completion, watcher_completion,
}
use zookeeper_fork.Memory
use zookeeper_fork.Memory.{World, Run, ok, Holds, Fresh, Fresh-apart, new, malloc, store}
use zookeeper_fork.Ruby.{str, field, no_fields}
use zookeeper_fork.Translate.{Jute, zkrb_stat_to_rarray}
use zookeeper_fork.Translate.Show.{or_nil}
use zookeeper_fork.Translate.Frame.{BytesAt-frame, StatAt-frame}
use zookeeper_fork.Event.Show.{reply}
use zookeeper_fork.Event.Owned.{
  void-Parcel, stat-Parcel, string-Parcel, data-Parcel, watcher-Parcel,
}
use zookeeper_fork.Queue.Chain.{Nodes}
use zookeeper_fork.Callbacks.{
  zkrb_state_callback, zkrb_data_callback, zkrb_stat_callback, zkrb_string_callback,
  zkrb_void_callback, zoo_session_event,
}
use zookeeper_fork.Callbacks.Finish.{Ready, finish-run}
use zookeeper_fork.Callbacks.Copies.{Extends-KeepsData}
use zookeeper_fork.Callbacks.Clones.{Readable, cut}
use zookeeper_fork.Callbacks.Clones.{
  Grown-refl, Grown-trans, Grown-Holds, older, new-Cloned, strdup-Cloned, clone_stat-Cloned,
  clone_string-Cloned, clone_value-Cloned,
}
use zookeeper_fork.Callbacks.Delivery.{lasting, filled-Ready}
use zookeeper_fork.Callbacks.Watcher.{watched, finish_watch-run}
use zookeeper_fork.Callbacks.Arrival.{Arrived, arrived, filled-Arrived, completed-Arrived}

module _ (jute : Jute) {w : World} {ctx q : Ptr} {req : ℤ} {s : Queue} {xs : Nodes}
    (r : Ready w ctx req q s xs) where
  pub void_callback-Arrived :
      (rc : ℤ)
      → Arrived jute ctx req
          (lasting req)
          q
          s
          xs
          (reply req rc no_fields)
          w
          (zkrb_void_callback rc ctx w)
  unfolding zkrb_void_callback
  void_callback-Arrived rc =
      arrived jute r.fresh (Grown-refl w) r (lasting req) (some rc) zkrb_void null (suc w.brk ∷ [])
        (finish-run rc zkrb_void null r) (λ ev. void-Parcel jute ev) ((λ n. omega arith), tt)
        (ground arith) (λ a m e. e)

  pub stat_callback-Arrived :
      (rc : ℤ) (o : Option Stat)
      → Arrived jute ctx req
          (lasting req)
          q
          s
          xs
          (reply req rc (field "stat" (or_nil zkrb_stat_to_rarray o) no_fields))
          w
          (zkrb_stat_callback rc o ctx w)
  unfolding zkrb_stat_callback
  stat_callback-Arrived rc o =
      let blank = stat_completion (record { stat = null }) in
      let n = new-Cloned r blank in
      let c = clone_stat-Cloned n.ready o in
      rw (n.run, c.run)
        (completed-Arrived jute r.fresh (Grown-trans n.grown c.grown) c.ready
          (stat_completion (record { stat = c.result })) (Grown-Holds {u = c.world} c.grown n.at.0)
          n.at.1 refl refl (c.result ∷ []) (λ a m k e. c.at.2 a (ground arith) (n.at.2 a k e)) rc
          zkrb_stat (older c.result n.grown c.at.1, tt)
          λ x e ev h k. stat-Parcel jute o ev h (StatAt-frame k c.result o c.at.0))

  pub string_callback-Arrived :
      (rc : ℤ) (o : Option Bytes)
      → Arrived jute ctx req
          (lasting req)
          q
          s
          xs
          (reply req rc (field "string" (or_nil str o) no_fields))
          w
          (zkrb_string_callback rc o ctx w)
  unfolding zkrb_string_callback
  string_callback-Arrived rc o =
      let blank = string_completion (record { value = null }) in
      let n = new-Cloned r blank in
      let c = clone_string-Cloned n.ready o in
      rw (n.run, c.run)
        (completed-Arrived jute r.fresh (Grown-trans n.grown c.grown) c.ready
          (string_completion (record { value = c.result }))
          (Grown-Holds {u = c.world} c.grown n.at.0) n.at.1 refl refl (c.result ∷ [])
          (λ a m k e. c.at.2 a (ground arith) (n.at.2 a k e)) rc zkrb_string
          (older c.result n.grown c.at.1, tt)
          λ x e ev h k. string-Parcel jute o ev h (BytesAt-frame k c.result o c.at.0))

  pub data_callback-Arrived :
      (rc : ℤ) (b : Option Bytes) (len : ℤ) (o : Option Stat)
      → Readable b len
      → Arrived jute ctx req
          (lasting req)
          q
          s
          xs
          (reply req rc (
            field "data"
              (or_nil str (cut b len))
              (field "stat" (or_nil zkrb_stat_to_rarray o) no_fields)))
          w
          (zkrb_data_callback rc b len o ctx w)
  unfolding zkrb_data_callback
  data_callback-Arrived rc b len o le =
      let blank = data_completion (record { value = null; data_len = 0; stat = null }) in
      let n = new-Cloned r blank in
      let c = clone_value-Cloned n.ready b len le in
      let d = clone_stat-Cloned c.ready o in
      rw (n.run, c.run, d.run)
        (completed-Arrived jute r.fresh (Grown-trans n.grown (Grown-trans c.grown d.grown)) d.ready
          (data_completion (record { value = c.result.0; data_len = c.result.1; stat = d.result }))
          (Grown-Holds {u = d.world} (Grown-trans c.grown d.grown) n.at.0) n.at.1 refl refl
          (c.result.0 ∷ d.result ∷ [])
          (λ a m k e. d.at.2 a (ground arith) (c.at.3 a (ground arith) (n.at.2 a k e))) rc zkrb_data
          (
            older c.result.0 n.grown c.at.1,
            (older d.result (Grown-trans n.grown c.grown) d.at.1, tt),
          )
          λ x e ev h k.
            data-Parcel jute (cut b len) o ev (rw (← c.at.2) h)
              (BytesAt-frame k c.result.0 (cut b len)
                (BytesAt-frame (Extends-KeepsData d.grown.kept) c.result.0 (cut b len) c.at.0))
              (StatAt-frame k d.result o d.at.0))

  pub state_callback-Arrived :
      (type state : ℤ) (path : Bytes)
      → Arrived jute ctx req
          (eqb_ℤ type zoo_session_event)
          q
          s
          xs
          (watched req type state path)
          w
          (zkrb_state_callback type state (some path) ctx w)
  unfolding zkrb_state_callback
  state_callback-Arrived type state path =
      let n = new-Cloned r (at null) in
      let c = strdup-Cloned n.ready path in
      let keep = eqb_ℤ type zoo_session_event in
      let h = Grown-Holds {u = c.world} c.grown n.at.0 in
      rw (n.run, c.run, Memory.store-ok h (at c.result))
        (filled-Arrived jute r.fresh (Grown-trans n.grown c.grown) c.ready (at c.result) h n.at.1
          refl refl (c.result ∷ []) (λ a m k e. c.at.2 a (ground arith) (n.at.2 a k e)) keep none
          zkrb_watcher
          (finish_watch-run type n.result (
            filled-Ready c.ready n.result (at null) (at c.result) h refl refl keep none
              zkrb_watcher))
          (older c.result n.grown c.at.1, tt)
          λ x e ev a k. watcher-Parcel jute path ev a (BytesAt-frame k c.result (some path) c.at.0))
    where
      at : Ptr → Cell
      at p = watcher_completion (record { type = type; state = state; path = p })
