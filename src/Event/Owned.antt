-- ===== src/Event/Owned.antt =====
-- What the events of each kind own, but those of vectors.
use zookeeper_fork.Base.{◌≡◌, refl, true, Option, none, some, List, [], ◌∷◌, ℤ, arith}
use zookeeper_fork.Structs.{
  Ptr, Bytes, Stat, zkrb_data, zkrb_stat, zkrb_void, zkrb_string, zkrb_watcher, data_completion,
  stat_completion, string_completion, watcher_completion,
}
use zookeeper_fork.Memory.{World, Holds}
use zookeeper_fork.Ruby.{hash, num, str, field, no_fields}
use zookeeper_fork.Translate.{Jute, zkrb_stat_to_rarray}
use zookeeper_fork.Translate.Show.{BytesAt, StatAt, or_nil}
use zookeeper_fork.Event.Show.{
  EventAt, data_len, reply, void-shows, stat-shows, data-shows, string-shows, watcher-shows,
}
use zookeeper_fork.Event.Release.{
  event_free-data, event_free-stat, event_free-string, event_free-watcher, event_free-void,
}
use zookeeper_fork.Event.Leak.{mem}
use zookeeper_fork.Event.Parcels.{
  IsBox, Parcel, Holds-kept, BytesAt-kept, StatAt-kept, Holds-IsBox, BytesAt-IsBox, StatAt-IsBox,
  Each-mem,
}

in_one : (e : Ptr) → mem e (e ∷ []) ≡ true
in_one e = ground arith

in_three :
    (r c e : Ptr)
    → (mem r (r ∷ c ∷ e ∷ []) ≡ true)
      × (mem c (r ∷ c ∷ e ∷ []) ≡ true)
      × (mem e (r ∷ c ∷ e ∷ []) ≡ true)
in_three r c e = (ground arith, ground arith, ground arith)

next_first : (p : Ptr) (ps : List Ptr) → mem p (p ∷ ps) ≡ true
next_first p ps = ground arith

next_mem : (a p : Ptr) (ps : List Ptr) → mem a ps ≡ true → mem a (p ∷ ps) ≡ true
next_mem a p ps m = ground arith

-- The events that a callback makes.
module _ (jute : Jute) {w : World} {e c : Ptr} {req rc : ℤ} where
  pub void-Parcel :
      EventAt w e req (some rc) zkrb_void c → Parcel jute w e (reply req rc no_fields) (e ∷ [])
  void-Parcel ev = record {
    boxes = Each-mem (IsBox w) (e ∷ []) (λ n. Holds-IsBox ev refl refl refl, tt);
    shown = λ u k. void-shows (Holds-kept k (in_one e) ev);
    freed = λ u k. event_free-void jute (Holds-kept k (in_one e) ev);
  }

  pub stat-Parcel :
      {r : Ptr} (o : Option Stat)
      → EventAt w e req (some rc) zkrb_stat c
      → Holds w c (stat_completion (record { stat = r }))
      → StatAt w r o
      → Parcel jute w e
          (reply req rc (field "stat" (or_nil zkrb_stat_to_rarray o) no_fields))
          (r ∷ c ∷ e ∷ [])
  stat-Parcel {r} o ev at hr =
      let ps = r ∷ c ∷ e ∷ [] in
      let (mr, mc, me) = in_three r c e in
      record {
        boxes = Each-mem (IsBox w) ps (
          StatAt-IsBox r o hr,
          (λ n. Holds-IsBox at refl refl refl, (λ n. Holds-IsBox ev refl refl refl, tt)),
        );
        shown =
            λ u k. stat-shows o (Holds-kept k me ev) (Holds-kept k mc at) (StatAt-kept k r o mr hr);
        freed = λ u k.
            event_free-stat jute o (Holds-kept k me ev) (Holds-kept k mc at)
              (StatAt-kept k r o mr hr);
      }

  pub string-Parcel :
      {r : Ptr} (o : Option Bytes)
      → EventAt w e req (some rc) zkrb_string c
      → Holds w c (string_completion (record { value = r }))
      → BytesAt w r o
      → Parcel jute w e (reply req rc (field "string" (or_nil str o) no_fields)) (r ∷ c ∷ e ∷ [])
  string-Parcel {r} o ev at hr =
      let ps = r ∷ c ∷ e ∷ [] in
      let (mr, mc, me) = in_three r c e in
      record {
        boxes = Each-mem (IsBox w) ps (
          BytesAt-IsBox r o hr,
          (λ n. Holds-IsBox at refl refl refl, (λ n. Holds-IsBox ev refl refl refl, tt)),
        );
        shown = λ u k.
            string-shows o (Holds-kept k me ev) (Holds-kept k mc at) (BytesAt-kept k r o mr hr);
        freed = λ u k.
            event_free-string jute o (Holds-kept k me ev) (Holds-kept k mc at)
              (BytesAt-kept k r o mr hr);
      }

  pub data-Parcel :
      {p r : Ptr} (d : Option Bytes) (o : Option Stat)
      → EventAt w e req (some rc) zkrb_data c
      → Holds w c (data_completion (record { value = p; data_len = data_len d; stat = r }))
      → BytesAt w p d
      → StatAt w r o
      → Parcel jute w e
          (reply req rc
            (field "data" (or_nil str d) (field "stat" (or_nil zkrb_stat_to_rarray o) no_fields)))
          (p ∷ r ∷ c ∷ e ∷ [])
  data-Parcel {p} {r} d o ev at hp hr =
      let ps = p ∷ r ∷ c ∷ e ∷ [] in
      let (r3, c3, e3) = in_three r c e in
      let mp = next_first p (r ∷ c ∷ e ∷ []) in
      let mr = next_mem r p (r ∷ c ∷ e ∷ []) r3 in
      let mc = next_mem c p (r ∷ c ∷ e ∷ []) c3 in
      let me = next_mem e p (r ∷ c ∷ e ∷ []) e3 in
      record {
        boxes = Each-mem (IsBox w) ps (
          BytesAt-IsBox p d hp,
          (
            StatAt-IsBox r o hr,
            (λ n. Holds-IsBox at refl refl refl, (λ n. Holds-IsBox ev refl refl refl, tt)),
          ),
        );
        shown = λ u k.
            data-shows d o (Holds-kept k me ev) (Holds-kept k mc at) (BytesAt-kept k p d mp hp)
              (StatAt-kept k r o mr hr);
        freed = λ u k.
            event_free-data jute d o (Holds-kept k me ev) (Holds-kept k mc at)
              (BytesAt-kept k p d mp hp) (StatAt-kept k r o mr hr);
      }

module _ (jute : Jute) {w : World} {e c : Ptr} {req : ℤ} where
  pub watcher-Parcel :
      {r : Ptr} {type state : ℤ} (path : Bytes)
      → EventAt w e req none zkrb_watcher c
      → Holds w c (watcher_completion (record { type = type; state = state; path = r }))
      → BytesAt w r (some path)
      → Parcel jute w e
          (hash (
            field "req_id" (num req) (
              field "type"
                (num type)
                (field "state" (num state) (field "path" (str path) no_fields)))))
          (r ∷ c ∷ e ∷ [])
  watcher-Parcel {r} path ev at hr =
      let ps = r ∷ c ∷ e ∷ [] in
      let (mr, mc, me) = in_three r c e in
      record {
        boxes = Each-mem (IsBox w) ps (
          BytesAt-IsBox r (some path) hr,
          (λ n. Holds-IsBox at refl refl refl, (λ n. Holds-IsBox ev refl refl refl, tt)),
        );
        shown = λ u k.
            watcher-shows path (Holds-kept k me ev) (Holds-kept k mc at)
              (BytesAt-kept k r (some path) mr hr);
        freed = λ u k.
            event_free-watcher jute (some path) (Holds-kept k me ev) (Holds-kept k mc at)
              (BytesAt-kept k r (some path) mr hr);
      }
