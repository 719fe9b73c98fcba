-- ===== src/Event/Release.antt =====
-- What `zkrb_event_free` gives back of the events without vectors.
use zookeeper_fork.Base.{
  ℕ, ◌≡◌, ◌≢◌, refl, Option, none, some, List, [], ◌∷◌, ℤ, arith, ◌==◌, if◌then◌else◌, inl, inr,
  ◌⊎◌,
}
use zookeeper_fork.Structs
use zookeeper_fork.Structs.{
  Ptr, null, Bytes, Stat, Cell, EventType, event, zkrb_data, zkrb_stat, zkrb_void, zkrb_string,
  zkrb_strings, zkrb_strings_stat, zkrb_watcher, data_completion, stat_completion,
  string_completion, strings_completion, strings_stat_completion, watcher_completion, bytes,
  strings, vector, as_vector, as_strings, as_bytes, as_stat, as_event, as_data_completion,
  as_stat_completion, as_string_completion, as_watcher_completion, as_strings_completion,
}
use zookeeper_fork.Memory.{World, ok, free, Holds, write_cell, ◌>>◌}
use zookeeper_fork.Translate.{Jute}
use zookeeper_fork.Translate.Show.{BytesAt, StatAt, load_as-ok}
use zookeeper_fork.Event.{zkrb_event_free}
use zookeeper_fork.Event.Show.{EventAt}

-- The world without the block at `p`; NULL is none.
unfoldable pub dropped : World → Ptr → World
dropped w p = if p == null then w else write_cell w p none

abbrev pub without : World → List Ptr → World
without w [] = w
without w (p ∷ ps) = without (dropped w p) ps

module _ (w : World) (p : Ptr) where
  free-null : p ≡ null → free p w ≡ ok tt (dropped w p)
  unfolding free dropped
  free-null h = ground arith

  pub free-Holds : {c : Cell} → Holds w p c → free p w ≡ ok tt (dropped w p)
  unfolding free dropped
  free-Holds h = ground arith

  free-BytesAt : (d : Option Bytes) → BytesAt w p d → free p w ≡ ok tt (dropped w p)
  free-BytesAt none h = free-null h
  free-BytesAt (some b) h = free-Holds h

  free-StatAt : (d : Option Stat) → StatAt w p d → free p w ≡ ok tt (dropped w p)
  free-StatAt none h = free-null h
  free-StatAt (some b) h = free-Holds h

  -- What is not the freed block stays.
  pub spared : {a : Ptr} {c : Cell} → Holds w a c → ((p ≡ null) ⊎ (p ≢ a)) → Holds (dropped w p) a c
  unfolding dropped
  spared h (inl e) = record { ne_null = h.ne_null; there = ground arith }
  spared h (inr ne) = record { ne_null = h.ne_null; there = ground arith }

  pub after_bytes :
      (d : Option Bytes) {a : Ptr} {c : Cell}
      → BytesAt w p d
      → Holds w a c
      → as_bytes c ≡ none
      → Holds (dropped w p) a c
  after_bytes none h g n = spared g (inl h)
  after_bytes (some b) h g n = spared g (inr (λ e. ground arith))

  after_stat :
      (d : Option Stat) {a : Ptr} {c : Cell}
      → StatAt w p d
      → Holds w a c
      → as_stat c ≡ none
      → Holds (dropped w p) a c
  after_stat none h g n = spared g (inl h)
  after_stat (some b) h g n = spared g (inr (λ e. ground arith))

  StatAt-after_bytes :
      (d : Option Bytes) (r : Ptr) (o : Option Stat)
      → BytesAt w p d
      → StatAt w r o
      → StatAt (dropped w p) r o
  StatAt-after_bytes d r none h g = g
  StatAt-after_bytes d r (some s) h g = after_bytes d h g refl

-- A block of one kind and one of another.
pub after_kind :
    (w : World) (p a : Ptr) {k c : Cell}
    → Holds w p k
    → Holds w a c
    → k ≢ c
    → Holds (dropped w p) a c
after_kind w p a h g ne = spared w p g (inr (λ e. ne (ground arith)))

-- The completion and the event, freed last.
pub last_two :
    (w : World) (c e : Ptr) {k : Cell} {v : Structs.Event}
    → Holds w c k
    → Holds w e (event v)
    → as_event k ≡ none
    → (free c >> free e) w ≡ ok tt (without w (c ∷ e ∷ []))
last_two w c e h g n =
    rw (free-Holds w c h, free-Holds (dropped w c) e (spared w c g (inr (λ q. ground arith)))) refl

module _ (jute : Jute) {w : World} {e c : Ptr} {req : ℤ} {rc : Option ℤ} where
  -- `zkrb_event_free` of a data event, whose completion, data and Stat stand in memory or are NULL,
  -- ends: the data, the Stat, the completion and the event are given back, and nothing else.
  pub event_free-data :
      {p r : Ptr} {n : ℕ} (d : Option Bytes) (o : Option Stat)
      → EventAt w e req rc zkrb_data c
      → Holds w c (data_completion (record { value = p; data_len = n; stat = r }))
      → BytesAt w p d
      → StatAt w r o
      → zkrb_event_free jute e w ≡ ok tt (without w (p ∷ r ∷ c ∷ e ∷ []))
  unfolding zkrb_event_free
  event_free-data {p} {r} d o ev at hp hr =
      let hr' = StatAt-after_bytes w p d r o hp hr in
      rw
        (
          load_as-ok as_event ev refl,
          load_as-ok as_data_completion at refl,
          free-BytesAt w p d hp,
          free-StatAt (dropped w p) r o hr',
        )
        (last_two (dropped (dropped w p) r) c e
          (after_stat (dropped w p) r o hr' (after_bytes w p d hp at refl) refl)
          (after_stat (dropped w p) r o hr' (after_bytes w p d hp ev refl) refl) refl)

  pub event_free-stat :
      {r : Ptr} (o : Option Stat)
      → EventAt w e req rc zkrb_stat c
      → Holds w c (stat_completion (record { stat = r }))
      → StatAt w r o
      → zkrb_event_free jute e w ≡ ok tt (without w (r ∷ c ∷ e ∷ []))
  unfolding zkrb_event_free
  event_free-stat {r} o ev at hr =
      rw (load_as-ok as_event ev refl, load_as-ok as_stat_completion at refl, free-StatAt w r o hr)
        (last_two (dropped w r) c e (after_stat w r o hr at refl) (after_stat w r o hr ev refl)
          refl)

  pub event_free-string :
      {r : Ptr} (o : Option Bytes)
      → EventAt w e req rc zkrb_string c
      → Holds w c (string_completion (record { value = r }))
      → BytesAt w r o
      → zkrb_event_free jute e w ≡ ok tt (without w (r ∷ c ∷ e ∷ []))
  unfolding zkrb_event_free
  event_free-string {r} o ev at hr =
      rw
        (
          load_as-ok as_event ev refl,
          load_as-ok as_string_completion at refl,
          free-BytesAt w r o hr,
        )
        (last_two (dropped w r) c e (after_bytes w r o hr at refl) (after_bytes w r o hr ev refl)
          refl)

  pub event_free-watcher :
      {r : Ptr} {type state : ℤ} (o : Option Bytes)
      → EventAt w e req rc zkrb_watcher c
      → Holds w c (watcher_completion (record { type = type; state = state; path = r }))
      → BytesAt w r o
      → zkrb_event_free jute e w ≡ ok tt (without w (r ∷ c ∷ e ∷ []))
  unfolding zkrb_event_free
  event_free-watcher {r} o ev at hr =
      rw
        (
          load_as-ok as_event ev refl,
          load_as-ok as_watcher_completion at refl,
          free-BytesAt w r o hr,
        )
        (last_two (dropped w r) c e (after_bytes w r o hr at refl) (after_bytes w r o hr ev refl)
          refl)

  pub event_free-void :
      EventAt w e req rc zkrb_void c → zkrb_event_free jute e w ≡ ok tt (without w (e ∷ []))
  unfolding zkrb_event_free
  event_free-void ev = rw (load_as-ok as_event ev refl, free-Holds w e ev) refl
