-- ===== src/Requests/Synced.antt =====
-- Synchronous requests: what they return, and that they leave memory as they found it.
use zookeeper_fork.Base.{
  ℕ, suc, ◌≡◌, ◌≢◌, refl, ap, ◌∙◌, false, Option, some, none, [], ◌∷◌, ℤ, pos, negsuc, arith, eqb_ℤ,
  take, length,
}
use zookeeper_fork.Structs.{Ptr, null, Bytes, Stat, raw, int, bytes, stat}
use zookeeper_fork.Memory.{
  World, Cmd, ok, Fresh, alloca, leave, malloc, free, load, load_as, write_cell,
}
use zookeeper_fork.Ruby.{num, str, array, item, no_items, rb_ary_push}
use zookeeper_fork.Translate.{zkrb_stat_to_rarray}
use zookeeper_fork.Translate.Show.{or_nil}
use zookeeper_fork.Event.{stat_value}
use zookeeper_fork.Queue.Frame.{allocated}
use zookeeper_fork.Extension.{Handle, Answer, value}
use zookeeper_fork.Wrapper.{Client}
use zookeeper_fork.Wrapper.Region.{Interpreter}
use zookeeper_fork.Wrapper.SyncNodes.{zkrb_call_zoo_get, zkrb_call_zoo_exists}
use zookeeper_fork.Requests.{
  Arg, qfalse, string, Functions, CallType, sync, zok, truthy, standard_preamble,
}
use zookeeper_fork.Requests.Reads.{
  exists_call, get_call, exists_body, get_body, method_exists, method_get, max_znode_size,
  data_value,
}
use zookeeper_fork.Requests.Guard.{number, number-is_integer, null-no}
use zookeeper_fork.Requests.Quiet.{Quiet}

-- What the client leaves in the buffer, the length and the Stat: the data and its length, or the
-- length -1 if the node has none.
abbrev pub filled : World → Ptr → Ptr → Ptr → Option Bytes → Stat → World
filled u buf len st (some b) s =
    write_cell (write_cell (write_cell u buf (some (bytes b))) len (some (int (pos (length b))))) st
      (some (stat s))
filled u buf len st none s =
    write_cell (write_cell u len (some (int (negsuc 0)))) st (some (stat s))

-- `zoo_get` finds this data and this Stat, writes them where it is told to, and no other thread
-- touches memory meanwhile.
pub record Gives (client : Client) (ruby : Interpreter) (zh p : Ptr) (o : Option Bytes) (s : Stat)
    : Type 0 where
  pub run :
      (u : World) (buf len st : Ptr)
      → u.cell buf ≡ some raw
      → u.cell len ≡ some (int (pos max_znode_size))
      → u.cell st ≡ some raw
      → zkrb_call_zoo_get client ruby zh p (pos 0) buf len st u ≡ ok zok (filled u buf len st o s)

-- A call that is accepted and synchronous.
pub record Direct (h : Handle) (reqid async_v : Arg) (n : ℤ) (w : World) : Type 0 where
  pub is_number : number reqid ≡ some n
  pub zh_open : h.zh ≢ null
  pub is_sync : truthy async_v ≡ false
  pub fresh : Fresh w
  pub memory : (m : ℕ) → w.oom m ≡ false

take-length : (b : Bytes) → take (length b) b ≡ b
take-length [] = refl
take-length (x ∷ b) = ap (◌∷◌ x) (take-length b)

module _ {h : Handle} {reqid async_v : Arg} {n : ℤ} {w : World}
    (t : Direct h reqid async_v n w) where
  pub asks :
      (p : Ptr) (len : ℕ) (k : Ptr → Ptr → Ptr → CallType → Cmd Answer)
      → standard_preamble h reqid (string p len) async_v qfalse k w ≡ k p null null sync w
  unfolding standard_preamble
  asks p len k = rw (number-is_integer reqid t.is_number, null-no t.zh_open, t.is_sync) refl

  abbrev with_buffer : World
  with_buffer =
      let u = record (write_cell w (suc w.brk) (some raw)) { brk = suc w.brk } in
      allocated (allocated u (int (pos max_znode_size))) raw

  abbrev after_call : Option Bytes → Stat → World
  after_call o s = filled with_buffer (suc w.brk) (suc (suc w.brk)) (suc (suc (suc w.brk))) o s

  abbrev after_get : Option Bytes → Stat → World
  after_get o s =
      let b = suc w.brk in
      write_cell (write_cell (write_cell (after_call o s) (suc (suc b)) none) (suc b) none) b none

  after_get-Quiet : (o : Option Bytes) (s : Stat) → Quiet w (after_get o s)
  after_get-Quiet none s = record {
    same = λ a. ground (arith, t.fresh a);
    more = omega arith;
    memory = λ n. refl;
    system = refl;
  }
  after_get-Quiet (some b) s = record {
    same = λ a. ground (arith, t.fresh a);
    more = omega arith;
    memory = λ n. refl;
    system = refl;
  }

  module _ (client : Client) (ruby : Interpreter) (fns : Functions) (p : Ptr) (s : Stat) where
    get-called :
        (o : Option Bytes)
        → Gives client ruby h.zh p o s
        → zkrb_call_zoo_get client ruby h.zh p
            (pos 0)
            (suc w.brk)
            (suc (suc w.brk))
            (suc (suc (suc w.brk)))
            with_buffer
          ≡ ok zok (after_call o s)
    get-called o g =
        g.run with_buffer (suc w.brk) (suc (suc w.brk)) (suc (suc (suc w.brk))) (ground arith)
          (ground arith) (ground arith)

    get-run :
        (o : Option Bytes)
        → Gives client ruby h.zh p o s
        → get_body client ruby fns h p null null sync w
          ≡ ok
              (value (
                array
                  (item (num zok) (item (or_nil str o) (item (zkrb_stat_to_rarray s) no_items)))))
              (after_get o s)
    unfolding get_body get_call alloca leave rb_ary_push malloc free load load_as data_value
        stat_value
    get-run none g = ground (arith, t.memory w.brk, get-called none g)
    get-run (some b) g = ground (arith, t.memory w.brk, get-called (some b) g, take-length b)

    -- A synchronous `get` that the client answers returns the result 0, the data, or nil if the node
    -- has none, and the Stat; and memory is as it was before, the buffer and the locals included.
    -- The handle is open, the request a number, and memory does not run out.
    pub get-Quiet :
        (len : ℕ) (o : Option Bytes)
        → Gives client ruby h.zh p o s
        → (v : World) × (method_get client ruby fns h reqid (string p len) async_v qfalse w
            ≡ ok
                (value (
                  array
                    (item (num zok) (item (or_nil str o) (item (zkrb_stat_to_rarray s) no_items)))))
                v)
          × Quiet w v
    unfolding method_get
    get-Quiet len o g =
        (after_get o s, asks p len (get_body client ruby fns h) ∙ get-run o g, after_get-Quiet o s)

    abbrev after_exists : World
    after_exists =
        write_cell (write_cell (allocated w raw) (suc w.brk) (some (stat s))) (suc w.brk) none

    exists-run :
        ((u : World) (st : Ptr)
          → zkrb_call_zoo_exists client ruby h.zh p (pos 0) st u
            ≡ ok zok (write_cell u st (some (stat s))))
        → exists_body client ruby fns h p null null sync w
          ≡ ok (value (array (item (num zok) (item (zkrb_stat_to_rarray s) no_items)))) after_exists
    unfolding exists_body exists_call alloca leave rb_ary_push load load_as stat_value
    exists-run g = ground (arith, g (allocated w raw) (suc w.brk))

    -- `exists` likewise, with the Stat alone.
    pub exists-Quiet :
        (len : ℕ)
        → ((u : World) (st : Ptr)
            → zkrb_call_zoo_exists client ruby h.zh p (pos 0) st u
              ≡ ok zok (write_cell u st (some (stat s))))
        → (v : World) × (method_exists client ruby fns h reqid (string p len) async_v qfalse w
            ≡ ok (value (array (item (num zok) (item (zkrb_stat_to_rarray s) no_items)))) v)
          × Quiet w v
    unfolding method_exists
    exists-Quiet len g = (
      after_exists,
      asks p len (exists_body client ruby fns h) ∙ exists-run g,
      record {
        same = λ a. ground (arith, t.fresh a);
        more = omega arith;
        memory = λ m. refl;
        system = refl;
      },
    )

  module _ (client : Client) (ruby : Interpreter) (fns : Functions) (p : Ptr) (rc : ℤ) where
    abbrev after_denied : World
    after_denied =
        let b = suc w.brk in
        write_cell (write_cell (write_cell with_buffer (suc (suc b)) none) (suc b) none) b none

    denied-run :
        eqb_ℤ rc zok ≡ false
        → ((u : World) (buf len st : Ptr)
            → zkrb_call_zoo_get client ruby h.zh p (pos 0) buf len st u ≡ ok rc u)
        → get_body client ruby fns h p null null sync w
          ≡ ok (value (array (item (num rc) no_items))) after_denied
    unfolding get_body get_call alloca leave rb_ary_push malloc free
    denied-run n g =
        ground (
          arith,
          t.memory w.brk,
          g with_buffer (suc w.brk) (suc (suc w.brk)) (suc (suc (suc w.brk))),
        )

    -- A synchronous `get` whose call fails returns the result alone, reads neither the buffer nor the
    -- Stat, and leaves memory as it was. The handle is open, the request a number, memory does not
    -- run out, and the failing call writes nothing.
    pub get-denied :
        (len : ℕ)
        → eqb_ℤ rc zok ≡ false
        → ((u : World) (buf m st : Ptr)
            → zkrb_call_zoo_get client ruby h.zh p (pos 0) buf m st u ≡ ok rc u)
        → (v : World) × (method_get client ruby fns h reqid (string p len) async_v qfalse w
            ≡ ok (value (array (item (num rc) no_items))) v)
          × Quiet w v
    unfolding method_get
    get-denied len n g = (
      after_denied,
      asks p len (get_body client ruby fns h) ∙ denied-run n g,
      record {
        same = λ a. ground (arith, t.fresh a);
        more = omega arith;
        memory = λ m. refl;
        system = refl;
      },
    )
