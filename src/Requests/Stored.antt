-- ===== src/Requests/Stored.antt =====
-- Synchronous requests that write: what they return, and that they leave memory as they found it.
use zookeeper_fork.Base.{ℕ, ◌≡◌, some, ℤ, pos}
use zookeeper_fork.Structs.{Ptr, null, Bytes, Stat, raw, bytes, stat}
use zookeeper_fork.Memory.{World, ok, write_cell}
use zookeeper_fork.Ruby.{num, str, array, item, no_items}
use zookeeper_fork.Translate.{Jute, zkrb_stat_to_rarray}
use zookeeper_fork.Extension.{Handle, value}
use zookeeper_fork.Wrapper.{Client}
use zookeeper_fork.Wrapper.Region.{Interpreter}
use zookeeper_fork.Wrapper.SyncNodes.{
  zkrb_call_zoo_create, zkrb_call_zoo_delete, zkrb_call_zoo_set2,
}
use zookeeper_fork.Requests.{Arg, qnil, fixnum, string, Functions, zok}
use zookeeper_fork.Requests.Quiet.{Quiet}
use zookeeper_fork.Requests.Synced.{Direct}
use zookeeper_fork.Requests.Writes.{method_create, method_delete, method_set}

-- The client does what it is asked for the node at `p`: it deletes it, stores `l` bytes from `b` in it,
-- or creates it with them under the name `name`. It writes only where it is told to.
pub record Obeys (client : Client) (ruby : Interpreter) (zh p b : Ptr) (l : ℕ) (v f : ℤ)
    (name : Bytes) (s : Stat) : Type 0 where
  pub delete : (u : World) → zkrb_call_zoo_delete client ruby zh p v u ≡ ok zok u
  pub set :
      (u : World) (st : Ptr)
      → u.cell st ≡ some raw
      → zkrb_call_zoo_set2 client ruby zh p b (pos l) v st u
        ≡ ok zok (write_cell u st (some (stat s)))
  pub create :
      (u : World) (buf : Ptr)
      → u.cell buf ≡ some raw
      → zkrb_call_zoo_create client ruby zh p b (pos l) null f buf (pos 16384) u
        ≡ ok zok (write_cell u buf (some (bytes name)))

module _ {h : Handle} {reqid async_v : Arg} {n : ℤ} {w : World} (t : Direct h reqid async_v n w)
    (jute : Jute) (client : Client) (ruby : Interpreter) (fns : Functions) (p : Ptr) {b : Ptr}
    {l : ℕ} (v f : ℤ) (name : Bytes) (s : Stat) (c : Obeys client ruby h.zh p b l v f name s) where
  -- The three methods return what they should, and memory is as it was.
  pub record Kept (len : ℕ) : Type 0 where
    pub deleted : World
    pub delete :
        (method_delete client ruby fns h reqid (string p len) (fixnum v) async_v w
          ≡ ok (value (num zok)) deleted)
        × Quiet w deleted
    pub written : World
    pub set :
        (method_set client ruby fns h reqid (string p len) (string b l) async_v (fixnum v) w
          ≡ ok (value (array (item (num zok) (item (zkrb_stat_to_rarray s) no_items)))) written)
        × Quiet w written
    pub created : World
    pub create :
        (method_create jute client ruby fns h reqid
            (string p len)
            (string b l)
            async_v
            qnil
            (fixnum f)
            w
          ≡ ok (value (array (item (num zok) (item (str name) no_items)))) created)
        × Quiet w created
