-- ===== src/Event.antt =====
-- The events of ext/zookeeper_lib.c: how one is freed, and how one becomes a Ruby hash.
pub mod Leak
pub mod Parcels
pub mod Owned
pub mod Release
pub mod Show
use zookeeper_fork.Base.{
  ℕ, zero, suc, Option, none, some, ℤ, ◌==◌, if◌then◌else◌, leb, take, length, get_elem?, String,
}
use zookeeper_fork.Structs.{
  Ptr, null, Event, EventType, zkrb_data, zkrb_stat, zkrb_void, zkrb_string, zkrb_strings,
  zkrb_strings_stat, zkrb_acl, zkrb_watcher, as_event, as_bytes, as_stat, as_vector, as_strings,
  as_data_completion, as_stat_completion, as_string_completion, as_strings_completion,
  as_strings_stat_completion, as_acl_completion, as_watcher_completion,
}
use zookeeper_fork.Memory.{Cmd, pure, crash, ◌>>=◌, ◌>>◌, load_as, malloc, free, log_err, expect}
use zookeeper_fork.Ruby.{Value, nil, num, str, hash, Fields, no_fields, rb_hash_aset}
use zookeeper_fork.Translate.{
  Jute, rb_str_new2, zkrb_stat_to_rarray, zkrb_string_vector_to_ruby, zkrb_acl_vector_to_ruby,
}

unfoldable pub zkrb_event_alloc : Cmd Ptr
unfolding malloc
zkrb_event_alloc = malloc

-- `free(values->data[k])` for `n` more indices from `k` on.
free_strings_loop : ℕ → ℕ → Ptr → Cmd (Unit {0})
free_strings_loop zero k values = pure tt
free_strings_loop (suc n) k values = do
  v ← load_as as_vector values
  l ← load_as as_strings v.items
  p ← expect (get_elem? l k)
  free p
  free_strings_loop n (suc k) values

-- The strings of a vector, and then its structure.
free_strings : Ptr → Cmd (Unit {0})
unfolding free_strings_loop
free_strings values =
    if values == null
    then free values
    else do v ← load_as as_vector values; free_strings_loop v.count 0 values; free values

module _ (jute : Jute) where
  free_acl : Ptr → Cmd (Unit {0})
  free_acl acl = if acl == null then pure tt else do jute.deallocate_acl_vector acl; free acl

  free_completion : EventType → Ptr → Cmd (Unit {0})
  unfolding free_strings free_acl
  free_completion zkrb_data p = do
    c ← load_as as_data_completion p
    free c.value
    free c.stat
    free p
  free_completion zkrb_stat p = do c ← load_as as_stat_completion p; free c.stat; free p
  free_completion zkrb_string p = do c ← load_as as_string_completion p; free c.value; free p
  free_completion zkrb_strings p = do
    c ← load_as as_strings_completion p
    free_strings c.values
    free p
  free_completion zkrb_strings_stat p = do
    c ← load_as as_strings_stat_completion p
    free_strings c.values
    free c.stat
    free p
  free_completion zkrb_acl p = do
    c ← load_as as_acl_completion p
    free_acl c.acl
    free c.stat
    free p
  free_completion zkrb_watcher p = do c ← load_as as_watcher_completion p; free c.path; free p
  free_completion zkrb_void p = pure tt

  unfoldable pub zkrb_event_free : Ptr → Cmd (Unit {0})
  unfolding free_completion
  zkrb_event_free p = do e ← load_as as_event p; free_completion e.type e.completion; free p

-- A read of `rc`, which nothing may have written.
put_rc : EventType → Option ℤ → Fields → Cmd Fields
unfolding rb_hash_aset
put_rc zkrb_watcher rc h = pure h
put_rc _ none h = crash
put_rc _ (some rc) h = pure (rb_hash_aset h "rc" (num rc))

-- `rb_str_new(ptr, len)`, or nil for NULL.
new_str : Ptr → ℕ → Cmd Value
unfolding load_as
new_str p n =
    if p == null
    then pure nil
    else do b ← load_as as_bytes p; if leb n (length b) then pure (str (take n b)) else crash

-- `ptr ? f(ptr) : Qnil`
unless_null : Ptr → (Ptr → Cmd Value) → Cmd Value
unless_null p f = if p == null then pure nil else f p

unfoldable pub stat_value : Ptr → Cmd Value
unfolding load_as zkrb_stat_to_rarray
stat_value p = do s ← load_as as_stat p; pure (zkrb_stat_to_rarray s)

put_completion : EventType → Ptr → Fields → Cmd Fields
unfolding load_as rb_hash_aset new_str unless_null stat_value
put_completion zkrb_data p h = do
  c ← load_as as_data_completion p
  d ← new_str c.value c.data_len
  s ← unless_null c.stat stat_value
  pure (rb_hash_aset (rb_hash_aset h "data" d) "stat" s)
put_completion zkrb_stat p h = do
  c ← load_as as_stat_completion p
  s ← unless_null c.stat stat_value
  pure (rb_hash_aset h "stat" s)
put_completion zkrb_string p h = do
  c ← load_as as_string_completion p
  s ← unless_null c.value rb_str_new2
  pure (rb_hash_aset h "string" s)
put_completion zkrb_strings p h = do
  c ← load_as as_strings_completion p
  l ← unless_null c.values zkrb_string_vector_to_ruby
  pure (rb_hash_aset h "strings" l)
put_completion zkrb_strings_stat p h = do
  c ← load_as as_strings_stat_completion p
  l ← unless_null c.values zkrb_string_vector_to_ruby
  s ← unless_null c.stat stat_value
  pure (rb_hash_aset (rb_hash_aset h "strings" l) "stat" s)
put_completion zkrb_acl p h = do
  c ← load_as as_acl_completion p
  l ← unless_null c.acl zkrb_acl_vector_to_ruby
  s ← unless_null c.stat stat_value
  pure (rb_hash_aset (rb_hash_aset h "acl" l) "stat" s)
put_completion zkrb_watcher p h = do
  c ← load_as as_watcher_completion p
  s ← unless_null c.path rb_str_new2
  pure (
      rb_hash_aset (rb_hash_aset (rb_hash_aset h "type" (num c.type)) "state" (num c.state)) "path"
        s)
put_completion zkrb_void p h = pure h

unfoldable pub zkrb_event_to_ruby : Ptr → Cmd Value
unfolding load_as log_err rb_hash_aset put_rc put_completion
zkrb_event_to_ruby p = if p == null then log_err >> pure (hash no_fields) else do
  e ← load_as as_event p
  h ← put_rc e.type e.rc (rb_hash_aset no_fields "req_id" (num e.req_id))
  h' ← put_completion e.type e.completion h
  pure (hash h')
