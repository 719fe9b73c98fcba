-- ===== src/Requests.antt =====
-- What the request methods of ext/zookeeper_c.c share: their arguments, STANDARD_PREAMBLE, the four
-- types of a call, and the arrays that they return. A macro that returns or raises takes the rest of
-- its method as its last argument.
pub mod AclVectors
pub mod Answered
pub mod Asked
pub mod Bounds
pub mod Guard
pub mod Leaks
pub mod Locals
pub mod Quiet
pub mod Reads
pub mod Replies
pub mod Served
pub mod Stored
pub mod Synced
pub mod Watches
pub mod Writes
use zookeeper_fork.Base.{
  ℕ, Bool, true, false, not, List, [], ◌∷◌, Option, none, some, ℤ, pos, negsuc, eqb_ℤ, ltb, ◌==◌,
  ◌||◌, ◌&&◌, ◌^◌, ◌-◌, ◌%◌, if◌then◌else◌,
}
use zookeeper_fork.Structs.{Ptr, null, Cell}
use zookeeper_fork.Memory.{Cmd, pure, ◌>>=◌, ◌>>◌, alloca, leave}
pub use zookeeper_fork.Base.{fits, to_int}
use zookeeper_fork.Ruby.{Value, Items, num, array, no_items, rb_ary_push}
use zookeeper_fork.Translate.FromRuby.{RubyAcl}
use zookeeper_fork.Callbacks.{zkrb_calling_context_alloc}
use zookeeper_fork.Extension.{Handle, Answer, value, nothing, raised}

-- A Ruby value that a method is called with. A string is known by RSTRING_PTR and RSTRING_LEN;
-- `other` is any object that the methods have no use for.
pub data Arg : Type 0 where
  qnil qfalse qtrue : Arg
  fixnum bignum : ℤ → Arg
  string : Ptr → ℕ → Arg
  acl_array : List RubyAcl → Arg
  other : Arg

-- The addresses of the callbacks, which the client is given.
pub record Functions : Type 0 where
  pub state_fn : Ptr
  pub data_fn : Ptr
  pub stat_fn : Ptr
  pub string_fn : Ptr
  pub strings_stat_fn : Ptr
  pub void_fn : Ptr
  pub acl_fn : Ptr

-- ZOK of the client
abbrev pub zok : ℤ
zok = pos 0

pub data CallType : Type 0 where
  sync async sync_watch async_watch : CallType

-- IS_SYNC
abbrev pub is_sync : CallType → Bool
is_sync sync = true
is_sync sync_watch = true
is_sync async = false
is_sync async_watch = false

-- IS_ASYNC
abbrev pub is_async : CallType → Bool
is_async async = true
is_async async_watch = true
is_async sync = false
is_async sync_watch = false

-- `v != Qfalse && v != Qnil`
abbrev pub truthy : Arg → Bool
truthy qnil = false
truthy qfalse = false
truthy _ = true

abbrev pub call_type : Bool → Bool → CallType
call_type a_ w_ =
    if a_ then (if w_ then async_watch else async) else (if w_ then sync_watch else sync)

-- NUM2LL, which raises outside of a `long long`.
abbrev pub num2ll : Arg → (ℤ → Cmd Answer) → Cmd Answer
num2ll (fixnum n) k = if fits 63 n then k n else pure raised
num2ll (bignum n) k = if fits 63 n then k n else pure raised
num2ll _ k = pure raised

-- FIX2INT, which raises outside of an `int`.
abbrev pub fix2int : Arg → (ℤ → Cmd Answer) → Cmd Answer
fix2int (fixnum n) k = if fits 31 n then k n else pure raised
fix2int (bignum n) k = if fits 31 n then k n else pure raised
fix2int _ k = pure raised

-- `Check_Type(v, T_FIXNUM)`
abbrev pub check_fixnum : Arg → Cmd Answer → Cmd Answer
check_fixnum (fixnum n) k = k
check_fixnum _ k = pure raised

-- `Check_Type(v, T_STRING)` and RSTRING_PTR
abbrev pub check_string : Arg → (Ptr → Cmd Answer) → Cmd Answer
check_string (string p n) k = k p
check_string _ k = pure raised

-- `TYPE(v) == T_FIXNUM || TYPE(v) == T_BIGNUM`
abbrev pub is_integer : Arg → Bool
is_integer (fixnum n) = true
is_integer (bignum n) = true
is_integer _ = false

-- `data_ptr` and `data_len`, a `size_t` of 64 bits that is -1 for nil.
abbrev pub with_data : Arg → (Ptr → ℕ → Cmd Answer) → Cmd Answer
with_data qnil k = k null (2 ^ 64 - 1)
with_data (string p n) k = k p n
with_data _ k = pure raised

-- `cond ? zkrb_calling_context_alloc(NUM2LL(reqid), zk->queue) : NULL`
unfoldable pub make_context : Bool → Arg → Ptr → (Ptr → Cmd Answer) → Cmd Answer
unfolding zkrb_calling_context_alloc
make_context false reqid queue k = k null
make_context true reqid queue k = num2ll reqid λ n. do p ← zkrb_calling_context_alloc n queue; k p

-- STANDARD_PREAMBLE; the rest of the method takes RSTRING_PTR(path), the two contexts and the type.
unfoldable pub standard_preamble :
    Handle → Arg → Arg → Arg → Arg → (Ptr → Ptr → Ptr → CallType → Cmd Answer) → Cmd Answer
unfolding make_context
standard_preamble h reqid path async_v watch k =
    if not (is_integer reqid)
    then pure raised
    else check_string path λ p.
      if h.zh == null
      then pure raised
      else make_context (truthy async_v) reqid h.queue λ cb_ctx.
        make_context (truthy watch) reqid h.queue
          λ w_ctx. k p cb_ctx w_ctx (call_type (truthy async_v) (truthy watch))

-- A local variable, which goes when the method returns.
abbrev pub with_local : Cell → (Ptr → Cmd Answer) → Cmd Answer
with_local c k = do p ← alloca c; a ← k p; leave p; pure a

-- `rb_ary_new()` and `rb_ary_push(output, INT2FIX(rc))`; a synchronous call that succeeded pushes
-- what `more` makes.
abbrev pub answer_with : CallType → ℤ → (Items → Cmd Items) → Cmd Answer
answer_with type rc more = do
  let output = rb_ary_push no_items (num rc)
  output' ← (if is_sync type && eqb_ℤ rc zok then more output else pure output)
  pure (value (array output'))

abbrev pub just_rc : ℤ → Cmd Answer
just_rc rc = pure (value (num rc))
