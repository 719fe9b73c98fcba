-- ===== src/Requests/Guard.antt =====
-- STANDARD_PREAMBLE: which calls are refused, which contexts a call makes, and in which world the
-- rest of the method runs.
use zookeeper_fork.Base.{
  ℕ, suc, ◌≡◌, ◌≢◌, refl, ◌∙◌, Bool, true, false, not, Option, some, none, ℤ, arith, ◌==◌, ◌&&◌,
  if◌then◌else◌, Bool-cases, inl, inr,
}
use zookeeper_fork.Structs.{Ptr, null}
use zookeeper_fork.Memory.{World, Cmd, ok, malloc, store}
use zookeeper_fork.Translate.{Jute}
use zookeeper_fork.Callbacks.{zkrb_calling_context_alloc}
use zookeeper_fork.Callbacks.Finish.{context, renewed}
use zookeeper_fork.Extension.{Handle, Answer, raised}
use zookeeper_fork.Wrapper.{Client}
use zookeeper_fork.Wrapper.Region.{Interpreter}
use zookeeper_fork.Requests.{
  Arg, qnil, qfalse, qtrue, fixnum, bignum, string, acl_array, other, Functions, CallType, truthy,
  call_type, fits, is_integer, make_context, standard_preamble,
}
use zookeeper_fork.Requests.Reads.{
  get_body, exists_body, get_children_body, get_acl_body, method_get, method_exists,
  method_get_children, method_get_acl,
}
use zookeeper_fork.Requests.Writes.{
  create_body, delete_body, set_body, set_acl_body, sync_body, method_create, method_delete,
  method_set, method_set_acl, method_sync,
}

abbrev pub is_string : Arg → Bool
is_string (string p n) = true
is_string _ = false

-- A number for the request, a string for the path, and a handle that is open.
abbrev pub usable : Handle → Arg → Arg → Bool
usable h reqid path = is_integer reqid && is_string path && not (h.zh == null)

module _ (h : Handle) (reqid async_v watch : Arg) (k : Ptr → Ptr → Ptr → CallType → Cmd Answer)
    (w : World) where
  -- By the path: anything but a string is refused at once.
  refuses-path :
      (path : Arg)
      → is_integer reqid ≡ true
      → (is_string path && not (h.zh == null)) ≡ false
      → standard_preamble h reqid path async_v watch k w ≡ ok raised w
  unfolding standard_preamble
  refuses-path qnil i e = rw i refl
  refuses-path qfalse i e = rw i refl
  refuses-path qtrue i e = rw i refl
  refuses-path (fixnum n) i e = rw i refl
  refuses-path (bignum n) i e = rw i refl
  refuses-path (string p n) i e = rw i (ground arith)
  refuses-path (acl_array l) i e = rw i refl
  refuses-path other i e = rw i refl

  pub preamble-refuses :
      (path : Arg)
      → usable h reqid path ≡ false
      → standard_preamble h reqid path async_v watch k w ≡ ok raised w
  unfolding standard_preamble
  preamble-refuses path e = elim (Bool-cases (is_integer reqid)) [
    | inl y ↦ refuses-path path y (ground arith)
    | inr n ↦ rw n refl
  ]

-- All nine methods, on any other arguments, raise and leave the world as it is: no call of the
-- client, and no context.
pub record Refused (jute : Jute) (client : Client) (ruby : Interpreter) (fns : Functions)
    (h : Handle) (reqid path : Arg) (w : World) : Type 0 where
  pub get : (a b : Arg) → method_get client ruby fns h reqid path a b w ≡ ok raised w
  pub exists : (a b : Arg) → method_exists client ruby fns h reqid path a b w ≡ ok raised w
  pub get_children :
      (a b : Arg) → method_get_children client ruby fns h reqid path a b w ≡ ok raised w
  pub get_acl : (a : Arg) → method_get_acl client ruby fns jute h reqid path a w ≡ ok raised w
  pub create :
      (a b c d : Arg) → method_create jute client ruby fns h reqid path a b c d w ≡ ok raised w
  pub delete : (a b : Arg) → method_delete client ruby fns h reqid path a b w ≡ ok raised w
  pub set : (a b c : Arg) → method_set client ruby fns h reqid path a b c w ≡ ok raised w
  pub set_acl :
      (a b c : Arg) → method_set_acl jute client ruby fns h reqid path a b c w ≡ ok raised w
  pub sync : method_sync client ruby fns h reqid path w ≡ ok raised w

-- If the request is no number, the path no string, or the handle closed, each of the nine request
-- methods raises, whatever its other arguments, and changes nothing: the client is not called and no
-- context is made.
pub requests-Refused :
    (jute : Jute) (client : Client) (ruby : Interpreter) (fns : Functions) (h : Handle)
    (reqid path : Arg) (w : World)
    → usable h reqid path ≡ false
    → Refused jute client ruby fns h reqid path w
unfolding method_get method_exists method_get_children method_get_acl method_create method_delete
    method_set method_set_acl method_sync
requests-Refused jute client ruby fns h reqid path w e = record {
  get = λ a b. preamble-refuses h reqid a b (get_body client ruby fns h) w path e;
  exists = λ a b. preamble-refuses h reqid a b (exists_body client ruby fns h) w path e;
  get_children = λ a b. preamble-refuses h reqid a b (get_children_body client ruby fns h) w path e;
  get_acl = λ a. preamble-refuses h reqid a qfalse (get_acl_body client ruby fns jute h) w path e;
  create = λ a b c d.
      preamble-refuses h reqid b qfalse (create_body jute client ruby fns h a c d) w path e;
  delete = λ a b. preamble-refuses h reqid b qfalse (delete_body client ruby fns h a) w path e;
  set = λ a b c. preamble-refuses h reqid b qfalse (set_body client ruby fns h a c) w path e;
  set_acl =
      λ a b c. preamble-refuses h reqid b qfalse (set_acl_body jute client ruby fns h a c) w path e;
  sync = preamble-refuses h reqid qtrue qfalse (sync_body client ruby fns h) w path e;
}

-- The number of a request.
abbrev pub number : Arg → Option ℤ
number (fixnum n) = some n
number (bignum n) = some n
number _ = none

-- A context, if one is made: its address, and the world with it.
abbrev pub context_if : Bool → World → Ptr
context_if b w = if b then suc w.brk else null

abbrev pub with_context : Bool → ℤ → Ptr → World → World
with_context b n q w = if b then renewed w (context n q) else w

pub make_context-runs :
    (b : Bool) (reqid : Arg) {n : ℤ} (q : Ptr) (k : Ptr → Cmd Answer) (w : World)
    → number reqid ≡ some n
    → fits 63 n ≡ true
    → w.oom w.brk ≡ false
    → make_context b reqid q k w ≡ k (context_if b w) (with_context b n q w)
unfolding make_context zkrb_calling_context_alloc malloc store
make_context-runs false reqid q k w e f o = refl
make_context-runs true (fixnum m) q k w e f o = ground arith
make_context-runs true (bignum m) q k w e f o = ground arith
make_context-runs true qnil q k w e f o = cc
make_context-runs true qfalse q k w e f o = cc
make_context-runs true qtrue q k w e f o = cc
make_context-runs true (string p l) q k w e f o = cc
make_context-runs true (acl_array l) q k w e f o = cc
make_context-runs true other q k w e f o = cc

pub number-is_integer : (reqid : Arg) {n : ℤ} → number reqid ≡ some n → is_integer reqid ≡ true
number-is_integer (fixnum m) e = refl
number-is_integer (bignum m) e = refl
number-is_integer qnil e = cc
number-is_integer qfalse e = cc
number-is_integer qtrue e = cc
number-is_integer (string p l) e = cc
number-is_integer (acl_array l) e = cc
number-is_integer other e = cc

-- The preamble of an accepted call: a context for the completion and one for the watch, if asked for.
pub null-no : {p : Ptr} → p ≢ null → (p == null) ≡ false
null-no ne = ground arith

-- Memory does not run out for the second context either.
pub memory-kept :
    (b : Bool) (n : ℤ) (q : Ptr) (w : World)
    → ((m : ℕ) → w.oom m ≡ false)
    → (m : ℕ) → (with_context b n q w).oom m ≡ false
memory-kept true n q w o m = o m
memory-kept false n q w o m = o m

pub preamble-runs :
    (h : Handle) (reqid : Arg) {n : ℤ} (p : Ptr) (len : ℕ) (async_v watch : Arg)
    (k : Ptr → Ptr → Ptr → CallType → Cmd Answer) (w : World)
    → number reqid ≡ some n
    → fits 63 n ≡ true
    → h.zh ≢ null
    → ((m : ℕ) → w.oom m ≡ false)
    → let v = with_context (truthy async_v) n h.queue w in
      standard_preamble h reqid (string p len) async_v watch k w
      ≡ k p
          (context_if (truthy async_v) w)
          (context_if (truthy watch) v)
          (call_type (truthy async_v) (truthy watch))
          (with_context (truthy watch) n h.queue v)
unfolding standard_preamble
preamble-runs h reqid {n} p len async_v watch k w e f z o =
    let a =
      make_context-runs (truthy async_v) reqid h.queue
        (λ cb.
          make_context (truthy watch) reqid h.queue
            λ x. k p cb x (call_type (truthy async_v) (truthy watch)))
        w e f (o w.brk) in
    let v = with_context (truthy async_v) n h.queue w in
    let b =
      make_context-runs (truthy watch) reqid h.queue
        (λ x. k p (context_if (truthy async_v) w) x (call_type (truthy async_v) (truthy watch))) v e
        f (memory-kept (truthy async_v) n h.queue w o v.brk) in
    rw (number-is_integer reqid e, null-no z) (a ∙ b)
