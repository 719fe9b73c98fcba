-- ===== src/Extension/Handles.antt =====
-- The handle's life: what each method does before and after `method_close_handle`.
use zookeeper_fork.Base.{ℕ, ◌≡◌, ◌≢◌, refl, sym, ◌∙◌, Bool, true, List, ℤ, arith}
use mathlib.Core.Path.{subst}
use zookeeper_fork.Structs.{null}
use zookeeper_fork.Memory.{World, Cmd, Run, ok, fault, blocked, out_of_fuel, pure, and_then}
use zookeeper_fork.Translate.{Jute}
use zookeeper_fork.Extension.{
  Handle, Answer, nothing, raised, Act, Closing, method_get_next_event, method_has_events,
  method_wake_event_loop_bang, close_zh, destroy_zkrb_instance, method_close_handle,
}

-- On `h`, `get_next_event` ends with nil, `has_events`, `wake_event_loop!` and a second close raise, and
-- nothing changes.
pub record Refuses (jute : Jute) (client : Closing) (fuel : ℕ) (h : Handle) (w : World)
    : Type 0 where
  pub next :
      (others : List Act) (blocking : Bool)
      → method_get_next_event jute others h blocking w ≡ ok nothing w
  pub has_events : method_has_events h w ≡ ok raised w
  pub wake : method_wake_event_loop_bang h w ≡ ok raised w
  pub close : method_close_handle jute client fuel h w ≡ ok (raised, h) w

closed-Refuses :
    (jute : Jute) (client : Closing) (fuel : ℕ) (h : Handle) (w : World)
    → h.zh ≡ null
    → h.closed ≡ true
    → Refuses jute client fuel h w
unfolding method_get_next_event method_has_events method_wake_event_loop_bang method_close_handle
closed-Refuses jute client fuel h w z c = record {
  next = λ others blocking. rw c refl;
  has_events = rw z refl;
  wake = rw z refl;
  close = rw z refl;
}

-- What came before a run that ended has ended.
and_then-ok :
    {A B : Type 0} (r : Run A) (k : A → Cmd B) {b : B} {v : World}
    → and_then r k ≡ ok b v
    → (a : A) × (u : World) × (r ≡ ok a u) × (k a u ≡ ok b v)
and_then-ok (ok a u) k e = (a, u, refl, e)
and_then-ok fault k e = cc
and_then-ok blocked k e = cc
and_then-ok out_of_fuel k e = cc

destroy-closed :
    (jute : Jute) (client : Closing) (fuel : ℕ) (h k : Handle) (rv : ℤ) (w v : World)
    → destroy_zkrb_instance jute client fuel h w ≡ ok (rv, k) v
    → (k.zh ≡ null) × (k.closed ≡ h.closed)
unfolding destroy_zkrb_instance
destroy-closed jute client fuel h k rv w v run =
    let (rc, u, e, run') = and_then-ok (close_zh client h.zh w) _ run in
    let (t, u', e', run'') =
      and_then-ok _ (λ _. pure (rc, record h { zh = null; queue = null })) run' in
    (ground (arith, run''), ground (arith, run''))

-- Once `method_close_handle` returns on a handle that is open, a second close raises and changes
-- nothing, so that nothing is freed again; `has_events` and `wake_event_loop!` raise as well, and
-- `get_next_event` returns nil, whatever its arguments, and they change nothing either.
pub close_handle-Refuses :
    (jute : Jute) (client : Closing) (fuel : ℕ) (h k : Handle) (a : Answer) (w v : World)
    → h.zh ≢ null
    → method_close_handle jute client fuel h w ≡ ok (a, k) v
    → (again : ℕ) → Refuses jute client again k v
unfolding method_close_handle
close_handle-Refuses jute client fuel h k a w v ne run again =
    let (r, u, e, run') =
      and_then-ok (destroy_zkrb_instance jute client fuel (record h { closed = true }) w)
        (λ x. pure (nothing, x.1)) (sym (still_open ne) ∙ run) in
    let (z, c) = destroy-closed jute client fuel (record h { closed = true }) r.1 r.0 w u e in
    subst (λ (x : Handle). Refuses jute client again x v) (ground (arith, run'))
      (closed-Refuses jute client again r.1 v z c)
  where
    still_open :
        h.zh ≢ null
        → method_close_handle jute client fuel h w
          ≡ and_then
              (destroy_zkrb_instance jute client fuel (record h { closed = true }) w)
              (λ x. pure (nothing, x.1))
    still_open ne = ground arith
