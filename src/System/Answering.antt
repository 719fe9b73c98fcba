-- ===== src/System/Answering.antt =====
-- A callback of the client: one letter more.
use zookeeper_fork.Base.{
  ℕ, suc, ◌≡◌, refl, ◌∙◌, sym, Bool, true, false, some, none, List, [], ◌∷◌, ◌++◌, ℤ, arith, ◌==◌,
  get_elem?, if◌then◌else◌, Bool-cases, inl, inr, Option,
}
use mathlib.Core.Path.{subst}
use zookeeper_fork.Structs
use zookeeper_fork.Structs.{Ptr}
use zookeeper_fork.Memory.{World, Run, ok}
use zookeeper_fork.Ruby.{Value}
use zookeeper_fork.Translate.{Jute}
use zookeeper_fork.Event.Leak.{mem}
use zookeeper_fork.Queue.Chain.{Nodes}
use zookeeper_fork.Queue.History.{Room, Room-woken}
use zookeeper_fork.Callbacks.Finish.{Ready, context}
use zookeeper_fork.Callbacks.Arrival.{Arrived}
use zookeeper_fork.Callbacks.Arrivals.{
  void_callback-Arrived, stat_callback-Arrived, string_callback-Arrived, data_callback-Arrived,
  state_callback-Arrived,
}
use zookeeper_fork.System.{
  Pending, delete_at, Reply, void_reply, stat_reply, string_reply, data_reply, watch_event, deliver,
  keeps,
}
use zookeeper_fork.System.Mailbox.{shows, FitReply}
use zookeeper_fork.System.Letters.{
  Letter, Post-kept, Post-snoc, owned, owned-IsBox, Spares, Leaves-Spares,
}
use zookeeper_fork.System.Contexts.{
  Contexts, holds, holds-only, holds-deleted, Contexts-at, Contexts-kept, Contexts-deleted,
}
use zookeeper_fork.System.Used.{used-snoc, used-new, holds-used, unused-holds, at_tail}
use zookeeper_fork.System.State.{Sys, used, Account, free_rest, Sys-Ready}

deliver-Arrived :
    (jute : Jute) {w : World} {ctx q : Ptr} {n : ℤ} {s : Structs.Queue} {xs : Nodes} (r : Reply)
    → FitReply r
    → Ready w ctx n q s xs
    → Arrived jute ctx n (keeps n r) q s xs (shows n r) w (deliver r ctx w)
unfolding deliver
deliver-Arrived jute (void_reply rc) f r = void_callback-Arrived jute r rc
deliver-Arrived jute (stat_reply rc o) f r = stat_callback-Arrived jute r rc o
deliver-Arrived jute (string_reply rc o) f r = string_callback-Arrived jute r rc o
deliver-Arrived jute (data_reply rc b n o) f r = data_callback-Arrived jute r rc b n o f
deliver-Arrived jute (watch_event type state path) f r =
    state_callback-Arrived jute r type state path

module _ {jute : Jute} {rest : Ptr → Option Structs.Cell} {q : Ptr} {w : World} {ps : Pending}
    {ls : List Letter} {n : ℕ} (s : Sys jute rest q w ps ls (suc n)) (i : ℕ) {a : Ptr} {m : ℤ}
    (e : get_elem? ps i ≡ some (a, m)) where
  Arrived-Contexts :
      (keep : Bool) {v : Value} {r : Run (Unit {0})}
      → (x : Arrived jute a m keep q s.queue s.nodes v w r)
      → Contexts x.world q (if keep then ps else delete_at ps i)
  Arrived-Contexts false x =
      Contexts-deleted w q x.world ps i s.contexts e
        λ b k n h. x.others b (context k q) h refl refl n
  Arrived-Contexts true x =
      Contexts-kept w q x.world ps
        (λ b k o h. elim (Bool-cases (b == a)) [
          | inl y ↦
              (let c = x.context_after in
                let d = (Contexts-at w q ps i s.contexts e).0.there in ground arith)
          | inr y ↦ x.others b (context k q) h refl refl y
        ])
        s.contexts

  module _ {keep : Bool} {v : Value} {r : Run (Unit {0})}
      (x : Arrived jute a m keep q s.queue s.nodes v w r) where
    Arrived-Spares : Spares w x.world ls
    Arrived-Spares =
        Leaves-Spares jute s.nodes
          (record {
            at = λ b c h l p k.
                x.others b c h l p
                  (let d = (Contexts-at w q ps i s.contexts e).0.there in ground arith);
          })
          s.post

    new_letter : (b : Ptr) → mem b x.boxes ≡ true → (b == Structs.null) ≡ false → owned b ls ≡ false
    new_letter b o z = elim (Bool-cases (owned b ls)) [
      | inl y ↦
          (let u = x.unused b o z in let t = (owned-IsBox jute s.nodes ls s.post b y z).there in cc)
      | inr y ↦ y
    ]

    abbrev left_over : Pending
    left_over = if keep then ps else delete_at ps i

    abbrev letter : Letter
    letter = record { shows = v; boxes = x.boxes }

    arrived_inside :
        (b : Ptr)
        → (b == Structs.null) ≡ false
        → used q x.after (s.nodes ++ (s.queue.tail, x.elt) ∷ []) left_over (ls ++ letter ∷ []) b
          ≡ true
        → rest b ≡ none
    arrived_inside b z u = elim (Bool-cases (used q s.queue s.nodes ps ls b)) [
      | inl y ↦ s.account.inside b z y
      | inr y ↦
          free_rest s.account b z
            (elim (used-new q s.queue x.after s.nodes ps left_over ls x.elt letter b y
              (still keep (unused-holds q s.queue s.nodes ps ls b y)) u) [
                | inl t ↦ at_tail w b x.after.tail t x.node_unused
                | inr m ↦ x.unused b m z
              ])
    ]
      where
        still :
            (keep : Bool)
            → holds b ps ≡ false
            → holds b (if keep then ps else delete_at ps i) ≡ false
        still true h = h
        still false h = holds-deleted ps i b h

    Arrived-Account :
        Account rest q x.after
          (s.nodes ++ (s.queue.tail, x.elt) ∷ [])
          left_over
          (ls ++ letter ∷ [])
          x.world
    Arrived-Account = record {
      inside = arrived_inside;
      outside = λ b z u.
          let (before, no_box, not_q, not_old, not_tail, no_context) =
            used-snoc q s.queue x.after s.nodes left_over ls x.elt letter b u in
          elim (Bool-cases (b == a)) [
            | inl y ↦ gone keep x.context_after b z y no_context
            | inr y ↦
                x.same_apart b no_box not_q not_old not_tail y
                ∙ s.account.outside b z (before ps (none_else keep b y no_context))
          ];
    }
      where
        none_else :
            (keep : Bool) (b : Ptr)
            → (b == a) ≡ false
            → holds b (if keep then ps else delete_at ps i) ≡ false
            → holds b ps ≡ false
        none_else true b y h = h
        none_else false b y h = holds-only ps i b e y h

        gone :
            (keep : Bool)
            → x.world.cell a ≡ (if keep then some (context m q) else none)
            → (b : Ptr) → (b == Structs.null) ≡ false
            → (b == a) ≡ true
            → holds b (if keep then ps else delete_at ps i) ≡ false
            → x.world.cell b ≡ rest b
        gone true c b z y h = let d = (Contexts-at w q ps i s.contexts e).1 in absurd (ground arith)
        gone false c b z y h =
            let d = (Contexts-at w q ps i s.contexts e).1 in
            let r = s.account.inside b z (holds-used q s.queue s.nodes ps ls b (ground arith)) in
            ground arith

    Arrived-Sys :
        Sys jute rest q x.world
          (if keep then ps else delete_at ps i)
          (ls ++ record { shows = v; boxes = x.boxes } ∷ [])
          n
    Arrived-Sys = record {
      queue = x.after;
      nodes = s.nodes ++ (s.queue.tail, x.elt) ∷ [];
      is = x.is;
      fresh = x.fresh;
      memory = x.memory;
      contexts = Arrived-Contexts keep x;
      post =
          Post-snoc jute s.nodes ls s.queue.tail x.elt _
            (Post-kept jute s.nodes ls Arrived-Spares s.post) x.parcel new_letter;
      room = subst (Room n) (sym x.system) (Room-woken n s.queue.pipe_write w.os s.room);
      account = Arrived-Account;
    }

  -- The callback ends, and what it was handed is the last letter.
  pub record Answering (r : Reply) : Type 0 where
    pub world : World
    pub boxes : List Ptr
    pub run : deliver r a w ≡ ok tt world
    pub sys :
        Sys jute rest q world
          (if keeps m r then ps else delete_at ps i)
          (ls ++ record { shows = shows m r; boxes = boxes } ∷ [])
          n

  pub deliver-Answering : (r : Reply) → FitReply r → Answering r
  deliver-Answering r f =
      let x = deliver-Arrived jute r f (Sys-Ready s i e) in
      record { world = x.world; boxes = x.boxes; run = x.run; sys = Arrived-Sys x }
