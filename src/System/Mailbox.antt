-- ===== src/System/Mailbox.antt =====
-- The mailbox: the numbers of the requests that are open, and the replies not yet read, oldest first.
use zookeeper_fork.Base.{
  Bool, true, false, List, [], ◌∷◌, ◌++◌, ℤ, get_elem?, if◌then◌else◌, ◌≡◌, ltb, ◌^◌, not, ◌==◌,
  ◌||◌, ◌&&◌,
}
use zookeeper_fork.Ruby.{Value, num, str, array, item, no_items, field, no_fields}
use zookeeper_fork.Translate.{zkrb_stat_to_rarray}
use zookeeper_fork.Translate.Show.{or_nil}
use zookeeper_fork.Event.Show.{reply}
use zookeeper_fork.Callbacks.Clones.{Readable, cut}
use zookeeper_fork.Callbacks.Watcher.{watched}
use zookeeper_fork.Extension.{Answer, value, truth, nothing}
use zookeeper_fork.Requests.{fits}
use zookeeper_fork.System.{
  Request, sync_request, watches, delete_request, set_request, create_request, Reply, void_reply,
  stat_reply, string_reply, data_reply, watch_event, Act, ask, answer, listen, look, wake, keeps,
  delete_at, if_some,
}

-- The hash that Ruby is to see.
abbrev pub shows : ℤ → Reply → Value
shows n (void_reply rc) = reply n rc no_fields
shows n (stat_reply rc o) = reply n rc (field "stat" (or_nil zkrb_stat_to_rarray o) no_fields)
shows n (string_reply rc o) = reply n rc (field "string" (or_nil str o) no_fields)
shows n (data_reply rc b m o) =
    reply n rc
      (field "data" (or_nil str (cut b m)) (field "stat" (or_nil zkrb_stat_to_rarray o) no_fields))
shows n (watch_event type state path) = watched n type state path

-- What a method returns when the client's call returns `rc`.
abbrev pub returns : Request → ℤ → Value
returns (delete_request p len v) rc = num rc
returns (sync_request p len) rc = num rc
returns _ rc = array (item (num rc) no_items)

-- The numbers of a request's contexts.
abbrev pub opens : ℤ → Request → List ℤ
opens n r = n ∷ (if watches r then n ∷ [] else [])

-- The answers so far, the numbers still open, and the replies not yet read.
pub record Outcome : Type 0 where
  pub answers : List Answer
  pub open_numbers : List ℤ
  pub unread : List Value

abbrev pub also : Answer → Outcome → Outcome
also a o = record o { answers = a ∷ o.answers }

abbrev pub is_some {ℓ} : {A : Type ℓ} → List A → Bool
is_some [] = false
is_some (x ∷ xs) = true

module _ (rc : Request → ℤ) where
  -- The same acts on a mailbox. `rc` is what the client's calls return.
  unfoldable pub expected : List Act → List ℤ → List Value → Outcome
  expected [] ns vs = record { answers = []; open_numbers = ns; unread = vs }
  expected (ask n r ∷ acts) ns vs =
      also (value (returns r (rc r))) (expected acts (ns ++ opens n r) vs)
  expected (answer i r ∷ acts) ns vs =
      if_some (get_elem? ns i) (expected acts ns vs)
        λ n. expected acts (if keeps n r then ns else delete_at ns i) (vs ++ shows n r ∷ [])
  expected (listen ∷ acts) ns [] = also nothing (expected acts ns [])
  expected (listen ∷ acts) ns (v ∷ vs) = also (value v) (expected acts ns vs)
  expected (look ∷ acts) ns vs = also (truth (is_some vs)) (expected acts ns vs)
  expected (wake ∷ acts) ns vs = also nothing (expected acts ns vs)

-- The numbers fit their C types, and the client has the bytes that it says.
abbrev pub FitRequest : Request → Type 0
FitRequest (delete_request p len v) = fits 31 v ≡ true
FitRequest (set_request p len b size v) = (ltb size (2 ^ 31) ≡ true) × (fits 31 v ≡ true)
FitRequest (create_request p len b size flags) = fits 31 flags ≡ true
FitRequest _ = Unit {0}

abbrev pub FitReply : Reply → Type 0
FitReply (data_reply rc b n o) = Readable b n
FitReply _ = Unit {0}

abbrev pub FitAct : Act → Type 0
FitAct (ask n r) = (fits 63 n ≡ true) × FitRequest r
FitAct (answer i r) = FitReply r
FitAct _ = Unit {0}

abbrev pub Fit : List Act → Type 0
Fit [] = Unit {0}
Fit (a ∷ acts) = FitAct a × Fit acts

-- Every answer for the first context leaves it with the client.
abbrev pub lasts : ℤ → List Act → Bool
lasts n [] = true
lasts n (ask m r ∷ acts) = lasts n acts
lasts n (answer i r ∷ acts) = (not (i == 0) || keeps n r) && lasts n acts
lasts n (listen ∷ acts) = lasts n acts
lasts n (look ∷ acts) = lasts n acts
lasts n (wake ∷ acts) = lasts n acts
