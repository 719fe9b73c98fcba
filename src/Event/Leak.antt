-- ===== src/Event/Leak.antt =====
-- What an event of strings gives back, and the one block that it does not.
use zookeeper_fork.Base.{
  ℕ, suc, ◌≡◌, refl, ◌∙◌, sym, ap, Bool, false, Option, none, some, List, [], ◌∷◌, ◌++◌, ℤ, arith,
  length, get_elem?, ◌==◌, ◌||◌, inr, append_assoc,
}
use zookeeper_fork.Structs
use zookeeper_fork.Structs.{
  Ptr, null, Bytes, Stat, Cell, EventType, event, zkrb_data, zkrb_stat, zkrb_void, zkrb_string,
  zkrb_strings, zkrb_strings_stat, zkrb_watcher, data_completion, stat_completion,
  string_completion, strings_completion, strings_stat_completion, watcher_completion, bytes,
  strings, vector, as_vector, as_strings, as_bytes, as_stat, as_event, as_data_completion,
  as_stat_completion, as_string_completion, as_watcher_completion, as_strings_completion,
}
use zookeeper_fork.Memory.{World, ok, Holds, not_null}
use zookeeper_fork.Translate.{Jute}
use zookeeper_fork.Translate.Show.{Strings, Each, load_as-ok}
use zookeeper_fork.Event.{zkrb_event_free, free_strings_loop, free_strings}
use zookeeper_fork.Event.Show.{EventAt}
use zookeeper_fork.Event.Release.{
  dropped, without, free-Holds, spared, after_bytes, after_kind, last_two,
}

-- The loop over the strings: each is freed, and no pointer may stand twice.
abbrev pub mem : Ptr → List Ptr → Bool
mem a [] = false
mem a (p ∷ ps) = (a == p) || mem a ps

abbrev pub Distinct : List Ptr → Type 0
Distinct [] = Unit {0}
Distinct (p ∷ ps) = (mem p ps ≡ false) × Distinct ps

Each-dropped :
    (w : World) (p : Ptr) (b : Bytes) (ps : List Ptr) (bs : List Bytes)
    → mem p ps ≡ false
    → Each w ps bs
    → Each (dropped w p) ps bs
Each-dropped w p b [] [] n e = tt
Each-dropped w p b [] (x ∷ bs) n e = e
Each-dropped w p b (q ∷ ps) [] n e = e
Each-dropped w p b (q ∷ ps) (x ∷ bs) n e =
    (spared w p e.0 (inr (λ h. ground arith)), Each-dropped w p b ps bs (ground arith) e.1)

get-append :
    {A : Type 0} (xs : List A) (y : A) (ys : List A) → get_elem? (xs ++ y ∷ ys) (length xs) ≡ some y
get-append [] y ys = refl
get-append (x ∷ xs) y ys = get-append xs y ys

length-snoc : {A : Type 0} (xs : List A) (y : A) → length (xs ++ y ∷ []) ≡ suc (length xs)
length-snoc [] y = refl
length-snoc (x ∷ xs) y = ap suc (length-snoc xs y)

-- What an event of strings leaves: `a` is as it was, after the strings are freed.
free_strings_loop-without :
    (w : World) (values items : Ptr) (n : ℕ) (pre ps : List Ptr) (bs : List Bytes)
    → Holds w values (vector (record { count = n; items = items }))
    → Holds w items (strings (pre ++ ps))
    → Each w ps bs
    → Distinct ps
    → free_strings_loop (length bs) (length pre) values w ≡ ok tt (without w ps)
unfolding free_strings_loop
free_strings_loop-without w values items n pre [] [] v a e d = refl
free_strings_loop-without w values items n pre [] (b ∷ bs) v a e d = absurd e
free_strings_loop-without w values items n pre (p ∷ ps) [] v a e d = absurd e
free_strings_loop-without w values items n pre (p ∷ ps) (b ∷ bs) v a e d =
    rw
      (
        load_as-ok as_vector v refl,
        load_as-ok as_strings a refl,
        get-append pre p ps,
        free-Holds w p e.0,
        ← length-snoc pre p,
      )
      (free_strings_loop-without (dropped w p) values items n (pre ++ p ∷ []) ps bs
        (after_bytes w p (some b) e.0 v refl)
        (rw (append_assoc pre (p ∷ []) ps) (after_bytes w p (some b) e.0 a refl))
        (Each-dropped w p b ps bs d.0 e.1) d.1)

after-Each :
    (w : World) (ps : List Ptr) (bs : List Bytes) {a : Ptr} {c : Cell}
    → Each w ps bs
    → Distinct ps
    → Holds w a c
    → as_bytes c ≡ none
    → Holds (without w ps) a c
after-Each w [] [] e d h n = h
after-Each w [] (b ∷ bs) e d h n = absurd e
after-Each w (p ∷ ps) [] e d h n = absurd e
after-Each w (p ∷ ps) (b ∷ bs) e d h n =
    after-Each (dropped w p) ps bs (Each-dropped w p b ps bs d.0 e.1) d.1
      (after_bytes w p (some b) e.0 h n) n

without-append : (w : World) (ps qs : List Ptr) → without w (ps ++ qs) ≡ without (without w ps) qs
without-append w [] qs = refl
without-append w (p ∷ ps) qs = without-append (dropped w p) ps qs

-- The strings and the vector's structure; not its array.
free_strings-without :
    {w : World} {values : Ptr} {bs : List Bytes} (s : Strings w values bs)
    → Holds w s.items (strings s.ptrs)
    → Distinct s.ptrs
    → free_strings values w ≡ ok tt (dropped (without w s.ptrs) values)
unfolding free_strings
free_strings-without {w} {values} {bs} s a d =
    rw
      (
        not_null s.head,
        load_as-ok as_vector s.head refl,
        free_strings_loop-without w values s.items (length bs) [] s.ptrs bs s.head a s.each d,
      )
      (free-Holds (without w s.ptrs) values (after-Each w s.ptrs bs s.each d s.head refl))

-- Once the vector's structure is freed: the completion, the event, and the array that is left.
module _ (u : World) (values c e items : Ptr) {n : Structs.Vector} {p : Ptr} {v : Structs.Event}
    {ps : List Ptr} (hv : Holds u values (vector n))
    (hc : Holds u c (strings_completion (record { values = p }))) (he : Holds u e (event v))
    (hi : Holds u items (strings ps)) where
  c_left : Holds (dropped u values) c (strings_completion (record { values = p }))
  c_left = after_kind u values c hv hc (λ q. cc)

  e_left : Holds (dropped u values) e (event v)
  e_left = after_kind u values e hv he (λ q. cc)

  array_left : Holds (without u (values ∷ c ∷ e ∷ [])) items (strings ps)
  array_left =
      after_kind (dropped (dropped u values) c) e items
        (after_kind (dropped u values) c e c_left e_left (λ q. cc))
        (after_kind (dropped u values) c items c_left (after_kind u values items hv hi (λ q. cc))
          (λ q. cc))
        (λ q. cc)

module _ (jute : Jute) {w : World} {e c : Ptr} {req : ℤ} {rc : Option ℤ} {values : Ptr}
    {bs : List Bytes} (s : Strings w values bs) where
  -- `zkrb_event_free` of an event of strings, whose completion, vector, array and strings stand in
  -- memory with no string twice, ends: the strings, the vector's structure, the completion and the
  -- event are given back. The array of the vector stays allocated as it was.
  pub event_free-strings_leaks :
      EventAt w e req rc zkrb_strings c
      → Holds w c (strings_completion (record { values = values }))
      → Holds w s.items (strings s.ptrs)
      → Distinct s.ptrs
      → (zkrb_event_free jute e w ≡ ok tt (without w (s.ptrs ++ values ∷ c ∷ e ∷ [])))
        × Holds (without w (s.ptrs ++ values ∷ c ∷ e ∷ [])) s.items (strings s.ptrs)
  unfolding zkrb_event_free
  event_free-strings_leaks ev at a d =
      let u = without w s.ptrs in
      let v = after-Each w s.ptrs bs s.each d s.head refl in
      let c' = after-Each w s.ptrs bs s.each d at refl in
      let e' = after-Each w s.ptrs bs s.each d ev refl in
      let a' = after-Each w s.ptrs bs s.each d a refl in
      (
        rw
            (
              load_as-ok as_event ev refl,
              load_as-ok as_strings_completion at refl,
              free_strings-without s a d,
            )
            (last_two (dropped u values) c e (c_left u values c e s.items v c' e' a')
                (e_left u values c e s.items v c' e' a') refl
              ∙ ap (ok tt) (sym (without-append w s.ptrs (values ∷ c ∷ e ∷ [])))),
        rw (without-append w s.ptrs (values ∷ c ∷ e ∷ []))
            (array_left u values c e s.items v c' e' a'),
      )
