-- ===== src/Wrapper/Once.antt =====
-- A call through `zkrb_thread_blocking_region` returns what the function it wraps returns.
use zookeeper_fork.Base.{ℤ, ◌≡◌, refl, ap, Bool-cases, inl, inr}
use zookeeper_fork.Memory.{
  World, Cmd, Run, ok, pure, ◌>>=◌, ◌>>◌, and_then, fault, blocked, out_of_fuel,
}
use zookeeper_fork.Wrapper.Region.{Interpreter, Runs, amid, zkrb_thread_blocking_region}

module _ {A : Type 0} (get : A → ℤ) (put : ℤ → A) (get-put : (x : ℤ) → get (put x) ≡ x) where
  abbrev pub packed : Run ℤ → Run A
  packed r = and_then r λ x. pure (put x)

  abbrev pub unpacked : Run A → Run ℤ
  unpacked r = and_then r λ a. pure (get a)

  unpacked-packed : (r : Run ℤ) → unpacked (packed r) ≡ r
  unpacked-packed (ok x w) = ap (λ y. ok y w) (get-put x)
  unpacked-packed fault = refl
  unpacked-packed blocked = refl
  unpacked-packed out_of_fuel = refl

  last :
      (x : ℤ) (r : Run (Unit {0}))
      → unpacked (and_then r (λ _. pure (put x))) ≡ and_then r (λ _. pure x)
  last x (ok u w) = ap (λ y. ok y w) (get-put x)
  last x fault = refl
  last x blocked = refl
  last x out_of_fuel = refl

  middle :
      (r : Run ℤ) (t : Cmd (Unit {0}))
      → unpacked (and_then (packed r) (λ a. t >> pure a)) ≡ and_then r (λ x. t >> pure x)
  middle (ok x w) t = last x (t w)
  middle fault t = refl
  middle blocked t = refl
  middle out_of_fuel t = refl

  first :
      (r : Run (Unit {0})) (f : Cmd A) (m : Cmd ℤ) (t : Cmd (Unit {0}))
      → ((w : World) → f w ≡ packed (m w))
      → unpacked (and_then r (λ _. do a ← f; t; pure a)) ≡ and_then r (λ _. do x ← m; t; pure x)
  first (ok u w) f m t e = rw (e w) (middle (m w) t)
  first fault f m t e = refl
  first blocked f m t e = refl
  first out_of_fuel f m t e = refl

  -- A wrapper of `m` that packs its arguments as `a`, with `f` to unpack them.
  pub region-lem :
      {ruby : Interpreter} (runs : Runs ruby) (f : A → Cmd A) (a : A) (m : Cmd ℤ)
      → ((w : World) → f a w ≡ packed (m w))
      → (w : World) → unpacked (zkrb_thread_blocking_region ruby f a w) ≡ amid runs m w
  unfolding zkrb_thread_blocking_region
  region-lem {ruby} runs f a m e w = elim (Bool-cases ruby.ruby_187) [
    | inl y ↦ rw (y, e w) (unpacked-packed (m w))
    | inr n ↦ rw (n, runs.once f a w) (first (runs.before w) (f a) m runs.after e)
  ]
