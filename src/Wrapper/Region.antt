-- ===== src/Wrapper/Region.antt =====
-- `zkrb_thread_blocking_region` of ext/zkrb_wrapper_compat.c, and what is relied on of the
-- interpreter.
use zookeeper_fork.Base.{◌≡◌, Bool, if◌then◌else◌}
use zookeeper_fork.Memory.{World, Cmd, pure, ◌>>=◌, ◌>>◌}

-- `ruby_187` is the macro ZKRB_RUBY_187. `region` is `rb_thread_blocking_region`: the structure that
-- its argument points to is handed to the function, and comes back as the function left it.
pub record Interpreter : Type 1 where
  pub ruby_187 : Bool
  pub region : {A : Type 0} → (A → Cmd A) → A → Cmd A

unfoldable pub zkrb_thread_blocking_region : Interpreter → {A : Type 0} → (A → Cmd A) → A → Cmd A
zkrb_thread_blocking_region ruby func data1 =
    if ruby.ruby_187 then func data1 else ruby.region func data1

-- What the interpreter documents: the function is called once, with its argument, and the other
-- threads may run before and after it.
pub record Runs (ruby : Interpreter) : Type 1 where
  pub before : Cmd (Unit {0})
  pub after : Cmd (Unit {0})
  pub once :
      {A : Type 0} (f : A → Cmd A) (a : A) (w : World)
      → ruby.region f a w ≡ (before >> (do r ← f a; after; pure r)) w

-- A call of the client alone, amid what the other threads do.
abbrev pub amid : {ruby : Interpreter} {A : Type 0} → Runs ruby → Cmd A → Cmd A
amid {ruby} runs m = if ruby.ruby_187 then m else runs.before >> (do r ← m; runs.after; pure r)
