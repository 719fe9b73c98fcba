-- ===== src/Examples/Wrappers.antt =====
-- The wrappers at a client whose calls all return -4 (ZCONNECTIONLOSS) but `zoo_state`.
use zookeeper_fork.Base.{◌≡◌, refl, false, ℤ, pos, negsuc}
use zookeeper_fork.Memory.{Cmd, ok, pure, ◌>>=◌, ◌>>◌, log_err}
use zookeeper_fork.Wrapper.{Client}
use zookeeper_fork.Wrapper.Region.{Interpreter, Runs}
use zookeeper_fork.Wrapper.Calls.{wrapped, released, wrapped-released}

abbrev lost : Cmd ℤ
lost w = ok (negsuc 3) w

abbrev pub client : Client
client = record {
  zoo_recv_timeout = λ zh. lost;
  zoo_state = λ zh. λ w. ok (pos 3) w;
  zoo_acreate = λ zh path value valuelen acl flags completion context. lost;
  zoo_adelete = λ zh path version completion context. lost;
  zoo_aexists = λ zh path watch completion context. lost;
  zoo_awexists = λ zh path watcher watcher_ctx completion context. lost;
  zoo_aget = λ zh path watch completion context. lost;
  zoo_awget = λ zh path watcher watcher_ctx completion context. lost;
  zoo_aset = λ zh path buffer buflen version completion context. lost;
  zoo_aget_children = λ zh path watch completion context. lost;
  zoo_awget_children = λ zh path watcher watcher_ctx completion context. lost;
  zoo_aget_children2 = λ zh path watch completion context. lost;
  zoo_awget_children2 = λ zh path watcher watcher_ctx completion context. lost;
  zoo_async = λ zh path completion context. lost;
  zoo_aget_acl = λ zh path completion context. lost;
  zoo_aset_acl = λ zh path version acl completion context. lost;
  zoo_add_auth = λ zh scheme cert cert_len completion context. lost;
  zoo_create = λ zh path value valuelen acl flags path_buffer path_buffer_len. lost;
  zoo_delete = λ zh path version. lost;
  zoo_exists = λ zh path watch stat. lost;
  zoo_wexists = λ zh path watcher watcher_ctx stat. lost;
  zoo_get = λ zh path watch buffer buffer_len stat. lost;
  zoo_wget = λ zh path watcher watcher_ctx buffer buffer_len stat. lost;
  zoo_set = λ zh path buffer buflen version. lost;
  zoo_set2 = λ zh path buffer buflen version stat. lost;
  zoo_get_children = λ zh path watch strings. lost;
  zoo_wget_children = λ zh path watcher watcher_ctx strings. lost;
  zoo_get_children2 = λ zh path watch strings stat. lost;
  zoo_wget_children2 = λ zh path watcher watcher_ctx strings stat. lost;
  zoo_get_acl = λ zh path acl stat. lost;
  zoo_set_acl = λ zh path version acl. lost;
}

-- Other threads log a line before and after.
abbrev ruby : Interpreter
ruby = record { ruby_187 = false; region = λ f a. log_err >> (do r ← f a; log_err; pure r) }

ruby-Runs : Runs ruby
ruby-Runs = record { before = log_err; after = log_err; once = λ f a w. refl }

wrapped-released_example : wrapped client ruby ≡ released client ruby-Runs
wrapped-released_example = wrapped-released client ruby-Runs
