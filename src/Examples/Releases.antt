-- ===== src/Examples/Releases.antt =====
-- `zkrb_event_free` at an event of data and at one of strings, and the vectors' translations.
use zookeeper_fork.Base.{◌≡◌, refl, some, none, List, [], ◌∷◌, pos, arith, inr}
use zookeeper_fork.Structs.{
  Bytes, event, zkrb_data, zkrb_strings, data_completion, strings_completion, bytes, strings,
  vector,
}
use zookeeper_fork.Memory.{World, ok, Holds}
use zookeeper_fork.Translate.{Jute}
use zookeeper_fork.Translate.Show.{Strings}
use zookeeper_fork.Event.{zkrb_event_free}
use zookeeper_fork.Event.Release.{without, event_free-data}
use zookeeper_fork.Event.Leak.{event_free-strings_leaks}
use zookeeper_fork.Examples.{world}

no_jute : Jute
no_jute = record {
  allocate_string_vector = λ v n w. ok tt w;
  allocate_acl_vector = λ v n w. ok tt w;
  deallocate_acl_vector = λ v w. ok tt w;
}

-- An event of data at 1: its completion at 2, its bytes at 3.
abbrev with_data : World
with_data = world (
    event (record { req_id = pos 7; rc = some (pos 0); type = zkrb_data; completion = 2 })
    ∷ data_completion (record { value = 3; data_len = 1; stat = 0 })
    ∷ bytes (65 ∷ [])
    ∷ [])

event_free-data_example :
    zkrb_event_free no_jute 1 with_data ≡ ok tt (without with_data (3 ∷ 0 ∷ 2 ∷ 1 ∷ []))
event_free-data_example =
    event_free-data no_jute (some (65 ∷ [])) none (record { ne_null = omega arith; there = refl })
      (record { ne_null = omega arith; there = refl })
      (record { ne_null = omega arith; there = refl }) refl

-- An event of strings at 1: its completion at 2, the vector at 3, its array at 4, the strings at 5
-- and 6.
abbrev with_strings : World
with_strings = world (
    event (record { req_id = pos 7; rc = some (pos 0); type = zkrb_strings; completion = 2 })
    ∷ strings_completion (record { values = 3 })
    ∷ vector (record { count = 2; items = 4 })
    ∷ strings (5 ∷ 6 ∷ [])
    ∷ bytes (97 ∷ [])
    ∷ bytes (98 ∷ [])
    ∷ [])

abbrev names : List Bytes
names = (97 ∷ []) ∷ (98 ∷ []) ∷ []

array_at : Holds with_strings 4 (strings (5 ∷ 6 ∷ []))
array_at = record { ne_null = omega arith; there = refl }

abbrev names-Strings : Strings with_strings 3 names
names-Strings = record {
  items = 4;
  ptrs = 5 ∷ 6 ∷ [];
  head = record { ne_null = omega arith; there = refl };
  body = inr array_at;
  each = (
    record { ne_null = omega arith; there = refl },
    (record { ne_null = omega arith; there = refl }, tt),
  );
}

event_free-strings_leaks_example :
    (zkrb_event_free no_jute 1 with_strings ≡ ok tt (without with_strings (5 ∷ 6 ∷ 3 ∷ 2 ∷ 1 ∷ [])))
    × Holds (without with_strings (5 ∷ 6 ∷ 3 ∷ 2 ∷ 1 ∷ [])) 4 (strings (5 ∷ 6 ∷ []))
event_free-strings_leaks_example =
    event_free-strings_leaks no_jute names-Strings (record { ne_null = omega arith; there = refl })
      (record { ne_null = omega arith; there = refl }) array_at (refl, (refl, tt))
