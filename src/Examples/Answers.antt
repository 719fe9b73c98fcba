-- ===== src/Examples/Answers.antt =====
-- Synchronous requests over that client, and what is left allocated.
use zookeeper_fork.Base.{true, ◌≡◌, refl, some, none, pos, negsuc, inr, [], ◌∷◌, arith}
use zookeeper_fork.Structs.{Ptr, raw, strings}
use zookeeper_fork.Memory.{World, Holds, ok}
use zookeeper_fork.Ruby.{no_fields, num, str, array, item, no_items}
use zookeeper_fork.Translate.{zkrb_stat_to_rarray}
use zookeeper_fork.Translate.Show.{strings_value}
use zookeeper_fork.Queue.Frame.{allocated}
use zookeeper_fork.Callbacks.Finish.{context}
use zookeeper_fork.Extension.{value, raised}
use zookeeper_fork.Wrapper.Region.{zkrb_thread_blocking_region}
use zookeeper_fork.Wrapper.SyncNodes.{zkrb_call_zoo_get, zkrb_gvl_zoo_get}
use zookeeper_fork.Wrapper.SyncLists.{zkrb_call_zoo_get_children2, zkrb_gvl_zoo_get_children2}
use zookeeper_fork.Requests.{qnil, qtrue, qfalse, fixnum, string, zok}
use zookeeper_fork.Requests.Quiet.{Quiet}
use zookeeper_fork.Requests.Reads.{method_get, method_get_children}
use zookeeper_fork.Requests.Writes.{method_create, method_delete}
use zookeeper_fork.Requests.Synced.{Gives, get-Quiet, get-denied}
use zookeeper_fork.Requests.Served.{Restored, delete-Served}
use zookeeper_fork.Examples.Listeners
use zookeeper_fork.Examples.Listeners.{empty-Piped}
use zookeeper_fork.Extension.{method_get_next_event}
use zookeeper_fork.Extension.Waking.{replies}
use zookeeper_fork.Wrapper.AsyncNodes.{zkrb_call_zoo_adelete, zkrb_gvl_zoo_adelete}
use zookeeper_fork.Event.Show.{reply}
use zookeeper_fork.Base.{List, map}
use zookeeper_fork.Translate.{AclValue, zkrb_acl_vector_to_ruby}
use zookeeper_fork.Translate.Show.{acls_value}
use zookeeper_fork.Translate.FromRuby.{zkrb_ruby_to_aclvector}
use zookeeper_fork.Callbacks.Finish.{Ready}
use zookeeper_fork.Requests.AclVectors.{of_strings, cut_acl, aclvector-round_trip}
use zookeeper_fork.Examples.Replies.{jute-IsJute}
use zookeeper_fork.Examples.{empty-Ready}
use zookeeper_fork.Requests.Leaks.{Listed, left_over, create-leaks, get_children-leaks}
use zookeeper_fork.Examples.{empty, handle}
use zookeeper_fork.Examples.Replies.{jute, some_stat}
use zookeeper_fork.Examples.Sessions.{fns}
use zookeeper_fork.Examples.Wrappers
use zookeeper_fork.Examples.Requests.{client, ruby, h, accepted, direct, listing}

client-Gives : Gives client ruby 99 50 (some (1 ∷ 2 ∷ [])) some_stat
unfolding zkrb_call_zoo_get zkrb_gvl_zoo_get zkrb_thread_blocking_region
client-Gives = record { run = λ u buf len st a b c. refl }

get-Quiet_example :
    (v : World) × (method_get client ruby fns h (fixnum (pos 5)) (string 50 2) qfalse qfalse empty
      ≡ ok
          (value (
            array (
              item
                (num zok)
                (item (str (1 ∷ 2 ∷ [])) (item (zkrb_stat_to_rarray some_stat) no_items)))))
          v)
    × Quiet empty v
get-Quiet_example = get-Quiet direct client ruby fns 50 some_stat 2 (some (1 ∷ 2 ∷ [])) client-Gives

get_denied :
    (u : World) (buf m st : Ptr)
    → zkrb_call_zoo_get Wrappers.client ruby 99 50 (pos 0) buf m st u ≡ ok (negsuc 3) u
unfolding zkrb_call_zoo_get zkrb_gvl_zoo_get zkrb_thread_blocking_region
get_denied u buf m st = refl

get-denied_example :
    (v : World) × (method_get Wrappers.client ruby fns h
        (fixnum (pos 5))
        (string 50 2)
        qfalse
        qfalse
        empty
      ≡ ok (value (array (item (num (negsuc 3)) no_items))) v)
    × Quiet empty v
get-denied_example = get-denied direct Wrappers.client ruby fns 50 (negsuc 3) 2 refl get_denied

create-leaks_example :
    (v : World) × (method_create jute client ruby fns h
        (fixnum (pos 5))
        (string 50 2)
        (string 60 3)
        qtrue
        qnil
        qnil
        empty
      ≡ ok raised v)
    × (empty.cell 4 ≡ none)
    × Holds v 4 (context (pos 5) 1)
create-leaks_example = create-leaks accepted jute client ruby fns 50 2 60 3 qnil qnil refl

-- The vector is at 4, the Stat at 5, the name at 6 and the array at 7.
abbrev after_children : World
after_children = listing 4 5 (allocated (allocated empty raw) raw)

children_listed :
    zkrb_call_zoo_get_children2 client ruby 99 50 (pos 0) 4 5 (allocated (allocated empty raw) raw)
    ≡ ok zok after_children
unfolding zkrb_call_zoo_get_children2 zkrb_gvl_zoo_get_children2 zkrb_thread_blocking_region
children_listed = refl

after_children-Listed : Listed after_children 4 5 ((97 ∷ []) ∷ []) some_stat
after_children-Listed = record {
  names = record {
    items = 7;
    ptrs = 6 ∷ [];
    head = record { ne_null = omega arith; there = refl };
    body = inr (record { ne_null = omega arith; there = refl });
    each = (record { ne_null = omega arith; there = refl }, tt);
  };
  array_at = record { ne_null = omega arith; there = refl };
  stat_at = record { ne_null = omega arith; there = refl };
}

get_children-leaks_example :
    (method_get_children client ruby fns h (fixnum (pos 5)) (string 50 2) qfalse qfalse empty
      ≡ ok
          (value (
            array (
              item (num zok) (
                item
                  (strings_value ((97 ∷ []) ∷ []))
                  (item (zkrb_stat_to_rarray some_stat) no_items)))))
          (left_over empty after_children))
    × Holds
        (left_over empty after_children)
        after_children-Listed.names.items
        (strings after_children-Listed.names.ptrs)
    × ((left_over empty after_children).cell 4 ≡ none)
get_children-leaks_example =
    get_children-leaks direct client ruby fns 50 after_children ((97 ∷ []) ∷ []) some_stat 2
      children_listed after_children-Listed

delete_taken :
    (u : World) → zkrb_call_zoo_adelete client ruby 99 50 (negsuc 0) 206 4 u ≡ ok (pos 0) u
unfolding zkrb_call_zoo_adelete zkrb_gvl_zoo_adelete zkrb_thread_blocking_region
delete_taken u = refl

delete-Served_example :
    (u x : World) × (method_delete client ruby fns h
        (fixnum (pos 5))
        (string 50 2)
        (fixnum (negsuc 0))
        qtrue
        empty
      ≡ ok (value (num (pos 0))) u)
    × (method_get_next_event Listeners.jute (replies (pos 0) 4 ∷ []) h true u
        ≡ ok (value (reply (pos 5) (pos 0) no_fields)) x)
    × Restored empty 1 handle x
delete-Served_example =
    delete-Served accepted Listeners.jute client ruby fns 50 2 (pos 0) (pos 0) (negsuc 0) [] refl
      refl empty-Piped delete_taken

-- The scheme "w", a NUL and "d"; the second is plain.
abbrev two_acls : List AclValue
two_acls =
    record { perms = pos 31; scheme = 119 ∷ 0 ∷ 100 ∷ []; ident = 97 ∷ [] }
    ∷ record { perms = pos 1; scheme = 105 ∷ []; ident = [] }
    ∷ []

aclvector-round_trip_example :
    (v : World) × (p : Ptr) × (zkrb_ruby_to_aclvector jute (map of_strings two_acls) empty
      ≡ ok (some p) v)
    × (zkrb_acl_vector_to_ruby p v ≡ ok (acls_value (map cut_acl two_acls)) v)
    × Ready v 3 (pos 7) 1 handle []
aclvector-round_trip_example =
    aclvector-round_trip jute jute-IsJute empty-Ready two_acls (refl, (refl, tt)) refl
