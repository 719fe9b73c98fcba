-- ===== src/Translate/FromRuby.antt =====
-- ACLs from Ruby: `zkrb_ruby_to_id`, `zkrb_ruby_to_acl` and `zkrb_ruby_to_aclvector`.
use zookeeper_fork.Base.{
  ℕ, zero, suc, Option, none, some, List, [], ◌∷◌, ℤ, pos, negsuc, length, take, fits, to_int,
  if◌then◌else◌,
}
use zookeeper_fork.Structs.{Ptr, null, Bytes, Acl, bytes}
use zookeeper_fork.Memory.{Cmd, pure, ◌>>=◌, ◌>>◌, malloc, new}
use zookeeper_fork.Translate.{Jute, store_acl}

-- `@scheme` and `@id` of the Ruby object, each a string or nil.
pub record RubyId : Type 0 where
  pub scheme : Option Bytes
  pub ident : Option Bytes

-- `@perms`, as the integer that it is converted to, or none if it is not a number, and `@id`.
pub record RubyAcl : Type 0 where
  pub perms : Option ℤ
  pub id : RubyId

-- What `strncpy` leaves of a string, as a C string: the bytes before the first NUL.
abbrev pub c_string : Bytes → Bytes
c_string [] = []
c_string (zero ∷ b) = []
c_string (suc c ∷ b) = suc c ∷ c_string b

unfoldable pub copy_string : Option Bytes → Cmd Ptr
unfolding new
copy_string none = pure null
copy_string (some b) = new (bytes (c_string b))

unfoldable pub zkrb_ruby_to_id : RubyId → Cmd (Ptr × Ptr)
unfolding copy_string
zkrb_ruby_to_id rubyid = do s ← copy_string rubyid.scheme; i ← copy_string rubyid.ident; pure (s, i)

-- NUM2INT, or none for an exception, which it raises outside of an `int`.
abbrev pub num2int : Option ℤ → Option ℤ
num2int none = none
num2int (some n) = if fits 31 n then some n else none

-- What follows on a value, and none after an exception.
abbrev pub unless_raised {ℓ} : {A B : Type ℓ} → Option A → (A → Cmd (Option B)) → Cmd (Option B)
unless_raised none k = pure none
unless_raised (some a) k = k a

-- The result is none for an exception, here and below.
unfoldable pub zkrb_ruby_to_acl : RubyAcl → Cmd (Option Acl)
unfolding zkrb_ruby_to_id
zkrb_ruby_to_acl rubyacl = unless_raised (num2int rubyacl.perms) λ perms. do
  (s, i) ← zkrb_ruby_to_id rubyacl.id
  pure (some (record { perms = perms; scheme = s; ident = i }))

unfoldable pub ruby_acl_loop : Ptr → ℕ → List RubyAcl → Cmd (Option (Unit {0}))
unfolding zkrb_ruby_to_acl store_acl
ruby_acl_loop v k [] = pure (some tt)
ruby_acl_loop v k (acl_val ∷ acl_ary) = do
  r ← zkrb_ruby_to_acl acl_val
  unless_raised r λ a. do store_acl v k a; ruby_acl_loop v (suc k) acl_ary

-- The rounds of a loop from 0 up to `count`.
abbrev pub rounds : ℤ → ℕ
rounds (pos n) = n
rounds (negsuc n) = 0

-- `v->count` is the length as an `int`, and so the first elements are taken of a longer array. After an
-- exception the vector and what it has of strings stay allocated.
unfoldable pub zkrb_ruby_to_aclvector : Jute → List RubyAcl → Cmd (Option Ptr)
unfolding malloc ruby_acl_loop
zkrb_ruby_to_aclvector jute acl_ary =
    let count = to_int (length acl_ary) in
    do
      v ← malloc
      jute.allocate_acl_vector v count
      r ← ruby_acl_loop v 0 (take (rounds count) acl_ary)
      unless_raised r λ u. pure (some v)
