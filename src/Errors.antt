-- ===== src/Errors.antt =====
-- Go errors: the sentinels of internal/*/errors.go and of package context, wrapping by `%w`,
-- errors of code outside the repository, and `errors.Is` and `errors.As` along the chain. A message
-- is the literal part of its format string; the values that `%d` and `%q` print are left out.
use incus_spire_attestor.Prelude.{
  refl, ℕ, ◌==◌, ◌≡◌, String, Bool, true, false, ◌||◌, Option, none, some, ◌⊎◌, inl, inr,
}

pub data Sentinel : Type 0 where
  denied wire_invalid wire_unsupported config_invalid : Sentinel
  canceled deadline_exceeded replaced_target missing_context : Sentinel

-- An error value of a library: the methods that the code looks for along a chain.
pub record Remote : Type 0 where
  pub timeout : Option Bool
  pub temporary : Option Bool
  pub status : Option ℕ
  pub net_op : Bool

-- The errors of encoding/json, as the code tells them apart.
pub data JsonError : Type 0 where
  eof syntax wrong_type unknown_field : JsonError

-- `transient` is guest's transientError, without and with a cause; `remote_of` unwraps to its
-- second argument; `join` is an error with two `%w`, or errors.Join.
pub data Error : Type 0 where
  sentinel : Sentinel → Error
  text : String → Error
  json : JsonError → Error
  remote : Remote → Error
  remote_of : Remote → Error → Error
  wrap : String → Error → Error
  transient : String → Bool → Error
  transient_of : String → Bool → Error → Error
  join : Error → Error → Error

pub data Result {ℓ} (A : Type ℓ) : Type ℓ where
  ok : A → Result A
  err : Error → Result A

pub Result-cases {ℓ} :
    {A : Type ℓ} (r : Result A) → ((a : A) × (r ≡ ok a)) ⊎ ((e : Error) × (r ≡ err e))
Result-cases (ok a) = inl (a, refl)
Result-cases (err e) = inr (e, refl)

-- `if err != nil { return err }` between two calls.
module _ {ℓ κ} {A : Type ℓ} {B : Type κ} where
  infixl 5 ◌>>=◌ ◌>>◌
  abbrev pub ◌>>=◌ : Result A → (A → Result B) → Result B
  ◌>>=◌ (ok a) f = f a
  ◌>>=◌ (err e) f = err e

  abbrev pub ◌>>◌ : Result A → Result B → Result B
  ◌>>◌ m next = m >>= λ _. next

-- `if !test { return err }`.
abbrev pub require : Bool → Error → Result (Unit {0})
require true e = ok tt
require false e = err e

abbrev pub deny {ℓ} : {A : Type ℓ} → String → Result A
deny message = err (wrap message (sentinel denied))

number : Sentinel → ℕ
number denied = 0
number wire_invalid = 1
number wire_unsupported = 2
number config_invalid = 3
number canceled = 4
number deadline_exceeded = 5
number replaced_target = 6
number missing_context = 7

-- `errors.Is(e, s)`.
unfoldable pub is : Sentinel → Error → Bool
unfolding number
is s (sentinel t) = number s == number t
is s (text _) = false
is s (json _) = false
is s (remote _) = false
is s (remote_of _ e) = is s e
is s (wrap _ e) = is s e
is s (transient _ _) = false
is s (transient_of _ _ e) = is s e
is s (join e f) = is s e || is s f

-- The first `some`, as errors.As stops at the first error of the chain with the method.
unfoldable pub first {ℓ} : {A : Type ℓ} → Option A → Option A → Option A
first none o = o
first (some a) o = some a

-- The answer of `Timeout()` of the first error in the chain that has the method.
unfoldable pub as_timeout : Error → Option Bool
unfolding first
as_timeout (sentinel deadline_exceeded) = some true
as_timeout (sentinel _) = none
as_timeout (text _) = none
as_timeout (json _) = none
as_timeout (remote r) = r.timeout
as_timeout (remote_of r e) = first r.timeout (as_timeout e)
as_timeout (wrap _ e) = as_timeout e
as_timeout (transient _ t) = some t
as_timeout (transient_of _ t _) = some t
as_timeout (join e f) = first (as_timeout e) (as_timeout f)

-- The answer of `Temporary()` of the first error in the chain that has the method.
unfoldable pub as_temporary : Error → Option Bool
unfolding first
as_temporary (sentinel deadline_exceeded) = some true
as_temporary (sentinel _) = none
as_temporary (text _) = none
as_temporary (json _) = none
as_temporary (remote r) = r.temporary
as_temporary (remote_of r e) = first r.temporary (as_temporary e)
as_temporary (wrap _ e) = as_temporary e
as_temporary (transient _ _) = some true
as_temporary (transient_of _ _ _) = some true
as_temporary (join e f) = first (as_temporary e) (as_temporary f)

-- The answer of `Timeout()` of the first net.Error in the chain, which has both methods.
unfoldable pub as_net_timeout : Error → Option Bool
unfolding first
as_net_timeout (sentinel deadline_exceeded) = some true
as_net_timeout (sentinel _) = none
as_net_timeout (text _) = none
as_net_timeout (json _) = none
as_net_timeout (remote r) = elim r.temporary [ none ↦ none | some _ ↦ r.timeout ]
as_net_timeout (remote_of r e) =
    first (elim r.temporary [ none ↦ none | some _ ↦ r.timeout ]) (as_net_timeout e)
as_net_timeout (wrap _ e) = as_net_timeout e
as_net_timeout (transient _ t) = some t
as_net_timeout (transient_of _ t _) = some t
as_net_timeout (join e f) = first (as_net_timeout e) (as_net_timeout f)

-- The status of the first api.StatusError of the chain.
unfoldable pub as_status : Error → Option ℕ
unfolding first
as_status (sentinel _) = none
as_status (text _) = none
as_status (json _) = none
as_status (remote r) = r.status
as_status (remote_of r e) = first r.status (as_status e)
as_status (wrap _ e) = as_status e
as_status (transient _ _) = none
as_status (transient_of _ _ e) = as_status e
as_status (join e f) = first (as_status e) (as_status f)

-- Whether the chain holds a *net.OpError.
unfoldable pub has_net_op : Error → Bool
has_net_op (sentinel _) = false
has_net_op (text _) = false
has_net_op (json _) = false
has_net_op (remote r) = r.net_op
has_net_op (remote_of r e) = r.net_op || has_net_op e
has_net_op (wrap _ e) = has_net_op e
has_net_op (transient _ _) = false
has_net_op (transient_of _ _ e) = has_net_op e
has_net_op (join e f) = has_net_op e || has_net_op f

module _ {ℓ κ} {A : Type ℓ} {B : Type κ} where
  -- A chain that succeeds passed its first call.
  pub >>=-eq-ok :
      (call : Result A) (rest : A → Result B) {b : B}
      → call >>= rest ≡ ok b
      → (a : A) × (call ≡ ok a) × (rest a ≡ ok b)
  >>=-eq-ok (ok a) rest h = (a, refl, h)
  >>=-eq-ok (err _) rest h = cc
