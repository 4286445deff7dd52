-- ===== src/PrivateRealm/Check.antt =====
-- src/private-realm/scope.js, store.js: scopes, error codes, and checks that pass, deny or throw.
use cairnstone_v.Prelude.{String, ◌≡◌, ◌≢◌, refl, Option, none, some, Bool, true, false}

pub data Role : Type 0 where
  admin member : Role

-- A verified `HomeScope`.
pub record HomeScope : Type 0 where
  pub account_id : String
  pub tenant_id : String
  pub principal_id : String
  pub connection_id : String
  pub home_role : Role
  pub provider_label : String

-- The codes of `PrivateRealmError` that are thrown without an audit row. `type_error` is the
-- JavaScript TypeError of a read through `undefined`.
pub data RealmError : Type 0 where
  home_scope_required invalid_account_id invalid_tenant_id invalid_principal_id : RealmError
  invalid_connection_id invalid_home_role invalid_provider_label : RealmError
  scope_must_not_carry_selectors invalid_selector invalid_inbox_scope invalid_options : RealmError
  invalid_plane invalid_label invalid_inbox_id invalid_caps invalid_message_id : RealmError
  invalid_thread_id invalid_body invalid_recipients type_error : RealmError

-- The two codes that `denyAuth` and `denyCapability` throw.
pub data DenyCode : Type 0 where
  scope_not_authorized capability_denied : DenyCode

-- What a refused call writes to the audit log, and the code that its caller sees.
pub record Denial : Type 0 where
  pub home_id : Option String
  pub scope : HomeScope
  pub action : String
  pub reason : String
  pub code : DenyCode

-- Every denial and every throw of the store comes before the first write of its operation: a check
-- carries no state.
pub data Check (A : Type 0) : Type 0 where
  pass : A → Check A
  deny : Denial → Check A
  raise : RealmError → Check A

infixl 5 ◌>>=◌ ◌>>◌
unfoldable pub ◌>>=◌ : {A B : Type 0} → Check A → (A → Check B) → Check B
pass a >>= f = f a
deny d >>= f = deny d
raise e >>= f = raise e

abbrev pub ◌>>◌ : {A B : Type 0} → Check A → Check B → Check B
m >> k = m >>= λ _. k

-- `if (!test) throw ...`
abbrev pub require : Bool → Check (Unit {0}) → Check (Unit {0})
require true failure = pass tt
require false failure = failure

-- `if (!value) throw ...`, with the value.
abbrev pub get_or_fail : {A : Type 0} → Option A → Check A → Check A
get_or_fail (some a) failure = pass a
get_or_fail none failure = failure

-- A chain that passes passed at each step.
pub bind-eq-pass :
    {A B : Type 0} (m : Check A) (f : A → Check B) {b : B}
    → (m >>= f) ≡ pass b
    → (a : A) × (m ≡ pass a) × (f a ≡ pass b)
unfolding ◌>>=◌
bind-eq-pass (pass a) f h = (a, refl, h)
bind-eq-pass (deny d) f h = cc
bind-eq-pass (raise e) f h = cc

pub then-eq-pass :
    {A B : Type 0} (m : Check A) (k : Check B) {b : B}
    → (m >> k) ≡ pass b
    → ((a : A) × (m ≡ pass a)) × (k ≡ pass b)
unfolding ◌>>=◌
then-eq-pass (pass a) k h = ((a, refl), h)
then-eq-pass (deny d) k h = cc
then-eq-pass (raise e) k h = cc

pub require-eq-pass :
    {b : Bool} (failure : Check (Unit {0}))
    → failure ≢ pass tt
    → require b failure ≡ pass tt
    → b ≡ true
require-eq-pass {b = true} failure n h = refl
require-eq-pass {b = false} failure n h = absurd (n h)

pub get_or_fail-eq-pass :
    {A : Type 0} {o : Option A} (failure : Check A) {a : A}
    → ((x : A) → failure ≢ pass x)
    → get_or_fail o failure ≡ pass a
    → o ≡ some a
get_or_fail-eq-pass {o = some x} failure n h = cc
get_or_fail-eq-pass {o = none} failure {a} n h = absurd (n a h)

pub pass-injective : {A : Type 0} {a b : A} → pass a ≡ pass b → a ≡ b
pass-injective h = cc

-- A chain throws where one of its steps does.
pub bind-ne-raise :
    {A B : Type 0} (m : Check A) (f : A → Check B) (e : RealmError)
    → m ≢ raise e
    → ((a : A) → m ≡ pass a → f a ≢ raise e)
    → (m >>= f) ≢ raise e
unfolding ◌>>=◌
bind-ne-raise (pass a) f e n k = k a refl
bind-ne-raise (deny d) f e n k = λ h. cc
bind-ne-raise (raise x) f e n k = λ h. n (cc)
