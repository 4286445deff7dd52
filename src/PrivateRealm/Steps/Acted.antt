-- ===== src/PrivateRealm/Steps/Acted.antt =====
-- A call that succeeds has acted: it leaves what one step of its caller leaves.
use cairnstone_v.Prelude.{ℕ, String, ◌≡◌, Option, some, string_eq, pair_eq, arith}
use cairnstone_v.PrivateRealm.Check.{HomeScope, Check, pass}
use cairnstone_v.PrivateRealm.Scope.{ScopeArg, SelectorArg, assert_home_scope}
use cairnstone_v.PrivateRealm.State.{Home, Verdict, Store}
use cairnstone_v.PrivateRealm.Authority.{Ctx, allow, authorize, save}
use cairnstone_v.PrivateRealm.Steps.{Step, noted, touched, HomeStep}
use cairnstone_v.PrivateRealm.Steps.Resolved.{authorize-Resolved}

-- The call leaves what one step of its caller leaves.
pub record Acted (scope_in : ScopeArg) (s s' : Store) : Type 0 where
  pub scope : HomeScope
  pub verified : assert_home_scope scope_in ≡ pass scope
  pub step : Step scope.connection_id s s'

-- The store that a passing check hands over.
pub pass-fst :
    {A : Type 0} {s s' : Store} {a a' : A}
    → ◌≡◌ {A = Check (Store × A)} (pass (s, a)) (pass (s', a'))
    → s ≡ s'
pass-fst h = ground arith

module _ {scope_in : ScopeArg} (selector : SelectorArg) (action : String) {s : Store} {ctx : Ctx}
    (h : authorize scope_in selector action s ≡ pass ctx) where
  pub Acted-touched :
      (now : ℕ) {home' : Home} (reason : Option String)
      → HomeStep now ctx.home home'
      → Acted scope_in s (allow now ctx.home ctx.scope action reason (save home' s))
  Acted-touched now reason st =
      let (scope, selector, e, _, r) = authorize-Resolved _ _ _ _ _ h in
      record {
        scope = scope;
        verified = e;
        step = touched now r.id ctx.home _ ctx.scope action reason r.indexed r.found st;
      }

  pub Acted-noted :
      (now : ℕ) (reason : Option String)
      → Acted scope_in s (allow now ctx.home ctx.scope action reason s)
  Acted-noted now reason =
      let (scope, selector, e, _, r) = authorize-Resolved _ _ _ _ _ h in
      record {
        scope = scope;
        verified = e;
        step = noted now (some ctx.home.home_id) ctx.scope action Verdict.allow reason;
      }
