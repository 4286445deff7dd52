-- ===== src/PrivateRealm/Access.antt =====
-- Who may act: the authority checks of the store against a description of access that does not run
-- them.
use cairnstone_v.Prelude.{
  ℕ, String, ◌≡◌, ◌≢◌, refl, sym, ◌∙◌, subst₂, Option, some, true, false, ◌⊎◌, inl, inr, arith,
  string_eq, Option-cases,
}
use cairnstone_v.Prelude.Dict.{lookup}
use cairnstone_v.Prelude.Value.{Value}
use cairnstone_v.PrivateRealm.Check.{
  HomeScope, RealmError, Denial, scope_not_authorized, Check, pass, deny, raise, bind-eq-pass,
  pass-injective, bind-ne-raise, ◌>>=◌,
}
use cairnstone_v.PrivateRealm.Scope.{
  ScopeArg, SelectorArg, assert_home_scope, assert_selector, ibx_pattern, matching,
}
use cairnstone_v.PrivateRealm.State.{Capability, Inbox, Store}
use cairnstone_v.PrivateRealm.Authority.{
  ok, Ctx, authorize_scope, authorize, check_capability, parse_capability, audit_denial,
}
use cairnstone_v.PrivateRealm.Grants.{can, check_can}
use cairnstone_v.PrivateRealm.Invariant.{IsWellFormed}
use cairnstone_v.PrivateRealm.Steps.Resolved.{
  Resolved, Permitted, authorize_scope-Resolved, authorize_scope_complete,
  check_capability-Permitted, check_capability_complete,
}

pub Check-cases :
    {A : Type 0} (m : Check A)
    → ((a : A) × (m ≡ pass a)) ⊎ ((d : Denial) × (m ≡ deny d)) ⊎ ((e : RealmError) × (m ≡ raise e))
Check-cases (pass a) = inl (a, refl)
Check-cases (deny d) = inr (inl (d, refl))
Check-cases (raise e) = inr (inr (e, refl))

authorize_scope-denied :
    (scope : HomeScope) (selector : Option String) (action : String) (s : Store) (d : Denial)
    → authorize_scope scope selector action s ≡ deny d
    → d.code ≡ scope_not_authorized
unfolding authorize_scope ◌>>=◌
authorize_scope-denied scope selector action s d h = ground arith

authorize_scope-ne-raise :
    (scope : HomeScope) (selector : Option String) (action : String) (s : Store) (e : RealmError)
    → IsWellFormed s
    → authorize_scope scope selector action s ≢ raise e
unfolding authorize_scope ◌>>=◌
authorize_scope-ne-raise scope selector action s e w h =
    elim (Option-cases (lookup scope.connection_id s.connection_index)) [
      | inl n ↦ ground arith
      | inr (id, f) ↦ ground (arith, w.indexed scope.connection_id id)
    ]

check_capability-ne-raise :
    (ctx : Ctx) (inbox_arg capability_arg : Value) (action : String) (e : RealmError)
    → check_capability ctx inbox_arg capability_arg action ≢ raise e
unfolding check_capability ◌>>=◌
check_capability-ne-raise ctx inbox_arg capability_arg action e h = ground arith

-- On a well-formed store `authorize` of a verified scope and selector gives a context or a denial
-- whose code is `scope_not_authorized`, and throws nothing else.
pub authorize_scope_uniform :
    (scope : HomeScope) (selector : Option String) (action : String) (s : Store)
    → IsWellFormed s
    → ((ctx : Ctx) × (authorize_scope scope selector action s ≡ pass ctx))
      ⊎ ((d : Denial) × (authorize_scope scope selector action s ≡ deny d)
          × (d.code ≡ scope_not_authorized))
authorize_scope_uniform scope selector action s w =
    elim (Check-cases (authorize_scope scope selector action s)) [
      | inl p ↦ inl p
      | inr (inl (d, e)) ↦ inr (d, e, authorize_scope-denied scope selector action s d e)
      | inr (inr (e, h)) ↦ absurd (authorize_scope-ne-raise scope selector action s e w h)
    ]

-- A verified scope whose connection stands, active, in an active Home of its account, tenant and
-- principal, and holds a live grant of the capability on an inbox that it may reach.
pub record HasAccess (scope : HomeScope) (selector : Option String)
    (inbox_arg capability_arg : Value) (s : Store) : Type 0 where
  pub ctx : Ctx
  pub resolved : Resolved scope selector s ctx
  pub capability : Capability
  pub named : parse_capability capability_arg ≡ some capability
  pub id : String
  pub inbox_named : matching ibx_pattern inbox_arg ≡ some id
  pub inbox : Inbox
  pub permitted : Permitted ctx capability id inbox

module _ (now : ℕ) (scope_in : ScopeArg) (scope : HomeScope) (selector_in : SelectorArg)
    (selector : Option String) (inbox_arg capability_arg : Value) (s : Store)
    (verified : assert_home_scope scope_in ≡ pass scope)
    (selected : assert_selector selector_in ≡ pass selector) where
  check_can-HasAccess :
      (found : String × Inbox)
      → check_can scope_in inbox_arg capability_arg selector_in s ≡ pass found
      → HasAccess scope selector inbox_arg capability_arg s
  unfolding check_can authorize
  check_can-HasAccess (id, inbox) h =
      let (ctx, e1, h1) = bind-eq-pass _ _ h in
      let (sc, e2, h2) = bind-eq-pass _ _ e1 in
      let (sel, e3, h3) = bind-eq-pass _ _ h2 in
      let (c, named, inbox_named, p) =
        check_capability-Permitted ctx inbox_arg capability_arg _ id inbox h1 in
      record {
        ctx = ctx;
        resolved =
            subst₂ (λ (x : HomeScope) (y : Option String). Resolved x y s ctx)
              (pass-injective (sym e2 ∙ verified)) (pass-injective (sym e3 ∙ selected))
              (authorize_scope-Resolved sc sel _ s ctx h3);
        capability = c;
        named = named;
        id = id;
        inbox_named = inbox_named;
        inbox = inbox;
        permitted = p;
      }

  check_can_complete :
      (a : HasAccess scope selector inbox_arg capability_arg s)
      → check_can scope_in inbox_arg capability_arg selector_in s ≡ pass (a.id, a.inbox)
  unfolding check_can authorize ◌>>=◌
  check_can_complete a =
      rw (verified, selected, authorize_scope_complete scope selector _ s a.ctx a.resolved)
        (check_capability_complete a.ctx inbox_arg capability_arg _ a.capability a.id a.inbox
          a.named a.inbox_named a.permitted)

  check_can-ne-raise :
      (e : RealmError)
      → IsWellFormed s
      → check_can scope_in inbox_arg capability_arg selector_in s ≢ raise e
  unfolding check_can authorize
  check_can-ne-raise e w =
      bind-ne-raise _ _ e
        (bind-ne-raise _ _ e (λ h. cc verified)
          (λ sc e1.
            bind-ne-raise _ _ e (λ h. cc selected)
              (λ sel e2. authorize_scope-ne-raise sc sel _ s e w)))
        (λ ctx e3. check_capability-ne-raise ctx inbox_arg capability_arg _ e)

  -- In a well-formed store, for a scope and a selector of the right form, `can` is total and exact:
  -- it answers true, and leaves the store as it was, where the scope has access; where it has none
  -- it answers false and leaves one audit row of the denial, whatever the reason.
  pub can_exact :
      IsWellFormed s
      → (HasAccess scope selector inbox_arg capability_arg s
          × (can now scope_in inbox_arg capability_arg selector_in s ≡ (ok true, s)))
        ⊎ ((¬ HasAccess scope selector inbox_arg capability_arg s)
            × ((d : Denial) × (can now scope_in inbox_arg capability_arg selector_in s
                  ≡ (ok false, audit_denial now d s))))
  unfolding can
  can_exact w = elim (Check-cases (check_can scope_in inbox_arg capability_arg selector_in s)) [
    | inl (found, p) ↦ inl (check_can-HasAccess found p, rw p)
    | inr (inl (d, e)) ↦ inr ((λ a. cc (check_can_complete a)), (d, rw e))
    | inr (inr (e, h)) ↦ absurd (check_can-ne-raise e w h)
  ]
