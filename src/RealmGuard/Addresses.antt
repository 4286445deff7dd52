-- ===== src/RealmGuard/Addresses.antt =====
-- src/realm-guard.js and src/private-realm/scope.js: the ids of a Home scope are private addresses.
use cairnstone_v.Prelude.{
  and-eq-true, and_true, ℕ, String, ◌≡◌, refl, sym, subst, some, Bool, true, false, not, ◌&&◌, ◌||◌,
  string_eq, arith, Option-cases, inl, inr, List, all, In,
}
use cairnstone_v.Prelude.Text.{codes, is_space, lower_codes, strip_prefix, matches_class}
use cairnstone_v.Prelude.Names.{split_colon}
use cairnstone_v.Prelude.Value.{Value, str}
use cairnstone_v.PrivateRealm.Check.{
  HomeScope, home_scope_required, pass, raise, get_or_fail-eq-pass, bind-eq-pass, pass-injective,
}
use cairnstone_v.PrivateRealm.Scope.{
  is_id_char, acct_pattern, ten_pattern, prin_pattern, conn_pattern, matching, ScopeArg, fields,
  assert_home_scope,
}
use cairnstone_v.RealmGuard.{
  starts_with, has_prefix, private_realm_id_prefixes, is_private_address, is_private_realm_actor,
}
use cairnstone_v.RealmGuard.Texts.{IsTight, trim-tight, strip-IsTight, IsLower, strip-starts}

has_prefix-In :
    (text : List ℕ) (p : String) (ps : List String)
    → In p ps
    → starts_with (codes p) text ≡ true
    → has_prefix text ps ≡ true
has_prefix-In text p List.[] i h = absurd i
has_prefix-In text p (List.◌∷◌ q qs) (inl e) h =
    or_left _ _ (subst (λ x. starts_with (codes x) text ≡ true) (sym e) h)
  where
    or_left : (x y : Bool) → x ≡ true → (x || y) ≡ true
    or_left x y p = ground arith
has_prefix-In text p (List.◌∷◌ q qs) (inr i) h = or_right _ _ (has_prefix-In text p qs i h)
  where
    or_right : (x y : Bool) → y ≡ true → (x || y) ≡ true
    or_right x y p = ground arith

prefixed-private :
    (text : List ℕ)
    → has_prefix text private_realm_id_prefixes ≡ true
    → is_private_address text ≡ true
unfolding is_private_address
prefixed-private List.[] h = absurd (false-ne-true h)
  where
    false-ne-true : false ≡ true → ⊥
    false-ne-true h = cc
prefixed-private (List.◌∷◌ c text) h = elim (Option-cases (split_colon (List.◌∷◌ c text))) [
  | inl n ↦ rw (n, is_private_address) h
  | inr ((a, b), e) ↦ rw (e, is_private_address) (or_middle _ _ _ h)
]
  where
    or_middle : (x y z : Bool) → y ≡ true → (x || y || z) ≡ true
    or_middle x y z p = ground arith

id_char-tight : (c : ℕ) → is_id_char c ≡ true → not (is_space c) ≡ true
id_char-tight c h = ground arith

all-tight : (cs : List ℕ) → all is_id_char cs ≡ true → all (λ c. not (is_space c)) cs ≡ true
all-tight List.[] h = refl
all-tight (List.◌∷◌ c cs) h =
    and_true _ _ (id_char-tight c (and-eq-true _ _ h).0) (all-tight cs (and-eq-true _ _ h).1)

-- A text of a class of ids behind one of the reserved prefixes is a private address.
matches-private :
    (prefix : String) (lo hi : ℕ) (s : String)
    → In prefix private_realm_id_prefixes
    → IsTight prefix
    → IsLower prefix
    → matches_class prefix is_id_char lo hi s ≡ true
    → is_private_realm_actor (str s) ≡ true
unfolding matches_class is_private_realm_actor
matches-private prefix lo hi s i tight lower h = elim (Option-cases (strip_prefix prefix s)) [
  | inl n ↦ absurd (false-ne-true (rw (n, matches_class) at h))
  | inr (rest, e) ↦
      let ids : all is_id_char (codes rest) ≡ true = left _ _ (rw (e, matches_class) at h) in
      let kept = trim-tight s (strip-IsTight prefix s rest e tight (all-tight (codes rest) ids)) in
      rw (kept, is_private_realm_actor)
        (prefixed-private (lower_codes (codes s))
          (has_prefix-In _ prefix private_realm_id_prefixes i (strip-starts prefix s rest e lower)))
]
  where
    false-ne-true : false ≡ true → ⊥
    false-ne-true h = cc

    left : (x y : Bool) → (x && y) ≡ true → x ≡ true
    left x y h = ground arith

-- The ids of a scope have the forms of `ID_PATTERNS`.
record HasIds (scope : HomeScope) : Type 0 where
  account : acct_pattern scope.account_id ≡ true
  tenant : ten_pattern scope.tenant_id ≡ true
  principal : prin_pattern scope.principal_id ≡ true
  connection : conn_pattern scope.connection_id ≡ true

matching-pattern : (p : String → Bool) (v : Value) (s : String) → matching p v ≡ some s → p s ≡ true
matching-pattern p v s h = ground arith

assert_home_scope-ids :
    (scope_in : ScopeArg) (scope : HomeScope)
    → assert_home_scope scope_in ≡ pass scope
    → HasIds scope
unfolding assert_home_scope
assert_home_scope-ids ScopeArg.no_object scope h = absurd (raise-ne-pass h)
  where
    raise-ne-pass : raise home_scope_required ≡ pass scope → ⊥
    raise-ne-pass h = cc
assert_home_scope-ids (fields f) scope h =
    let (account, e1, h1) = bind-eq-pass _ _ h in
    let (tenant, e2, h2) = bind-eq-pass _ _ h1 in
    let (principal, e3, h3) = bind-eq-pass _ _ h2 in
    let (connection, e4, h4) = bind-eq-pass _ _ h3 in
    let (_, e5, h5) = bind-eq-pass _ _ h4 in
    let (_, e6, h6) = bind-eq-pass _ _ h5 in
    let (_, e7, h7) = bind-eq-pass _ _ h6 in
    subst HasIds (pass-injective h7) (record {
      account =
          matching-pattern acct_pattern f.account_id account (get_or_fail-eq-pass _ (λ x y. cc) e1);
      tenant =
          matching-pattern ten_pattern f.tenant_id tenant (get_or_fail-eq-pass _ (λ x y. cc) e2);
      principal =
          matching-pattern prin_pattern f.principal_id principal
            (get_or_fail-eq-pass _ (λ x y. cc) e3);
      connection =
          matching-pattern conn_pattern f.connection_id connection
            (get_or_fail-eq-pass _ (λ x y. cc) e4);
    })

-- The ids of a scope, as addresses.
pub record IsReserved (scope : HomeScope) : Type 0 where
  pub account : is_private_realm_actor (str scope.account_id) ≡ true
  pub tenant : is_private_realm_actor (str scope.tenant_id) ≡ true
  pub principal : is_private_realm_actor (str scope.principal_id) ≡ true
  pub connection : is_private_realm_actor (str scope.connection_id) ≡ true

-- Every id of a scope that `assertHomeScope` accepts is an address that the guard reserves: its
-- account, its tenant, its principal and its connection.
pub home_scope-IsReserved :
    (scope_in : ScopeArg) (scope : HomeScope)
    → assert_home_scope scope_in ≡ pass scope
    → IsReserved scope
home_scope-IsReserved scope_in scope h =
    let ids = assert_home_scope-ids scope_in scope h in
    record {
      account =
          matches-private "acct_" 4 60 scope.account_id (inr (inr (inl refl))) refl refl
            ids.account;
      tenant =
          matches-private "ten_" 4 60 scope.tenant_id (inr (inr (inr (inl refl)))) refl refl
            ids.tenant;
      principal =
          matches-private "prin_" 4 60 scope.principal_id (inl refl) refl refl ids.principal;
      connection =
          matches-private "conn_" 4 60 scope.connection_id (inr (inl refl)) refl refl
            ids.connection;
    }
