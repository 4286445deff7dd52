-- ===== src/PrivateRealm/Run/Moves.antt =====
-- What any call does to the store: nothing, an audit row of a refusal, or a step of its caller.
use cairnstone_v.Prelude.{ℕ, String, ◌≡◌, refl, subst, arith, string_eq}
use cairnstone_v.PrivateRealm.Check.{HomeScope, Denial, Check, pass, deny, raise, ◌>>=◌}
use cairnstone_v.PrivateRealm.Scope.{ScopeArg, assert_home_scope}
use cairnstone_v.PrivateRealm.State.{Store, Inbox, Home}
use cairnstone_v.PrivateRealm.Authority.{settle, audit_denial, audit}
use cairnstone_v.PrivateRealm.Attach.{ensure_default_home}
use cairnstone_v.PrivateRealm.Connections.{set_connection_role, revoke_connection, resolve_home}
use cairnstone_v.PrivateRealm.Inboxes.{create_inbox, list_inboxes}
use cairnstone_v.PrivateRealm.Grants.{grant_inbox, revoke_grant, can, answer}
use cairnstone_v.PrivateRealm.Send.{Digest, begin_send, commit_send, Request, with_store}
use cairnstone_v.PrivateRealm.Mailbox.{list_inbox, read_inbox, ack_message}
use cairnstone_v.PrivateRealm.Steps.{Step}
use cairnstone_v.PrivateRealm.Steps.Acted.{Acted}
use cairnstone_v.PrivateRealm.Steps.Calls.{
  set_role-Acted, revoke_connection-Acted, resolve_home-Acted, list_inboxes-Acted,
  create_inbox-Acted, grant_inbox-Acted, revoke_grant-Acted, ensure_default_home-Acted,
}
use cairnstone_v.PrivateRealm.Steps.Mail.{
  commit-Step, list_inbox-Acted, read_inbox-Acted, ack-Acted,
}
use cairnstone_v.PrivateRealm.Run.{
  Call, ensure, resolve, set_role, revoke, create, inboxes, give, take_back, probe, begin, commit,
  headers, letters, acknowledge, apply, caller_of, IsFresh, Later, here, next, Reachable,
  empty_store,
}
use cairnstone_v.PrivateRealm.Invariant.{IsWellFormed}
use cairnstone_v.PrivateRealm.Invariant.Stores.{Step-IsWellFormed}
use cairnstone_v.Prelude.Dict.{lookup-nil}

pub data Moved (caller : Check HomeScope) (s : Store) : Store → Type 0 where
  still : Moved caller s s
  refused : (now : ℕ) (d : Denial) → Moved caller s (audit_denial now d s)
  acted :
      {s' : Store} (scope : HomeScope)
      → caller ≡ pass scope
      → Step scope.connection_id s s'
      → Moved caller s s'

settle-Moved :
    {A : Type 0} (caller : Check HomeScope) (now : ℕ) (m : Check (Store × A)) (s : Store)
    → ((s' : Store) (a : A) → m ≡ pass (s', a) → Moved caller s s')
    → Moved caller s (settle now m s).1
unfolding settle
settle-Moved caller now (pass (s', a)) s k = k s' a refl
settle-Moved caller now (deny d) s k = refused now d
settle-Moved caller now (raise e) s k = still

of_Acted :
    {scope_in : ScopeArg} {s s' : Store}
    → Acted scope_in s s'
    → Moved (assert_home_scope scope_in) s s'
of_Acted a = acted a.scope a.verified a.step

-- The first part of `send` reads only.
with_store-fst :
    {s s' : Store} {r : Request} (m : Check Request) → with_store s m ≡ pass (s', r) → s ≡ s'
unfolding ◌>>=◌
with_store-fst (pass r) h = ground arith
with_store-fst (deny d) h = cc
with_store-fst (raise e) h = cc

answer-Moved :
    (caller : Check HomeScope) (now : ℕ) (m : Check (String × Inbox)) (s : Store)
    → Moved caller s (answer now m s).1
answer-Moved caller now (pass found) s = still
answer-Moved caller now (deny d) s = refused now d
answer-Moved caller now (raise e) s = still

pub apply-Moved :
    (digest : Digest) (c : Call) (s : Store)
    → IsFresh c s
    → Moved (caller_of c) s (apply digest c s)
unfolding apply ensure_default_home set_connection_role revoke_connection resolve_home create_inbox
    list_inboxes grant_inbox revoke_grant can begin_send commit_send list_inbox read_inbox
    ack_message
apply-Moved digest (ensure now minted scope_in) s fresh =
    settle-Moved _ now _ s
      (λ s' a h. of_Acted (ensure_default_home-Acted now minted scope_in s s' a fresh h))
apply-Moved digest (resolve now scope_in sel) s fresh =
    settle-Moved _ now _ s (λ s' a h. of_Acted (resolve_home-Acted now scope_in sel s s' a h))
apply-Moved digest (set_role now scope_in target role sel) s fresh =
    settle-Moved _ now _ s
      (λ s' a h. of_Acted (set_role-Acted now scope_in target role sel s s' a h))
apply-Moved digest (revoke now scope_in target sel) s fresh =
    settle-Moved _ now _ s
      (λ s' a h. of_Acted (revoke_connection-Acted now scope_in target sel s s' a h))
apply-Moved digest (create now minted scope_in o sel) s fresh =
    settle-Moved _ now _ s
      (λ s' a h. of_Acted (create_inbox-Acted now minted scope_in o sel s s' a h))
apply-Moved digest (inboxes now scope_in sel) s fresh =
    settle-Moved _ now _ s (λ s' a h. of_Acted (list_inboxes-Acted now scope_in sel s s' a h))
apply-Moved digest (give now scope_in inbox target wanted sel) s fresh =
    settle-Moved _ now _ s
      (λ s' a h. of_Acted (grant_inbox-Acted now scope_in inbox target wanted sel s s' a h))
apply-Moved digest (take_back now scope_in inbox target sel) s fresh =
    settle-Moved _ now _ s
      (λ s' a h. of_Acted (revoke_grant-Acted now scope_in inbox target sel s s' a h))
apply-Moved digest (probe now scope_in inbox capability sel) s fresh = answer-Moved _ now _ s
apply-Moved digest (begin now scope_in o sel) s fresh =
    settle-Moved _ now _ s (λ s' a h. subst (Moved _ s) (with_store-fst _ h) still)
apply-Moved digest (commit now r) s fresh =
    settle-Moved _ now _ s (λ s' a h. acted r.scope refl (commit-Step digest now r s s' a h))
apply-Moved digest (headers now scope_in inbox limit sel) s fresh =
    settle-Moved _ now _ s
      (λ s' a h. of_Acted (list_inbox-Acted now scope_in inbox limit sel s s' a h))
apply-Moved digest (letters now scope_in inbox limit sel) s fresh =
    settle-Moved _ now _ s
      (λ s' a h. of_Acted (read_inbox-Acted now scope_in inbox limit sel s s' a h))
apply-Moved digest (acknowledge now scope_in inbox message sel) s fresh =
    settle-Moved _ now _ s (λ s' a h. of_Acted (ack-Acted now scope_in inbox message sel s s' a h))

refused-IsWellFormed :
    (now : ℕ) (d : Denial) {s : Store} → IsWellFormed s → IsWellFormed (audit_denial now d s)
unfolding audit_denial audit
refused-IsWellFormed now d w = record {
  named = w.named;
  sound = w.sound;
  indexed = w.indexed;
  unique = w.unique;
  accounts = w.accounts;
  registered = w.registered;
}

pub Moved-IsWellFormed :
    {caller : Check HomeScope} {s s' : Store} → Moved caller s s' → IsWellFormed s → IsWellFormed s'
Moved-IsWellFormed still w = w
Moved-IsWellFormed (refused now d) w = refused-IsWellFormed now d w
Moved-IsWellFormed (acted scope e st) w = Step-IsWellFormed st w

pub Later-IsWellFormed :
    {digest : Digest} {s t : Store} → IsWellFormed s → Later digest s t → IsWellFormed t
Later-IsWellFormed w here = w
Later-IsWellFormed {digest} w (next {t} l c fresh) =
    Moved-IsWellFormed (apply-Moved digest c t fresh) (Later-IsWellFormed w l)

empty_store-IsWellFormed : IsWellFormed empty_store
unfolding empty_store
empty_store-IsWellFormed = record {
  named = λ id h e. ground (arith, lookup-nil {V = Home} id);
  sound = λ id h e. absurd (ground (arith, lookup-nil {V = Home} id));
  indexed = λ c id e. ground (arith, lookup-nil {V = String} c);
  unique = λ c id e. ground (arith, lookup-nil {V = Home} id);
  accounts = λ a id e. ground (arith, lookup-nil {V = String} a);
  registered = λ id h e. ground (arith, lookup-nil {V = Home} id);
}

-- Whatever calls the store has taken, and in whatever order, it is well-formed, provided that each
-- minted Home id was new: every connection stands in the one Home of its index entry, every account
-- entry names a Home of that account, every grant in force is held by an active connection on an
-- inbox that is not another connection's private one, and every delivery has its message.
pub Reachable-IsWellFormed : (digest : Digest) (s : Store) → Reachable digest s → IsWellFormed s
Reachable-IsWellFormed digest s r = Later-IsWellFormed empty_store-IsWellFormed r
