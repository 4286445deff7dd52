-- ===== src/PrivateRealm/Replay.antt =====
-- src/private-realm/store.js, `send`: the commit of a request that has been committed before.
use cairnstone_v.Prelude.{
  ℕ, String, ◌≡◌, refl, ap, subst, none, some, true, false, ◌&&◌, string_eq, pair_eq, ◌==◌, arith,
  eq_iff, Option-cases, inl, inr, List, [], ◌∷◌,
}
use cairnstone_v.Prelude.Dict.{lookup, lookup-insert, lookup-insert_self}
use cairnstone_v.Prelude.Value.{Value, str}
use cairnstone_v.PrivateRealm.Check.{pass, bind-eq-pass, pass-injective, ◌>>=◌}
use cairnstone_v.PrivateRealm.State.{Inbox, Store}
use cairnstone_v.PrivateRealm.Authority.{
  Outcome, ok, settle, audit, allow, Ctx, check_capability, save,
}
use cairnstone_v.PrivateRealm.Send.{
  Digest, Request, Sent, check_targets, check_commit, commit_send, new_message, with_message,
  fingerprint_of,
}
use cairnstone_v.PrivateRealm.Invariant.{IsWellFormed}
use cairnstone_v.PrivateRealm.Steps.Resolved.{
  Resolved, authorize_scope-Resolved, authorize_scope_complete, check_capability-Permitted,
  check_capability_complete,
}
use cairnstone_v.PrivateRealm.Run.Forever.{settle-eq-ok}

-- The Home of a request once its message is in it.
abbrev delivered_ctx : Digest → ℕ → Request → Ctx → Ctx
delivered_ctx digest now r ctx = record ctx {
  home = with_message now (new_message digest now r ctx.conn.connection_id) r.targets ctx.home;
}

check_capability_again :
    (digest : Digest) (now : ℕ) (r : Request) (ctx : Ctx) (v c : Value) (action : String)
    (p : String × _)
    → check_capability ctx v c action ≡ pass p
    → check_capability (delivered_ctx digest now r ctx) v c action ≡ pass p
unfolding with_message
check_capability_again digest now r ctx v c action (id, inbox) h =
    let (cap, parsed, same, p) = check_capability-Permitted ctx v c action id inbox h in
    check_capability_complete _ v c action cap id inbox parsed same (record {
      found = p.found;
      active = p.active;
      reachable = p.reachable;
      grant = p.grant;
      granted = p.granted;
      live = p.live;
      allowed = p.allowed;
    })

check_targets_again :
    (digest : Digest) (now : ℕ) (r : Request) (ctx : Ctx) (ts : List String)
    → check_targets ctx ts ≡ pass tt
    → check_targets (delivered_ctx digest now r ctx) ts ≡ pass tt
unfolding check_targets ◌>>=◌
check_targets_again digest now r ctx [] h = refl
check_targets_again digest now r ctx (t ∷ ts) h =
    let (p, e, h1) = bind-eq-pass _ _ h in
    rw (check_capability_again digest now r ctx _ _ _ p e)
      (check_targets_again digest now r ctx ts h1)

-- The store that a first commit leaves resolves the same connection to the Home with the message.
delivered-Resolved :
    (digest : Digest) (now : ℕ) (r : Request) (s : Store) (ctx : Ctx)
    → IsWellFormed s
    → Resolved r.scope r.selector s ctx
    → Resolved r.scope r.selector
        (allow now
          (delivered_ctx digest now r ctx).home
          ctx.scope
          "send"
          (some "delivered")
          (save (delivered_ctx digest now r ctx).home s))
        (delivered_ctx digest now r ctx)
unfolding audit with_message save
delivered-Resolved digest now r s ctx w res = record {
  id = res.id;
  indexed = res.indexed;
  found = ground (
    arith,
    lookup-insert ctx.home.home_id res.id (delivered_ctx digest now r ctx).home s.homes,
    w.named res.id ctx.home res.found,
    eq_iff ctx.home.home_id res.id,
  );
  connected = res.connected;
  scoped = res.scoped;
  account = res.account;
  tenant = res.tenant;
  principal = res.principal;
  home_active = res.home_active;
  conn_active = res.conn_active;
  selected = res.selected;
}

-- The answer to a commit that changes nothing.
abbrev replayed : Request → Sent
replayed r = record { message_id = r.message_id; created = false; delivered_to = none }

abbrev delivered_store : Digest → ℕ → Request → Ctx → Store → Store
delivered_store digest now r ctx s =
    allow now (delivered_ctx digest now r ctx).home ctx.scope "send" (some "delivered")
      (save (delivered_ctx digest now r ctx).home s)

same_twice : (x y : String) → (x == x && y == y) ≡ true
same_twice x y = ground (arith, eq_iff x x, eq_iff y y)

message_there :
    (digest : Digest) (now : ℕ) (r : Request) (ctx : Ctx)
    → lookup r.message_id (delivered_ctx digest now r ctx).home.messages
      ≡ some (new_message digest now r ctx.conn.connection_id)
unfolding with_message new_message
message_there digest now r ctx = ground (
  arith,
  lookup-insert_self r.message_id (new_message digest now r ctx.conn.connection_id)
      ctx.home.messages,
)

sender_there :
    (digest : Digest) (now : ℕ) (r : Request) (ctx : Ctx)
    → (new_message digest now r ctx.conn.connection_id).sender_connection_id
      ≡ ctx.conn.connection_id
unfolding new_message
sender_there digest now r ctx = refl

fingerprint_there :
    (digest : Digest) (now : ℕ) (r : Request) (ctx : Ctx)
    → (new_message digest now r ctx.conn.connection_id).fingerprint ≡ fingerprint_of digest r
unfolding new_message
fingerprint_there digest now r ctx = refl

check_commit_again :
    (digest : Digest) (now later : ℕ) (r : Request) (s : Store) (ctx : Ctx) (p : String × Inbox)
    → IsWellFormed s
    → Resolved r.scope r.selector s ctx
    → check_capability ctx (str r.from_inbox_id) (str "send") "send" ≡ pass p
    → check_targets ctx r.targets ≡ pass tt
    → check_commit digest later r (delivered_store digest now r ctx s)
      ≡ pass (
        allow later
            (delivered_ctx digest now r ctx).home
            ctx.scope
            "send"
            (some "idempotent_replay")
            (delivered_store digest now r ctx s),
        replayed r,
      )
unfolding check_commit ◌>>=◌
check_commit_again digest now later r s ctx p w res e t =
    rw
      (
        authorize_scope_complete r.scope r.selector "send" _ _
            (delivered-Resolved digest now r s ctx w res),
        check_capability_again digest now r ctx _ _ _ p e,
        check_targets_again digest now r ctx r.targets t,
        message_there digest now r ctx,
        sender_there digest now r ctx,
        fingerprint_there digest now r ctx,
        same_twice ctx.conn.connection_id (fingerprint_of digest r),
      )
      refl

commit_send-eq-ok :
    (digest : Digest) (now : ℕ) (r : Request) (s : Store) (a : Sent)
    → (commit_send digest now r s).0 ≡ ok a
    → check_commit digest now r s ≡ pass ((commit_send digest now r s).1, a)
unfolding commit_send
commit_send-eq-ok digest now r s a h = settle-eq-ok now (check_commit digest now r s) s a h

-- A second commit of the request answers without a delivery and leaves the Homes and indexes.
pub record IsReplay (r : Request) (t : Store) (out : Outcome Sent × Store) : Type 0 where
  pub answer : out.0 ≡ ok (replayed r)
  pub homes : out.1.homes ≡ t.homes
  pub accounts : out.1.account_index ≡ t.account_index
  pub connections : out.1.connection_index ≡ t.connection_index

delivered-IsReplay :
    (digest : Digest) (now later : ℕ) (r : Request) (s : Store) (ctx : Ctx) (p : String × Inbox)
    → IsWellFormed s
    → Resolved r.scope r.selector s ctx
    → check_capability ctx (str r.from_inbox_id) (str "send") "send" ≡ pass p
    → check_targets ctx r.targets ≡ pass tt
    → IsReplay r
        (delivered_store digest now r ctx s)
        (commit_send digest later r (delivered_store digest now r ctx s))
unfolding commit_send settle audit
delivered-IsReplay digest now later r s ctx p w res e t =
    rw (check_commit_again digest now later r s ctx p w res e t)
      (record { answer = refl; homes = refl; accounts = refl; connections = refl })

check_commit-IsReplay :
    (digest : Digest) (now later : ℕ) (r : Request) (s s' : Store) (a : Sent)
    → IsWellFormed s
    → check_commit digest now r s ≡ pass (s', a)
    → a.created ≡ true
    → IsReplay r s' (commit_send digest later r s')
unfolding check_commit
check_commit-IsReplay digest now later r s s' a w h new =
    let (ctx, e1, h1) = bind-eq-pass _ _ h in
    let (p, e2, h2) = bind-eq-pass _ _ h1 in
    let (tt, e3, h3) = bind-eq-pass _ _ h2 in
    elim (Option-cases (lookup r.message_id ctx.home.messages)) [
      | inr (m, f) ↦
          let (_, _, h4) = bind-eq-pass _ _ (rw f at h3) in
          absurd (ground (arith, ap (λ (x : Store × Sent). x.1.created) (pass-injective h4)))
      | inl n ↦
          subst (λ t. IsReplay r t (commit_send digest later r t))
            (ap (λ (x : Store × Sent). x.0) (pass-injective (rw n at h3)))
            (delivered-IsReplay digest now later r s ctx p w (authorize_scope-Resolved _ _ _ _ _ e1)
              e2 e3)
    ]

-- Where the commit of a request on a well-formed store has created the message, a second commit of
-- the request, at any later moment, succeeds with `created` false and leaves every Home and both
-- indexes as they are.
pub commit_send-IsReplay :
    (digest : Digest) (now later : ℕ) (r : Request) (s : Store) (a : Sent)
    → IsWellFormed s
    → (commit_send digest now r s).0 ≡ ok a
    → a.created ≡ true
    → IsReplay r
        (commit_send digest now r s).1
        (commit_send digest later r (commit_send digest now r s).1)
commit_send-IsReplay digest now later r s a w h new =
    check_commit-IsReplay digest now later r s _ a w (commit_send-eq-ok digest now r s a h) new
