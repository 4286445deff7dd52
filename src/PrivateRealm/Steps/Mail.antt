-- ===== src/PrivateRealm/Steps/Mail.antt =====
-- Each operation on mail that succeeds is one step of its caller.
use cairnstone_v.Prelude.{
  ℕ, String, ◌≡◌, subst, some, string_eq, pair_eq, arith, Option-cases, Bool-cases, inl, inr, List,
  [], ◌∷◌, All,
}
use cairnstone_v.Prelude.Dict.{lookup}
use cairnstone_v.Prelude.Value.{Value, str}
use cairnstone_v.PrivateRealm.Check.{pass, bind-eq-pass}
use cairnstone_v.PrivateRealm.Scope.{ScopeArg, SelectorArg}
use cairnstone_v.PrivateRealm.State.{Verdict, Store}
use cairnstone_v.PrivateRealm.Authority.{Ctx}
use cairnstone_v.PrivateRealm.Send.{
  Digest, Request, Sent, check_targets, check_commit, new_message, with_message,
}
use cairnstone_v.PrivateRealm.Mailbox.{
  Header, Letter, Acked, check_list_inbox, check_read_inbox, limit_of, check_ack, with_ack,
  is_acked,
}
use cairnstone_v.PrivateRealm.Steps.{IsOpen, Step, noted, touched, delivery, reading, acking}
use cairnstone_v.PrivateRealm.Steps.Resolved.{authorize_scope-Resolved, check_capability-Permitted}
use cairnstone_v.PrivateRealm.Steps.Acted.{Acted, pass-fst, Acted-touched, Acted-noted}

-- Every target of a message that passes is an inbox of the Home.
check_targets-IsOpen :
    (ctx : Ctx) (ts : List String) (u : Unit {0})
    → check_targets ctx ts ≡ pass u
    → All (IsOpen ctx.home) ts
unfolding check_targets
check_targets-IsOpen ctx [] u h = tt
check_targets-IsOpen ctx (t ∷ ts) u h =
    let ((id, inbox), e1, h1) = bind-eq-pass _ _ h in
    let (c, _, same, p) = check_capability-Permitted ctx (str t) (str "send") "send" id inbox e1 in
    (record { inbox = inbox; found = ground arith }, check_targets-IsOpen ctx ts u h1)

pub commit-Step :
    (digest : Digest) (now : ℕ) (r : Request) (s s' : Store) (a : Sent)
    → check_commit digest now r s ≡ pass (s', a)
    → Step r.scope.connection_id s s'
unfolding check_commit with_message new_message
commit-Step digest now r s s' a h =
    let (ctx, e1, h1) = bind-eq-pass _ _ h in
    let (_, e2, h2) = bind-eq-pass _ _ h1 in
    let (u, e3, h3) = bind-eq-pass _ _ h2 in
    let res = authorize_scope-Resolved _ _ _ _ _ e1 in
    elim (Option-cases (lookup r.message_id ctx.home.messages)) [
      | inr (m, f) ↦
          let (_, _, h4) = bind-eq-pass _ _ (rw f at h3) in
          subst (Step r.scope.connection_id s) (pass-fst h4) (
            noted now (some ctx.home.home_id) ctx.scope "send" Verdict.allow
              (some "idempotent_replay"))
      | inl n ↦ subst (Step r.scope.connection_id s) (pass-fst (rw n at h3)) (
          touched now res.id ctx.home _ ctx.scope "send" (some "delivered") res.indexed res.found (
            delivery (new_message digest now r ctx.conn.connection_id) r.targets n
              (check_targets-IsOpen ctx r.targets u e3)))
    ]

pub list_inbox-Acted :
    (now : ℕ) (scope_in : ScopeArg) (inbox limit : Value) (selector : SelectorArg) (s s' : Store)
    (a : List Header)
    → check_list_inbox now scope_in inbox limit selector s ≡ pass (s', a)
    → Acted scope_in s s'
unfolding check_list_inbox
list_inbox-Acted now scope_in inbox limit selector s s' a h =
    let (ctx, e1, h1) = bind-eq-pass _ _ h in
    let (_, e2, h2) = bind-eq-pass _ _ h1 in
    let (_, e3, h3) = bind-eq-pass _ _ h2 in
    subst (Acted scope_in s) (pass-fst h3) (Acted-noted _ _ e1 now _)

pub read_inbox-Acted :
    (now : ℕ) (scope_in : ScopeArg) (inbox limit : Value) (selector : SelectorArg) (s s' : Store)
    (a : List Letter)
    → check_read_inbox now scope_in inbox limit selector s ≡ pass (s', a)
    → Acted scope_in s s'
unfolding check_read_inbox
read_inbox-Acted now scope_in inbox limit selector s s' a h =
    let (ctx, e1, h1) = bind-eq-pass _ _ h in
    let (found, e2, h2) = bind-eq-pass _ _ h1 in
    let (r, e3, h3) = bind-eq-pass _ _ h2 in
    subst (Acted scope_in s) (pass-fst h3)
      (Acted-touched _ _ e1 now _ (reading found.0 (limit_of limit) r e3))

pub ack-Acted :
    (now : ℕ) (scope_in : ScopeArg) (inbox message : Value) (selector : SelectorArg) (s s' : Store)
    (a : Acked)
    → check_ack now scope_in inbox message selector s ≡ pass (s', a)
    → Acted scope_in s s'
unfolding check_ack with_ack
ack-Acted now scope_in inbox message selector s s' a h =
    let (ctx, e1, h1) = bind-eq-pass _ _ h in
    let (ib, e2, h2) = bind-eq-pass _ _ h1 in
    let (d, e3, h3) = bind-eq-pass _ _ h2 in
    elim (Bool-cases (is_acked d.1)) [
      | inl t ↦ subst (Acted scope_in s) (pass-fst (rw t at h3)) (Acted-noted _ _ e1 now _)
      | inr f ↦
          subst (Acted scope_in s) (pass-fst (rw f at h3))
            (Acted-touched _ _ e1 now _ (acking (d.0, ib.0) d.1 (ground arith) (ground arith)))
    ]
