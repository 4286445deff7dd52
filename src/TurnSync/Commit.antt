-- ===== src/TurnSync/Commit.antt =====
-- src/turnsync-policy.js, `turnSyncPolicySetFromBody`: what a write has before its statement.
use cairnstone_v.Prelude.{
  ℕ, ◌≡◌, refl, ◌∙◌, ap, subst, Option, none, some, true, string_eq, arith, Bool-cases, inl, inr,
  nat_eqb,
}
use cairnstone_v.Prelude.Result.{ok, bind-eq-ok, ok-injective, fail-ne-ok}
use cairnstone_v.TurnSync.Policy.{PolicyRow}
use cairnstone_v.TurnSync.Active.{IsActive, active_context-IsActive}
use cairnstone_v.TurnSync.Requests.{IsRequest, normalize_policy_write-IsRequest}
use cairnstone_v.TurnSync.Stored.{
  AuthContext, Database, Table, PolicyWrite, SetBody, Pending, inserting, updating, active_context,
  normalize_policy_write, find_policy, decide, begin_set,
}

-- The statement that a write has decided on is the one for what it has read.
abbrev pub IsDecided : AuthContext → PolicyWrite → Table → Pending → Type 0
IsDecided a w t (inserting b v) =
    (b ≡ a) × (v ≡ w) × (find_policy a w.scope t ≡ none) × (w.base_revision ≡ none)
IsDecided a w t (updating b v id base) =
    (b ≡ a)
    × (v ≡ w)
    × ((row : PolicyRow) × (find_policy a w.scope t ≡ some row)
        × (row.policy_id ≡ id)
        × (row.revision ≡ base))
    × (w.base_revision ≡ some base)

pub record IsCommitted (auth : Option AuthContext) (b : SetBody) (db : Database) (p : Pending)
    : Type 0 where
  pub human : b.human_commit ≡ true
  pub account : AuthContext
  pub active : active_context auth db ≡ ok account
  pub connection : IsActive auth db account
  pub write : PolicyWrite
  pub normal : normalize_policy_write b ≡ ok write
  pub request : IsRequest b write
  pub decided : IsDecided account write db.policies p

decide-IsDecided :
    (a : AuthContext) (w : PolicyWrite) (t : Table) (found : Option PolicyRow) (base : Option ℕ)
    (p : Pending)
    → find_policy a w.scope t ≡ found
    → w.base_revision ≡ base
    → decide a w found base ≡ ok p
    → IsDecided a w t p
decide-IsDecided a w t none none p f e h =
    subst (IsDecided a w t) (ok-injective h) (refl, refl, f, e)
decide-IsDecided a w t none (some n) p f e h = fail-ne-ok h
decide-IsDecided a w t (some row) none p f e h = fail-ne-ok h
decide-IsDecided a w t (some row) (some n) p f e h = elim (Bool-cases (nat_eqb n row.revision)) [
  | inr d ↦ fail-ne-ok (rw (d, decide) at h)
  | inl y ↦
      let same : n ≡ row.revision = ground arith in
      subst (IsDecided a w t) (ok-injective (rw (y, decide) at h))
        (refl, refl, (row, f, refl, refl), e ∙ ap some same)
]

-- A write comes to its statement only with the human's confirmation, for an account with an active
-- connection that is stored, and says what its request spells: scope, mode, payload and a positive
-- revision or none. It inserts where its account has no policy of the scope and no revision was named,
-- and it updates the policy of its account and scope where the revision that was named is the one it
-- has.
pub begin_set-IsCommitted :
    (auth : Option AuthContext) (b : SetBody) (db : Database) (p : Pending)
    → begin_set auth b db ≡ ok p
    → IsCommitted auth b db p
unfolding begin_set
begin_set-IsCommitted auth b db p h =
    let (_, e0, h0) = bind-eq-ok _ _ h in
    let (w, e1, h1) = bind-eq-ok _ _ h0 in
    let (a, e2, h2) = bind-eq-ok _ _ h1 in
    record {
      human = ground arith;
      account = a;
      active = e2;
      connection = active_context-IsActive auth db a e2;
      write = w;
      normal = e1;
      request = normalize_policy_write-IsRequest b w e1;
      decided =
          decide-IsDecided a w db.policies (find_policy a w.scope db.policies) w.base_revision p
            refl refl h2;
    }
