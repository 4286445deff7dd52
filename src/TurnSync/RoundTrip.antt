-- ===== src/TurnSync/RoundTrip.antt =====
-- src/turnsync-policy.js: a write whose statement follows its read is what is read next.
use cairnstone_v.Prelude.{
  ℕ, String, ◌≡◌, refl, subst₂, Option, none, some, true, false, string_eq, arith, nat_eqb,
}
use cairnstone_v.Prelude.Dict.{lookup, insert}
use cairnstone_v.Prelude.Result.{Result, ok}
use cairnstone_v.TurnSync.Policy.{PolicyRow, Candidate}
use cairnstone_v.TurnSync.Stored.{
  AuthContext, Database, Table, PolicyError, PolicyWrite, SetBody, Pending, inserting, updating,
  Written, is_at, find_policy, active_context, normalize_policy_write, begin_set, new_policy,
  revised, finish_set,
}
use cairnstone_v.TurnSync.Commit.{IsDecided, begin_set-IsCommitted}
use cairnstone_v.TurnSync.Tables.{
  IsTable, IsTable-insert, find-append, find-replace, find-is_at, new_policy-is_at, find-lookup,
}

-- The statement succeeds, and the account's policy of the scope is what the write says.
pub record IsWritten (a : AuthContext) (w : PolicyWrite)
    (result : Result PolicyError Written × Table) : Type 0 where
  pub out : Written
  pub succeeds : result.0 ≡ ok out
  pub row : PolicyRow
  pub found : find_policy a w.scope result.1 ≡ some row
  pub mode : row.mode ≡ w.mode
  pub payload_mode : row.payload_mode ≡ w.payload_mode
  pub principal : row.updated_by_principal_id ≡ a.principal_id
  pub table : IsTable result.1

inserted-IsWritten :
    (minted now : String) (a : AuthContext) (w : PolicyWrite) (t : Table)
    → IsTable t
    → lookup minted t ≡ none
    → find_policy a w.scope t ≡ none
    → IsWritten a w (finish_set minted now (inserting a w) t)
unfolding finish_set new_policy
inserted-IsWritten minted now a w t ok_table n f =
    rw (n, f, finish_set)
      (record {
        out = record {
          created = true;
          policy = lookup minted (insert minted (new_policy a w minted now) t);
        };
        succeeds = refl;
        row = new_policy a w minted now;
        found =
            find-append a w.scope minted (new_policy a w minted now) t n f
              (new_policy-is_at a w minted now);
        mode = refl;
        payload_mode = refl;
        principal = refl;
        table = IsTable-insert minted (new_policy a w minted now) t refl ok_table;
      })

revised-is_at :
    (a : AuthContext) (w : PolicyWrite) (now : String) (c : Candidate) (row : PolicyRow)
    → is_at a c row ≡ true
    → is_at a c (revised a w now row) ≡ true
unfolding revised
revised-is_at a w now c row h = h

nat_eqb_refl : (n : ℕ) → nat_eqb n n ≡ true
nat_eqb_refl n = ground arith

updated-IsWritten :
    (minted now : String) (a : AuthContext) (w : PolicyWrite) (t : Table) (row : PolicyRow)
    → IsTable t
    → find_policy a w.scope t ≡ some row
    → IsWritten a w (finish_set minted now (updating a w row.policy_id row.revision) t)
unfolding finish_set revised
updated-IsWritten minted now a w t row ok_table f =
    rw (find-lookup a w.scope t row ok_table f, finish_set, nat_eqb_refl row.revision)
      (record {
        out = record {
          created = false;
          policy = lookup row.policy_id (insert row.policy_id (revised a w now row) t);
        };
        succeeds = refl;
        row = revised a w now row;
        found =
            find-replace a w.scope row.policy_id row (revised a w now row) t ok_table f refl
              (revised-is_at a w now w.scope row (find-is_at a w.scope t row f));
        mode = refl;
        payload_mode = refl;
        principal = refl;
        table = IsTable-insert row.policy_id (revised a w now row) t refl ok_table;
      })

decided-IsWritten :
    (minted now : String) (a : AuthContext) (w : PolicyWrite) (t : Table) (p : Pending)
    → IsTable t
    → lookup minted t ≡ none
    → IsDecided a w t p
    → IsWritten a w (finish_set minted now p t)
decided-IsWritten minted now a w t (inserting b v) ok_table n (e, d, f, base) =
    rw (e, d) (inserted-IsWritten minted now a w t ok_table n f)
decided-IsWritten minted now a w t (updating b v id base) ok_table n
      (e, d, (row, f, same, rev), based) =
    rw (e, d)
      (subst₂ (λ i r. IsWritten a w (finish_set minted now (updating a w i r) t)) same rev
        (updated-IsWritten minted now a w t row ok_table f))

-- Where no other write comes between, a write that comes to its statement succeeds: its account's
-- policy of the scope then has the mode and the payload of the request and the writer's principal,
-- and each policy of the table still stands under its own id, which it is assumed to do before. The
-- id of a new policy is assumed new.
pub set-IsWritten :
    (auth : Option AuthContext) (b : SetBody) (db : Database) (p : Pending) (minted now : String)
    → IsTable db.policies
    → lookup minted db.policies ≡ none
    → begin_set auth b db ≡ ok p
    → (a : AuthContext) × (w : PolicyWrite) × (active_context auth db ≡ ok a)
      × (normalize_policy_write b ≡ ok w)
      × IsWritten a w (finish_set minted now p db.policies)
set-IsWritten auth b db p minted now ok_table n h =
    let c = begin_set-IsCommitted auth b db p h in
    (
      c.account,
      c.write,
      c.active,
      c.normal,
      decided-IsWritten minted now c.account c.write db.policies p ok_table n c.decided,
    )
