-- ===== src/TurnSync/Active.antt =====
-- src/turnsync-policy.js, `activeContext`: whose connection a call is made for.
use cairnstone_v.Prelude.{
  String, ◌≡◌, refl, true, Option, none, some, List, [], ◌∷◌, In, inl, inr, string_eq, eq_iff,
  Bool-cases, and-eq-true, subst,
}
use cairnstone_v.Prelude.Result.{ok, fail-ne-ok, bind-eq-ok, ok-injective, unless-eq-ok}
use cairnstone_v.TurnSync.Stored.{
  AuthContext, ConnectionRow, Database, connection_status, active_context, is_connection_of,
}

-- The call brings an account, and the database has an active connection of it, with the tenant and
-- principal that were brought.
pub record IsActive (auth : Option AuthContext) (db : Database) (a : AuthContext) : Type 0 where
  pub brought : auth ≡ some a
  pub row : ConnectionRow
  pub stored : In row db.connections
  pub connection_id : row.connection_id ≡ a.connection_id
  pub account_id : row.account_id ≡ a.account_id
  pub tenant_id : row.tenant_id ≡ a.tenant_id
  pub principal_id : row.principal_id ≡ a.principal_id
  pub status : row.status ≡ "active"

connection_status-active :
    (a : AuthContext) (rows : List ConnectionRow)
    → connection_status a rows ≡ "active"
    → (row : ConnectionRow) × In row rows
      × (is_connection_of a row ≡ true)
      × (row.status ≡ "active")
unfolding connection_status
connection_status-active a [] h = absurd (no h)
  where
    no : Path String "" "active" → ⊥
    no h = cc
connection_status-active a (r ∷ rs) h = elim (Bool-cases (is_connection_of a r)) [
  | inl y ↦ (r, inl refl, y, rw (y, connection_status) at h)
  | inr n ↦
      let (row, i, c, e) = connection_status-active a rs (rw (n, connection_status) at h) in
      (row, inr i, c, e)
]

pub active_context-IsActive :
    (auth : Option AuthContext) (db : Database) (a : AuthContext)
    → active_context auth db ≡ ok a
    → IsActive auth db a
unfolding active_context
active_context-IsActive none db a h = fail-ne-ok h
active_context-IsActive (some b) db a h =
    let (_, _, h1) = bind-eq-ok _ _ h in
    let (_, e, h2) = bind-eq-ok _ _ h1 in
    let (row, i, c, status) =
      connection_status-active b db.connections
        ((eq_iff (connection_status b db.connections) "active").0 (unless-eq-ok _ _ e)) in
    let (abc, d) = and-eq-true _ _ c in
    let (ab, t) = and-eq-true _ _ abc in
    let (k, acc) = and-eq-true _ _ ab in
    subst (IsActive (some b) db) (ok-injective h2) (record {
      brought = refl;
      row = row;
      stored = i;
      connection_id = (eq_iff row.connection_id b.connection_id).0 k;
      account_id = (eq_iff row.account_id b.account_id).0 acc;
      tenant_id = (eq_iff row.tenant_id b.tenant_id).0 t;
      principal_id = (eq_iff row.principal_id b.principal_id).0 d;
      status = status;
    })
