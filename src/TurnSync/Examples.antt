-- ===== src/TurnSync/Examples.antt =====
-- An account's policies, two writers of one of them, and the theorems on them.
use cairnstone_v.Prelude.{◌≡◌, refl, none, some, true, false, [], ◌∷◌, string_eq, ◌↔◌}
use cairnstone_v.Prelude.Dict.{lookup, insert}
use cairnstone_v.Prelude.Text.{trim}
use cairnstone_v.Prelude.Result.{ok, fail, ◌>>=◌}
use cairnstone_v.TurnSync.Policy.{
  on, off, full_turns, summaries, account, PolicyRow, clean, policy_scope_candidates, first_match,
  last_in_scope, effective_policy_from_rows, stored,
}
use cairnstone_v.TurnSync.Stored.{
  AuthContext, Database, Table, turnsync_policy_conflict, PolicyWrite, updating, Written,
  active_context, connection_status, find_policy, read_stored_policies,
  get_effective_turn_sync_policy, finish_set, revised,
}
use cairnstone_v.TurnSync.Active.{IsActive}
use cairnstone_v.TurnSync.Precedence.{IsInEffect, get_effective-IsInEffect}
use cairnstone_v.TurnSync.Standing.{passes_policy_gate, IsOpen, passes_policy_gate_exact}
use cairnstone_v.TurnSync.Stored.{SetBody, whole, normalize_policy_write, begin_set}
use cairnstone_v.TurnSync.Commit.{IsCommitted, begin_set-IsCommitted}
use cairnstone_v.TurnSync.RoundTrip.{IsWritten, set-IsWritten}
use cairnstone_v.TurnSync.Races.{
  here, next, Outlives, Later-Outlives, IsUpdate, finish_set-IsUpdate, one_writer,
}

abbrev owner : AuthContext
owner = record {
  account_id = "acct";
  tenant_id = "ten";
  principal_id = "prin";
  connection_id = "conn";
}

abbrev second_device : AuthContext
second_device = record {
  account_id = "acct";
  tenant_id = "ten";
  principal_id = "prin2";
  connection_id = "conn2";
}

abbrev account_policy : PolicyRow
account_policy = record {
  policy_id = "tsp:1";
  account_id = "acct";
  tenant_id = "ten";
  scope_kind = account;
  scope_key = "*";
  mode = on;
  payload_mode = full_turns;
  revision = 1;
  updated_by_principal_id = "prin";
  updated_by_connection_id = "conn";
  created_at = "2026-01-01";
  updated_at = "2026-01-01";
}

abbrev policies : Table
policies = ("tsp:1", account_policy) ∷ []

abbrev switch_off : PolicyWrite
switch_off = record {
  scope = record { scope_kind = account; scope_key = "*" };
  mode = off;
  payload_mode = full_turns;
  base_revision = some 1;
}

abbrev summarize : PolicyWrite
summarize = record {
  scope = record { scope_kind = account; scope_key = "*" };
  mode = on;
  payload_mode = summaries;
  base_revision = some 1;
}

abbrev switched_off : PolicyRow
switched_off = record account_policy { mode = off; revision = 2; updated_at = "2026-01-02" }

abbrev off_answer : Written
off_answer = record { created = false; policy = some switched_off }

one_writer_example :
    finish_set "tsp:x" "2026-01-03"
      (updating second_device summarize "tsp:1" 1)
      (finish_set "tsp:x" "2026-01-02" (updating owner switch_off "tsp:1" 1) policies).1
    ≡ (
      fail turnsync_policy_conflict,
      (finish_set "tsp:x" "2026-01-02" (updating owner switch_off "tsp:1" 1) policies).1,
    )
unfolding finish_set lookup insert revised
one_writer_example =
    one_writer "tsp:x" "2026-01-02" "tsp:x" "2026-01-03" owner second_device switch_off summarize
      "tsp:1" 1 policies off_answer refl here

finish_set-IsUpdate_example :
    IsUpdate owner switch_off "tsp:1" 1 policies
      (finish_set "tsp:x" "2026-01-02" (updating owner switch_off "tsp:1" 1) policies).1
      off_answer
unfolding finish_set lookup insert revised
finish_set-IsUpdate_example =
    finish_set-IsUpdate "tsp:x" "2026-01-02" owner switch_off "tsp:1" 1 policies off_answer refl

Later-Outlives_example :
    Outlives "tsp:1" account_policy
      (finish_set "tsp:x" "2026-01-02" (updating owner switch_off "tsp:1" 1) policies).1
unfolding lookup
Later-Outlives_example =
    Later-Outlives "tsp:1" account_policy
      (next here "tsp:x" "2026-01-02" (updating owner switch_off "tsp:1" 1)) refl

abbrev database : Database
database = record {
  connections =
      record {
        connection_id = "conn";
        principal_id = "prin";
        account_id = "acct";
        tenant_id = "ten";
        status = "active";
      }
      ∷ [];
  policies = policies;
}

-- No policy is stored for the workspace, so that of the account is in effect.
get_effective-IsInEffect_example :
    (a : AuthContext) × IsActive (some owner) database a
    × IsInEffect a policies
        (clean 300 (some "ws"))
        (clean 300 none)
        (stored account_policy (record { scope_kind = account; scope_key = "*" }))
unfolding get_effective_turn_sync_policy ◌>>=◌ active_context connection_status read_stored_policies
    find_policy policy_scope_candidates clean trim effective_policy_from_rows first_match
    last_in_scope
get_effective-IsInEffect_example =
    get_effective-IsInEffect (some owner) (some "ws") none database
      (stored account_policy (record { scope_kind = account; scope_key = "*" })) refl

-- The account's policy is on, so a turn passes without the human's confirmation.
passes_policy_gate_exact_example :
    (a : AuthContext) × (active_context (some owner) database ≡ ok a)
    × ((passes_policy_gate false
            (stored account_policy (record { scope_kind = account; scope_key = "*" }))
          ≡ true)
        ↔ IsOpen false a policies (policy_scope_candidates (some "ws") none))
unfolding get_effective_turn_sync_policy ◌>>=◌ active_context connection_status read_stored_policies
    find_policy policy_scope_candidates clean trim effective_policy_from_rows first_match
    last_in_scope
passes_policy_gate_exact_example =
    passes_policy_gate_exact false (some owner) (some "ws") none database
      (stored account_policy (record { scope_kind = account; scope_key = "*" })) refl

abbrev off_body : SetBody
off_body = record {
  human_commit = true;
  scope_kind = some " Account ";
  scope_key = none;
  mode = some "off";
  payload_mode = some "full_turns";
  base_revision = whole 1;
}

begin_set-IsCommitted_example :
    IsCommitted (some owner) off_body database (updating owner switch_off "tsp:1" 1)
unfolding begin_set ◌>>=◌ normalize_policy_write active_context connection_status find_policy clean
    trim
begin_set-IsCommitted_example =
    begin_set-IsCommitted (some owner) off_body database (updating owner switch_off "tsp:1" 1) refl

set-IsWritten_example :
    (a : AuthContext) × (w : PolicyWrite) × (active_context (some owner) database ≡ ok a)
    × (normalize_policy_write off_body ≡ ok w)
    × IsWritten a w (finish_set "tsp:2" "2026-01-02" (updating owner switch_off "tsp:1" 1) policies)
unfolding begin_set ◌>>=◌ normalize_policy_write active_context connection_status find_policy clean
    trim lookup
set-IsWritten_example =
    set-IsWritten (some owner) off_body database (updating owner switch_off "tsp:1" 1) "tsp:2"
      "2026-01-02" (refl, refl, tt) refl refl
