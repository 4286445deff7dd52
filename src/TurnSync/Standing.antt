-- ===== src/TurnSync/Standing.antt =====
-- src/turnsync-ingest.js, `turnSyncAppendFromBody`: the test of the standing policy before a turn is
-- appended.
use cairnstone_v.Prelude.{
  Bool, true, false, ◌&&◌, ◌||◌, ◌≡◌, sym, refl, ◌∙◌, subst, ◌↔◌, String, Option, none, some, List,
  [], ◌∷◌, some-injective, none-ne-some,
}
use cairnstone_v.Prelude.Result.{ok}
use cairnstone_v.TurnSync.Policy.{
  Mode, off, on, ask, PayloadMode, full_turns, decisions_tasks, summaries, PolicyRow, Candidate,
  Effective, stored, default_ask, effective_mode, effective_payload, Standing, allow_append,
  turnsync_confirmation_required, evaluate_turn_sync_standing_policy, policy_scope_candidates,
}
use cairnstone_v.TurnSync.Stored.{
  AuthContext, Database, Table, active_context, find_policy, get_effective_turn_sync_policy,
}
use cairnstone_v.TurnSync.Evaluation.{IsFirst, found, passed, exhausted, get_effective-IsFirst}

abbrev allows_append : Standing → Bool
allows_append allow_append = true
allows_append _ = false

abbrev requires_human_confirmation : Standing → Bool
requires_human_confirmation turnsync_confirmation_required = true
requires_human_confirmation _ = false

abbrev is_full_turns : PayloadMode → Bool
is_full_turns full_turns = true
is_full_turns decisions_tasks = false
is_full_turns summaries = false

abbrev one_time_confirmed : Bool → Standing → PayloadMode → Bool
one_time_confirmed sync_confirmed gate p =
    requires_human_confirmation gate && sync_confirmed && is_full_turns p

abbrev gate_of : Bool → Mode → PayloadMode → Bool
gate_of sync_confirmed m p =
    allows_append (evaluate_turn_sync_standing_policy (some m) (some p))
    || one_time_confirmed sync_confirmed (evaluate_turn_sync_standing_policy (some m) (some p)) p

-- `policyGate.allow_append || oneTimeConfirmed`; `sync_confirmed` is the test of the request's field.
unfoldable pub passes_policy_gate : Bool → Effective → Bool
unfolding evaluate_turn_sync_standing_policy
passes_policy_gate sync_confirmed e =
    gate_of sync_confirmed (effective_mode e) (effective_payload e)

-- What a mode asks of the human.
abbrev Admits : Bool → Mode → Type 0
Admits sync_confirmed off = ⊥
Admits sync_confirmed on = Unit
Admits sync_confirmed ask = sync_confirmed ≡ true

-- The first of the scopes that has a policy admits full turns, or none has one and the human
-- confirmed.
pub data IsOpen (sync_confirmed : Bool) (a : AuthContext) (t : Table)
    : List Candidate → Type 0 where
  first :
      {c : Candidate} {cs : List Candidate} {row : PolicyRow}
      → find_policy a c t ≡ some row
      → Admits sync_confirmed row.mode
      → row.payload_mode ≡ full_turns
      → IsOpen sync_confirmed a t (c ∷ cs)
  behind :
      {c : Candidate} {cs : List Candidate}
      → find_policy a c t ≡ none
      → IsOpen sync_confirmed a t cs
      → IsOpen sync_confirmed a t (c ∷ cs)
  unset : sync_confirmed ≡ true → IsOpen sync_confirmed a t []

gate_of-Admits :
    (b : Bool) (m : Mode) (p : PayloadMode) → gate_of b m p ≡ true → Admits b m × (p ≡ full_turns)
unfolding evaluate_turn_sync_standing_policy
gate_of-Admits b off p h = cc
gate_of-Admits b on full_turns h = (tt, refl)
gate_of-Admits b on decisions_tasks h = cc
gate_of-Admits b on summaries h = cc
gate_of-Admits true ask full_turns h = (refl, refl)
gate_of-Admits false ask full_turns h = cc
gate_of-Admits true ask decisions_tasks h = cc
gate_of-Admits false ask decisions_tasks h = cc
gate_of-Admits true ask summaries h = cc
gate_of-Admits false ask summaries h = cc

Admits-gate_of : (b : Bool) (m : Mode) → Admits b m → gate_of b m full_turns ≡ true
unfolding evaluate_turn_sync_standing_policy
Admits-gate_of b on h = refl
Admits-gate_of b ask h = rw h refl
Admits-gate_of b off h = absurd h

module _ (b : Bool) {a : AuthContext} {t : Table} where
  gate-IsOpen :
      {cs : List Candidate} {e : Effective}
      → IsFirst a t cs e
      → passes_policy_gate b e ≡ true
      → IsOpen b a t cs
  unfolding passes_policy_gate
  gate-IsOpen (found {row = row} f) h =
      let (m, p) = gate_of-Admits b row.mode row.payload_mode h in first f m p
  gate-IsOpen (passed n r) h = behind n (gate-IsOpen r h)
  gate-IsOpen exhausted h = unset (gate_of-Admits b ask full_turns h).0

  first-gate :
      {c : Candidate} {cs : List Candidate} (row : PolicyRow)
      → find_policy a c t ≡ some row
      → IsOpen b a t (c ∷ cs)
      → passes_policy_gate b (stored row c) ≡ true
  unfolding passes_policy_gate
  first-gate row f (first {row = r} g m p) =
      let same : r ≡ row = some-injective (sym g ∙ f) in
      subst (λ (x : PolicyRow). gate_of b x.mode x.payload_mode ≡ true) same
        (rw p (Admits-gate_of b r.mode m))
  first-gate row f (behind n o) = absurd (none-ne-some (sym n ∙ f))

  behind-IsOpen :
      {c : Candidate} {cs : List Candidate}
      → find_policy a c t ≡ none
      → IsOpen b a t (c ∷ cs)
      → IsOpen b a t cs
  behind-IsOpen n (first g m p) = absurd (none-ne-some (sym n ∙ g))
  behind-IsOpen n (behind k o) = o

  unset-gate : IsOpen b a t [] → passes_policy_gate b default_ask ≡ true
  unfolding passes_policy_gate
  unset-gate (unset y) = Admits-gate_of b ask y

  IsOpen-gate :
      {cs : List Candidate} {e : Effective}
      → IsFirst a t cs e
      → IsOpen b a t cs
      → passes_policy_gate b e ≡ true
  IsOpen-gate (found {row = row} f) o = first-gate row f o
  IsOpen-gate (passed n r) o = IsOpen-gate r (behind-IsOpen n o)
  IsOpen-gate exhausted o = unset-gate o

-- Where an active connection has the policy in effect read, a turn passes its test exactly where the
-- first scope (workspace, chain, account) that has a policy of the account and tenant takes full turns,
-- and is on or asks and the human confirmed; where no scope has one, exactly where the human confirmed.
pub passes_policy_gate_exact :
    (sync_confirmed : Bool) (auth : Option AuthContext) (workspace_id chain_id : Option String)
    (db : Database) (e : Effective)
    → get_effective_turn_sync_policy auth workspace_id chain_id db ≡ ok e
    → (a : AuthContext) × (active_context auth db ≡ ok a)
      × ((passes_policy_gate sync_confirmed e ≡ true)
          ↔ IsOpen sync_confirmed a db.policies (policy_scope_candidates workspace_id chain_id))
passes_policy_gate_exact sync_confirmed auth workspace_id chain_id db e h =
    let (a, k, f) = get_effective-IsFirst auth workspace_id chain_id db e h in
    (a, k, (gate-IsOpen sync_confirmed f, IsOpen-gate sync_confirmed f))
