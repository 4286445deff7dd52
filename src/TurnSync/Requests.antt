-- ===== src/TurnSync/Requests.antt =====
-- src/turnsync-policy.js, `normalizePolicyWrite`: what a write says, read from its request.
use cairnstone_v.Prelude.{
  ℕ, zero, suc, String, ◌≡◌, ◌≢◌, ◌≤◌, refl, sym, ◌∙◌, subst, ◌⊎◌, inl, inr, Bool, true, false,
  ◌&&◌, Option, none, some, if◌then◌else◌, string_eq, eq_iff, Bool-cases, and-eq-true,
  some-injective, none-ne-some, leb, leb→le, arith,
}
use cairnstone_v.Prelude.Text.{trim, js_length, lower_is}
use cairnstone_v.Prelude.Words.{not_empty}
use cairnstone_v.Prelude.Result.{
  ok, fail-ne-ok, bind-eq-ok, ok-injective, get_or-eq-ok, unless-eq-ok,
}
use cairnstone_v.TurnSync.Policy.{
  Mode, on, off, ask, PayloadMode, full_turns, decisions_tasks, summaries, ScopeKind, account,
  workspace, chain, clean,
}
use cairnstone_v.TurnSync.Stored.{
  BaseRevision, absent, not_whole, whole, SetBody, PolicyWrite, normalize_policy_write, base_of,
  write_key,
}

abbrev kind_name : ScopeKind → String
kind_name account = "account"
kind_name workspace = "workspace"
kind_name chain = "chain"

abbrev mode_name : Mode → String
mode_name on = "on"
mode_name off = "off"
mode_name ask = "ask"

abbrev payload_name : PayloadMode → String
payload_name full_turns = "full_turns"
payload_name decisions_tasks = "decisions_tasks"
payload_name summaries = "summaries"

-- A field that has a name as its text, in any case and with white space around it.
abbrev Spells : Option String → String → Type 0
Spells field name = (s : String) × (field ≡ some s) × (lower_is (trim s) name ≡ true)

-- The key of the scope is a star for an account, and what the field has for the others.
abbrev IsKey : ScopeKind → Option String → String → Type 0
IsKey account field key = key ≡ "*"
IsKey workspace field key =
    (s : String) × (field ≡ some s) × (key ≡ trim s) × (key ≢ "") × (js_length key ≤ 300)
IsKey chain field key =
    (s : String) × (field ≡ some s) × (key ≡ trim s) × (key ≢ "") × (js_length key ≤ 300)

-- No revision, or a positive one.
abbrev IsBase : BaseRevision → Option ℕ → Type 0
IsBase absent base = base ≡ none
IsBase not_whole base = ⊥
IsBase (whole n) base = (base ≡ some n) × (1 ≤ n)

pub record IsRequest (b : SetBody) (w : PolicyWrite) : Type 0 where
  pub scope_kind : Spells b.scope_kind (kind_name w.scope.scope_kind)
  pub scope_key : IsKey w.scope.scope_kind b.scope_key w.scope.scope_key
  pub mode : Spells b.mode (mode_name w.mode)
  pub payload_mode : Spells b.payload_mode (payload_name w.payload_mode)
  pub base_revision : IsBase b.base_revision w.base_revision

-- One test of a chain.
if-some :
    {A : Type 0} (t : Bool) (x : A) (m : Option A) {y : A}
    → (if t then some x else m) ≡ some y
    → ((t ≡ true) × (x ≡ y)) ⊎ (m ≡ some y)
if-some true x m h = inl (refl, some-injective h)
if-some false x m h = inr h

-- A chain of three names.
three-named :
    {A : Type 0} (name : A → String) (s : String) (x y z : A) {k : A}
    → (if lower_is s (name x)
        then some x
        else if lower_is s (name y)
        then some y
        else if lower_is s (name z)
        then some z
        else none)
      ≡ some k
    → lower_is s (name k) ≡ true
three-named name s x y z h = elim (if-some (lower_is s (name x)) x _ h) [
  | inl (e, same) ↦ subst (λ v. lower_is s (name v) ≡ true) same e
  | inr h1 ↦ elim (if-some (lower_is s (name y)) y _ h1) [
    | inl (e, same) ↦ subst (λ v. lower_is s (name v) ≡ true) same e
    | inr h2 ↦ elim (if-some (lower_is s (name z)) z none h2) [
      | inl (e, same) ↦ subst (λ v. lower_is s (name v) ≡ true) same e
      | inr h3 ↦ absurd (none-ne-some h3)
    ]
  ]
]

-- What `clean` lets through.
clean-given :
    (limit : ℕ) (field : Option String)
    → clean limit field ≢ ""
    → (s : String) × (field ≡ some s) × (clean limit field ≡ trim s) × (js_length (trim s) ≤ limit)
unfolding clean
clean-given limit none n = absurd (n refl)
clean-given limit (some s) n =
    elim (Bool-cases (not_empty (trim s) && leb (js_length (trim s)) limit)) [
      | inl y ↦
          let (_, short) = and-eq-true _ _ y in
          (s, refl, rw (y, clean) refl, leb→le (js_length (trim s)) limit short)
      | inr f ↦ absurd (n (rw (f, clean) refl))
    ]

clean-Spells :
    (limit : ℕ) (field : Option String) (name : String)
    → lower_is "" name ≡ false
    → lower_is (clean limit field) name ≡ true
    → Spells field name
clean-Spells limit field name e h =
    let (s, f, same, _) =
      clean-given limit field
        (λ n. false-ne-true (sym e ∙ subst (λ x. lower_is x name ≡ true) n h)) in
    (s, f, subst (λ x. lower_is x name ≡ true) same h)
  where
    false-ne-true : false ≡ true → ⊥
    false-ne-true h = cc

kind-empty : (k : ScopeKind) → lower_is "" (kind_name k) ≡ false
kind-empty account = refl
kind-empty workspace = refl
kind-empty chain = refl

mode-empty : (m : Mode) → lower_is "" (mode_name m) ≡ false
mode-empty on = refl
mode-empty off = refl
mode-empty ask = refl

payload-empty : (p : PayloadMode) → lower_is "" (payload_name p) ≡ false
payload-empty full_turns = refl
payload-empty decisions_tasks = refl
payload-empty summaries = refl

not_empty-ne : (s : String) → not_empty s ≡ true → s ≢ ""
not_empty-ne s h e = ground (arith, eq_iff s "")

clean-IsName :
    (field : Option String)
    → not_empty (clean 300 field) ≡ true
    → (s : String) × (field ≡ some s)
      × (clean 300 field ≡ trim s)
      × (clean 300 field ≢ "")
      × (js_length (clean 300 field) ≤ 300)
clean-IsName field h =
    let n = not_empty-ne (clean 300 field) h in
    let (s, f, same, short) = clean-given 300 field n in
    (s, f, same, n, subst (λ x. js_length x ≤ 300) (sym same) short)

write_key-IsKey :
    (kind : ScopeKind) (field : Option String)
    → not_empty (write_key kind field) ≡ true
    → IsKey kind field (write_key kind field)
write_key-IsKey account field h = refl
write_key-IsKey workspace field h = clean-IsName field h
write_key-IsKey chain field h = clean-IsName field h

base_of-IsBase : (b : BaseRevision) (base : Option ℕ) → base_of b ≡ ok base → IsBase b base
base_of-IsBase absent base h = sym (ok-injective h)
base_of-IsBase not_whole base h = fail-ne-ok h
base_of-IsBase (whole zero) base h = fail-ne-ok h
base_of-IsBase (whole (suc n)) base h = (sym (ok-injective h), omega arith)

pub normalize_policy_write-IsRequest :
    (b : SetBody) (w : PolicyWrite) → normalize_policy_write b ≡ ok w → IsRequest b w
unfolding normalize_policy_write
normalize_policy_write-IsRequest b w h =
    let (kind, e1, h1) = bind-eq-ok _ _ h in
    let (mode, e2, h2) = bind-eq-ok _ _ h1 in
    let (payload, e3, h3) = bind-eq-ok _ _ h2 in
    let (_, e4, h4) = bind-eq-ok _ _ h3 in
    let (base, e5, h5) = bind-eq-ok _ _ h4 in
    subst (IsRequest b) (ok-injective h5) (record {
      scope_kind = clean-Spells 32 b.scope_kind (kind_name kind) (kind-empty kind) (
          three-named kind_name (clean 32 b.scope_kind) account workspace chain
            (get_or-eq-ok _ _ kind e1));
      scope_key = write_key-IsKey kind b.scope_key (unless-eq-ok _ _ e4);
      mode =
          clean-Spells 32 b.mode (mode_name mode) (mode-empty mode)
            (three-named mode_name (clean 32 b.mode) on off ask (get_or-eq-ok _ _ mode e2));
      payload_mode = clean-Spells 64 b.payload_mode (payload_name payload) (payload-empty payload) (
          three-named payload_name (clean 64 b.payload_mode) full_turns decisions_tasks summaries
            (get_or-eq-ok _ _ payload e3));
      base_revision = base_of-IsBase b.base_revision base e5;
    })
