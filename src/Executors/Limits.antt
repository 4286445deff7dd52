-- ===== src/Executors/Limits.antt =====
-- src/executor-adapters.js: the limits of what a dispatch carries to the executor.
use cairnstone_v.Prelude.{
  ℕ, sym, subst, ◌≡◌, refl, ◌≤◌, Bool, true, false, Option, none, some, if◌then◌else◌, ltb, length,
  length-take-le, ◌++◌, inl, inr, Bool-cases, string_eq, String, List, some-injective, none-ne-some,
  arith,
}
use cairnstone_v.Prelude.Text.{js_length}
use cairnstone_v.Prelude.Value.{Value}
use cairnstone_v.Prelude.Result.{ok, fail, bind-eq-ok, fail-ne-ok, ok-injective}
use cairnstone_v.Executors.Profiles.{ContextMode}
use cairnstone_v.Executors.Pack.{
  Task, DispatchArgs, PackBudget, PackJson, Pack, Envelope, override, body_omissions, ref_omissions,
  budget_of, given_body, all_refs, min_envelope, pack_of,
}
use cairnstone_v.Executors.Envelope.{
  DispatchContext, body_too_long, native_context, compiled_pack_context, wants_native,
  executor_text, context_for, build_dispatch_context_envelope,
}

-- A pack within a budget, made of the body that was given where one was.
pub record IsBoundedPack (json : PackJson) (given : Option String) (b : PackBudget) (pack : Pack)
    : Type 0 where
  pub bytes : json.pack_bytes pack ≤ b.max_pack_bytes
  pub refs : length pack.provenance_refs ≤ b.max_refs
  pub omissions : length pack.omissions ≤ b.max_omission_entries
  pub measured : pack.body_chars ≡ js_length pack.body
  pub body : (s : String) → given ≡ some s → (pack.body ≡ s) × (js_length s ≤ b.max_body_chars)

-- Without a pack: the references alone, and no body was given. With one: bounded.
pub data Carries (json : PackJson) (given : Option String) (b : PackBudget) (ctx : DispatchContext)
    : Type 0 where
  references :
      ctx.context_mode ≡ ContextMode.cairnstone_native
      → ctx.compiled_pack ≡ none
      → given ≡ none
      → ctx.envelope.compiled_body_omitted ≡ true
      → Carries json given b ctx
  bounded :
      (pack : Pack)
      → ctx.context_mode ≡ ContextMode.compiled_context
      → ctx.compiled_pack ≡ some pack
      → IsBoundedPack json given b pack
      → Carries json given b ctx

-- A limit that the call names, or the default of COMPILED_CONTEXT_BUDGET.
abbrev Within : Option ℕ → ℕ → ℕ → Type 0
Within none standard n = n ≤ standard
Within (some limit) standard n = n ≤ limit

-- A pack within the limits of its call. A body that was given is measured by its own limit; one that is
-- made up here is not, and counts in the bytes of the pack.
pub record IsLimited (json : PackJson) (a : DispatchArgs) (pack : Pack) : Type 0 where
  pub bytes : Within a.max_pack_bytes 48000 (json.pack_bytes pack)
  pub refs : Within a.max_refs 100 (length pack.provenance_refs)
  pub omissions : Within a.max_omission_entries 64 (length pack.omissions)
  pub measured : pack.body_chars ≡ js_length pack.body
  pub body :
      (s : String)
      → given_body a.compiled_body ≡ some s
      → (pack.body ≡ s) × Within a.max_body_chars 24000 (js_length s)

-- What is handed over: references alone, where no body was given, or a pack within its limits.
pub data HandsOver (json : PackJson) (a : DispatchArgs) (ctx : DispatchContext) : Type 0 where
  references :
      ctx.context_mode ≡ ContextMode.cairnstone_native
      → ctx.compiled_pack ≡ none
      → given_body a.compiled_body ≡ none
      → ctx.envelope.compiled_body_omitted ≡ true
      → HandsOver json a ctx
  limited :
      (pack : Pack)
      → ctx.context_mode ≡ ContextMode.compiled_context
      → ctx.compiled_pack ≡ some pack
      → IsLimited json a pack
      → HandsOver json a ctx

override-Within :
    (limit : Option ℕ) (standard n : ℕ) → n ≤ override limit standard → Within limit standard n
override-Within none standard n h = h
override-Within (some m) standard n h = h

bounded-IsLimited :
    (json : PackJson) (a : DispatchArgs) (pack : Pack)
    → IsBoundedPack json (given_body a.compiled_body) (budget_of a) pack
    → IsLimited json a pack
unfolding budget_of
bounded-IsLimited json a pack b = record {
  bytes = override-Within a.max_pack_bytes 48000 (json.pack_bytes pack) b.bytes;
  refs = override-Within a.max_refs 100 (length pack.provenance_refs) b.refs;
  omissions = override-Within a.max_omission_entries 64 (length pack.omissions) b.omissions;
  measured = b.measured;
  body = λ s g.
      let (same, short) = b.body s g in
      (same, override-Within a.max_body_chars 24000 (js_length s) short);
}

pub Carries-HandsOver :
    (json : PackJson) (a : DispatchArgs) (ctx : DispatchContext)
    → Carries json (given_body a.compiled_body) (budget_of a) ctx
    → HandsOver json a ctx
Carries-HandsOver json a ctx (Carries.references m p g o) = HandsOver.references m p g o
Carries-HandsOver json a ctx (Carries.bounded pack m p b) =
    HandsOver.limited pack m p (bounded-IsLimited json a pack b)

native-Carries :
    (json : PackJson) (given : Option String) (b : PackBudget) (e : Envelope)
    (ctx : DispatchContext)
    → e.compiled_body_omitted ≡ true
    → native_context e given ≡ ok ctx
    → Carries json given b ctx
unfolding native_context
native-Carries json (some s) b e ctx o h = fail-ne-ok h
native-Carries json none b e ctx o h =
    subst (Carries json none b) (ok-injective h) (Carries.references refl refl refl o)

-- What two guards let pass.
pub passed :
    {E A : Type 0} (t u : Bool) (d f : E) (a : A) {b : A}
    → (if t then fail d else if u then fail f else ok a) ≡ ok b
    → (t ≡ false) × (u ≡ false) × (a ≡ b)
passed true u d f a h = fail-ne-ok h
passed false true d f a h = fail-ne-ok h
passed false false d f a h = (refl, refl, ok-injective h)

-- The same, where each test lets pass what it takes for true.
pub if_passed :
    {E A : Type 0} (t u : Bool) (d f : E) (a : A) {b : A}
    → (if t then (if u then ok a else fail f) else fail d) ≡ ok b
    → (t ≡ true) × (u ≡ true) × (a ≡ b)
if_passed false u d f a h = fail-ne-ok h
if_passed true false d f a h = fail-ne-ok h
if_passed true true d f a h = (refl, refl, ok-injective h)

pub ltb→le : (m n : ℕ) → ltb m n ≡ false → n ≤ m
ltb→le m n h = ground arith

fits-body :
    (given : Option String) (b : PackBudget) (s : String)
    → body_too_long given b ≡ false
    → given ≡ some s
    → js_length s ≤ b.max_body_chars
fits-body none b s h e = absurd (none-ne-some e)
fits-body (some r) b s h e =
    subst (λ x. js_length x ≤ b.max_body_chars) (some-injective e) (ltb→le _ _ h)

module _ (json : PackJson) (e : Envelope) (refs : List String) (b : PackBudget) where
  pack-refs :
      (given : Option String) → length (pack_of json e refs given b).provenance_refs ≤ b.max_refs
  unfolding pack_of
  pack-refs given = length-take-le b.max_refs refs

  pack-omissions :
      (given : Option String)
      → length (pack_of json e refs given b).omissions ≤ b.max_omission_entries
  unfolding pack_of
  pack-omissions given =
      length-take-le b.max_omission_entries
        (body_omissions given ++ ref_omissions (length refs) b.max_refs)

  pack-measured :
      (given : Option String)
      → (pack_of json e refs given b).body_chars ≡ js_length (pack_of json e refs given b).body
  unfolding pack_of
  pack-measured given = refl

  pack-body : (s : String) → (pack_of json e refs (some s) b).body ≡ s
  unfolding pack_of
  pack-body s = refl

  pack-IsBounded :
      (given : Option String)
      → body_too_long given b ≡ false
      → json.pack_bytes (pack_of json e refs given b) ≤ b.max_pack_bytes
      → IsBoundedPack json given b (pack_of json e refs given b)
  pack-IsBounded given fits bytes = record {
    bytes = bytes;
    refs = pack-refs given;
    omissions = pack-omissions given;
    measured = pack-measured given;
    body = λ s g. (
      subst (λ o. (pack_of json e refs o b).body ≡ s) (sym g) (pack-body s),
      fits-body given b s fits g,
    );
  }

  compiled-Carries :
      (given : Option String) (ctx : DispatchContext)
      → compiled_pack_context json e refs given b ≡ ok ctx
      → Carries json given b ctx
  unfolding compiled_pack_context
  compiled-Carries given ctx h =
      let (fits, bytes, same) = passed _ _ _ _ _ h in
      subst (Carries json given b) same (
        Carries.bounded (pack_of json e refs given b) refl refl
          (pack-IsBounded given fits (ltb→le _ _ bytes)))

envelope-omits :
    (id : String) (task : Task) (a : DispatchArgs)
    → (min_envelope id task a).compiled_body_omitted ≡ true
unfolding min_envelope
envelope-omits id task a = refl

pub context-Carries :
    (json : PackJson) (executor_id stated : Value) (task : Task) (a : DispatchArgs)
    (ctx : DispatchContext)
    → build_dispatch_context_envelope json executor_id task stated a ≡ ok ctx
    → Carries json (given_body a.compiled_body) (budget_of a) ctx
unfolding build_dispatch_context_envelope context_for
context-Carries json executor_id stated task a ctx h =
    let (p, _, k) = bind-eq-ok _ _ h in
    let e = min_envelope (executor_text executor_id) task a in
    elim (Bool-cases (wants_native stated p a.force_compiled_pack)) [
      | inl y ↦
          native-Carries json (given_body a.compiled_body) (budget_of a) e ctx
            (envelope-omits (executor_text executor_id) task a) (rw y at k)
      | inr n ↦
          compiled-Carries json e (all_refs task) (budget_of a) (given_body a.compiled_body) ctx
            (rw n at k)
    ]
