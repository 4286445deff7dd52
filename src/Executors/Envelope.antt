-- ===== src/Executors/Envelope.antt =====
-- src/executor-adapters.js, `buildDispatchContextEnvelope`: what a dispatch hands to an executor.
-- The reason and the endpoint of the context, which are passed through, are left out.
use cairnstone_v.Prelude.{
  String, Bool, true, false, not, ◌&&◌, Option, none, some, List, if◌then◌else◌, ltb, string_eq,
}
use cairnstone_v.Prelude.Text.{js_length}
use cairnstone_v.Prelude.Value.{Value, as_string, truthy}
use cairnstone_v.Prelude.Result.{Result, ok, fail, ◌>>=◌, map_error}
use cairnstone_v.Executors.Profiles.{ContextMode, Profile}
use cairnstone_v.Executors.Policy.{is_text}
use cairnstone_v.Executors.Context.{LookupError, get_executor_profile}
use cairnstone_v.Executors.Pack.{
  Task, DispatchArgs, PackBudget, budget_of, Envelope, Pack, PackJson, all_refs, min_envelope,
  text_or_empty, given_body, pack_of,
}

pub data EnvelopeError : Type 0 where
  lookup : LookupError → EnvelopeError
  native_executor_rejects_compiled_body_dump : EnvelopeError
  body_budget_exceeded pack_budget_exceeded : EnvelopeError

pub record DispatchContext : Type 0 where
  pub context_mode : ContextMode
  pub envelope : Envelope
  pub compiled_pack : Option Pack

-- A body that was given is measured; one that is made up here is not.
abbrev pub body_too_long : Option String → PackBudget → Bool
body_too_long none b = false
body_too_long (some s) b = ltb b.max_body_chars (js_length s)

unfoldable pub native_context : Envelope → Option String → Result EnvelopeError DispatchContext
native_context e (some s) = fail native_executor_rejects_compiled_body_dump
native_context e none =
    ok (record { context_mode = ContextMode.cairnstone_native; envelope = e; compiled_pack = none })

unfoldable pub compiled_pack_context :
    PackJson
    → Envelope
    → List String
    → Option String
    → PackBudget
    → Result EnvelopeError DispatchContext
compiled_pack_context json e refs given b =
    let pack = pack_of json e refs given b in
    if body_too_long given b
    then fail body_budget_exceeded
    else if ltb b.max_pack_bytes (json.pack_bytes pack)
    then fail pack_budget_exceeded
    else ok (record {
      context_mode = ContextMode.compiled_context;
      envelope = record e { compiled_body_omitted = false };
      compiled_pack = some pack;
    })

-- `route_receipt?.context_mode`, where it is given, before the profile's own.
abbrev pub wants_native : Value → Profile → Bool → Bool
wants_native stated p force =
    not force
    && (if truthy stated then is_text stated "cairnstone_native" else elim p.context_mode [
      | ContextMode.cairnstone_native ↦ true
      | ContextMode.compiled_context ↦ false
    ])

abbrev pub executor_text : Value → String
executor_text v = text_or_empty (as_string v)

unfoldable pub context_for :
    PackJson → Value → Task → Value → DispatchArgs → Profile → Result EnvelopeError DispatchContext
context_for json executor_id task stated_mode a p =
    let e = min_envelope (executor_text executor_id) task a in
    if wants_native stated_mode p a.force_compiled_pack
    then native_context e (given_body a.compiled_body)
    else compiled_pack_context json e (all_refs task) (given_body a.compiled_body) (budget_of a)

unfoldable pub build_dispatch_context_envelope :
    PackJson → Value → Task → Value → DispatchArgs → Result EnvelopeError DispatchContext
build_dispatch_context_envelope json executor_id task stated_mode a =
    map_error lookup (get_executor_profile executor_id)
    >>= context_for json executor_id task stated_mode a
