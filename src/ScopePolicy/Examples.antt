-- ===== src/ScopePolicy/Examples.antt =====
-- Requests for scopes, and the theorems about their answers on them.
use cairnstone_v.Prelude.{◌≡◌, ◌≢◌, refl, some, false, [], ◌∷◌, inl, inr, string_eq}
use cairnstone_v.Prelude.Text.{trim}
use cairnstone_v.Prelude.Value.{undefined, str}
use cairnstone_v.Prelude.Words.{words, pieces, distinct_after, drop_slashes}
use cairnstone_v.Prelude.Result.{ok, ◌>>=◌}
use cairnstone_v.ScopePolicy.{
  core, messages, Requested, texts, value, parse_requested_scopes, Deployment,
  normalize_registered_resource, is_canonical_core_resource, is_canonical_messages_resource,
  resolve_resource_class, registered_scope_owner, sort_scopes, Granted, decide_requested,
  resolve_resource_scope_policy,
}
use cairnstone_v.ScopePolicy.Grant.{IsGrant, resolve-IsGrant, unregistered_refused}

abbrev deployment : Deployment
deployment = record { configured = undefined; origin = undefined }

-- Both families are asked for; the one of the resource is given.
abbrev mixed : Requested
mixed = value (str "mcp:core messages.read")

abbrev narrowed_grant : Granted
narrowed_grant = record {
  resource_class = messages;
  scopes = "messages.read" ∷ [];
  defaulted = false;
  narrowed = "mcp:core" ∷ [];
}

resolve-IsGrant_example :
    (resolve_resource_class deployment
        (str "https://cairnstone-messages.jaredtechfit.workers.dev/mcp")
      ≡ some messages)
    × IsGrant messages (parse_requested_scopes mixed) narrowed_grant
unfolding resolve_resource_scope_policy ◌>>=◌ resolve_resource_class parse_requested_scopes words
    pieces distinct_after normalize_registered_resource drop_slashes trim is_canonical_core_resource
    is_canonical_messages_resource decide_requested sort_scopes registered_scope_owner
resolve-IsGrant_example =
    resolve-IsGrant deployment (str "https://cairnstone-messages.jaredtechfit.workers.dev/mcp")
      mixed narrowed_grant refl

abbrev core_grant : Granted
core_grant = record {
  resource_class = core;
  scopes = "mcp:core" ∷ [];
  defaulted = false;
  narrowed = [];
}

unregistered_refused_example :
    resolve_resource_scope_policy deployment
      (str "https://cairnstone-v6.jaredtechfit.workers.dev/mcp/core-auth")
      (texts ("mcp:core" ∷ "admin" ∷ []))
    ≢ ok core_grant
unfolding parse_requested_scopes distinct_after registered_scope_owner trim
unregistered_refused_example =
    unregistered_refused deployment
      (str "https://cairnstone-v6.jaredtechfit.workers.dev/mcp/core-auth")
      (texts ("mcp:core" ∷ "admin" ∷ [])) "admin" (inr (inl refl)) refl core_grant
