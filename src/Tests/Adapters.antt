-- ===== src/Tests/Adapters.antt =====
-- src/core/runtime-adapter.js on two adapters.
use sidewisp_plugin.Prelude.{◌≡◌, refl, String, true, none, some, [], ◌∷◌}
use sidewisp_plugin.Prelude.Codes.{codes, same_text}
use sidewisp_plugin.Core.Adapters.{
  Adapter, adapter_contract, declare_capability, is_safe_id, is_runtime_adapter, get,
  create_adapter_registry,
}

abbrev adapter : String → Adapter
adapter kind = record {
  contract = some adapter_contract;
  id = some (codes kind);
  runtime_kind = some (codes kind);
  version = some (codes "1.2.3");
  declared = λ name. some (declare_capability ("turn-hooks" ∷ []) (λ n. none) name);
  has_method = λ name. true;
}

two_created :
    create_adapter_registry (adapter "openclaw" ∷ adapter "hermes" ∷ [])
    ≡ some (adapter "openclaw" ∷ adapter "hermes" ∷ [])
unfolding create_adapter_registry is_runtime_adapter is_safe_id same_text declare_capability get
two_created = refl

-- Two adapters of one kind are refused.
same_kind_refused : create_adapter_registry (adapter "hermes" ∷ adapter "hermes" ∷ []) ≡ none
unfolding create_adapter_registry is_runtime_adapter is_safe_id same_text declare_capability get
same_kind_refused = refl
