-- ===== src/Core/Config/Accepted.antt =====
-- packages/core/src/config/validate.ts and schema.ts: which configurations are accepted.
use intellibiz.Shared.{ℕ, suc, Bool, true, List, [], ◌∷◌, All, ◌≡◌, ◌⊎◌, refl}
use intellibiz.Shared.Text.{Text}
use intellibiz.Core.Config.{
  sudo_allowed, dry_run_set, no_tenancy, config_validation_error, config_dependency_error, Defined,
  defined, refused, Issue,
}
use intellibiz.Core.Schema.{
  ConfigInput, Messages, is_schema_module, completed, module_issues, issues_of,
}
use intellibiz.Core.Config.Requirements.{
  Requirement, requirements, Met, Applies, AreThose, FirstUnmet, IsValid,
}

-- What the rules make of a configuration that is valid
abbrev RulesVerdict : Bool → ConfigInput → List Requirement → Defined → Type 0
RulesVerdict production i rs (defined c warnings) =
    (c ≡ completed i)
    × All (Met production i) rs
    × AreThose (Applies production i) (sudo_allowed ∷ dry_run_set ∷ no_tenancy ∷ []) warnings
RulesVerdict production i rs (refused (config_dependency_error flag requires)) =
    FirstUnmet (Met production i) rs flag requires
RulesVerdict production i rs (refused (config_validation_error issues)) = ⊥

-- What `defineConfig` promises of its outcome
abbrev pub IsVerdict : Messages → Bool → ConfigInput → Defined → Type 0
IsVerdict messages production i out =
    (IsValid i × RulesVerdict production i requirements out)
    ⊎ (¬ IsValid i × (out ≡ refused (config_validation_error (issues_of messages i))))

-- A list of issues that is empty exactly if a condition holds
abbrev pub Reports : Type 0 → List Issue → Type 0
Reports P issues =
    (P × (issues ≡ [])) ⊎ (¬ P × ((i : Issue) × (rest : List Issue) × (issues ≡ i ∷ rest)))

pub module_issues-valid :
    (messages : Messages) (n : ℕ) (names : List Text)
    → All (λ m. is_schema_module m ≡ true) names
    → module_issues messages n names ≡ []
unfolding module_issues
module_issues-valid messages n [] h = refl
module_issues-valid messages n (m ∷ names) h =
    rw h.0 (module_issues-valid messages (suc n) names h.1)
