-- ===== src/Domain/Plan.antt =====
-- domain/plan.py: Feature Plans, their Task definitions, and the search for a dependency cycle.
pub mod Cycle
pub mod Acyclic
use ai_engineering_os.Base.{
  Bool, Error, List, Option, Result, String, all, any, elem, err, filter, find, if◌then◌else◌,
  is_empty, is_some, leb, map, no_duplicates, not, ok, same, str_eq, ℕ, ◌&&◌,
}
use ai_engineering_os.Domain.Enums.{
  CapabilityType, PlanStatus, actor_role_enum, capability_type_enum, evidence_type_enum,
  feature_status_enum, initiator_enum, plan_status_enum, task_status_enum, work_package_status_enum,
}
use ai_engineering_os.Domain.Plan.Cycle.{find_cycle}

pub record TaskDefinition : Type 0 where
  pub key : String
  pub title : String
  pub capability : CapabilityType
  pub depends_on : List String

unfoldable pub is_valid_definition : TaskDefinition → Bool
unfolding any no_duplicates
is_valid_definition definition =
    not (any (str_eq definition.key) definition.depends_on)
    && no_duplicates str_eq definition.depends_on

pub record FeaturePlan : Type 0 where
  pub id : ℕ
  pub feature_id : ℕ
  pub revision_number : ℕ
  pub created_by : ℕ
  pub status : PlanStatus
  pub required_capabilities : List CapabilityType
  pub task_definitions : List TaskDefinition
  pub created_at : ℕ

abbrev pub definition_keys : FeaturePlan → List String
definition_keys plan = map (λ d. d.key) plan.task_definitions

-- The dictionary `{d.key: d.depends_on for d in self.task_definitions}`.
abbrev pub dependency_graph : FeaturePlan → List (String × List String)
dependency_graph plan = map (λ d. (d.key, d.depends_on)) plan.task_definitions

-- The validators of `FeaturePlan`, in the order of the class, and the bound `ge=1`.
unfoldable pub is_valid_plan : FeaturePlan → Bool
unfolding any all no_duplicates
is_valid_plan plan =
    leb 1 plan.revision_number
    && (no_duplicates same plan.required_capabilities
        && (no_duplicates str_eq (definition_keys plan)
            && (all (λ d. all (λ key. any (str_eq key) (definition_keys plan)) d.depends_on)
                  plan.task_definitions
                && (not (is_some (find_cycle (dependency_graph plan)))
                    && (all (λ d. elem d.capability plan.required_capabilities)
                          plan.task_definitions
                        && not (
                            not (same plan.status PlanStatus.draft)
                            && is_empty plan.task_definitions))))))

unfoldable pub validated_plan : FeaturePlan → Result FeaturePlan
validated_plan plan = if is_valid_plan plan then ok plan else err Error.validation

unfoldable pub dependency_free_keys : FeaturePlan → List String
unfolding filter
dependency_free_keys plan =
    map (λ d. d.key) (filter (λ d. is_empty d.depends_on) plan.task_definitions)

unfoldable pub definition_of : FeaturePlan → String → Option TaskDefinition
unfolding find
definition_of plan key = find (λ d. str_eq d.key key) plan.task_definitions

unfoldable pub plan_with_status : FeaturePlan → PlanStatus → Result FeaturePlan
unfolding validated_plan
plan_with_status plan status = validated_plan (record plan { status = status })
