-- ===== src/Domain/Actor.antt =====
-- domain/actor.py. Every entity of the domain is rebuilt through its validators (`_evolve`), so each
-- has a function `validated` that raises when one of them does.
use ai_engineering_os.Base.{
  Bool, List, Option, String, [], any, elem, is_empty, not, same, ℕ, ◌&&◌, ◌∷◌,
}
use ai_engineering_os.Domain.Enums.{
  ActorRole, CapabilityType, actor_role_enum, capability_type_enum, evidence_type_enum,
  feature_status_enum, initiator_enum, plan_status_enum, task_status_enum, work_package_status_enum,
}

pub record Actor : Type 0 where
  pub id : ℕ
  pub role : ActorRole
  pub name : String
  pub domain : Option String
  pub is_active : Bool
  pub capabilities : List CapabilityType

abbrev pub capability_selected_roles : List ActorRole
capability_selected_roles = ActorRole.worker ∷ ActorRole.reviewer ∷ []

-- `_capability_selected_roles_must_declare_one`
unfoldable pub is_valid_actor : Actor → Bool
unfolding any
is_valid_actor actor =
    not (elem actor.role capability_selected_roles && is_empty actor.capabilities)

unfoldable pub has_capability : Actor → CapabilityType → Bool
unfolding any
has_capability actor capability = elem capability actor.capabilities

unfoldable pub can_be_assigned : Actor → CapabilityType → Bool
unfolding has_capability
can_be_assigned actor capability =
    actor.is_active && (same actor.role ActorRole.worker && has_capability actor capability)

unfoldable pub can_review : Actor → CapabilityType → Bool
unfolding has_capability
can_review actor capability =
    actor.is_active && (same actor.role ActorRole.reviewer && has_capability actor capability)
