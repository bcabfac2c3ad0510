-- ===== src/Storage/Mappers/Actor.antt =====
-- storage/models/actor.py and storage/mappers/actor.py.
use ai_engineering_os.Base.{Bool, List, Option, Result, String, map, sorted, str_leb, ℕ, ◌>>=◌}
use ai_engineering_os.Storage.Mappers.{read_member, read_members, reconstruct, value_of}
use ai_engineering_os.Domain.Enums.{
  CapabilityType, actor_role_enum, capability_type_enum, decision_scope_enum, defect_status_enum,
  evidence_source_type_enum, evidence_type_enum, feature_status_enum, initiator_enum,
  plan_status_enum, qa_status_enum, review_outcome_enum, task_status_enum, work_package_status_enum,
}
use ai_engineering_os.Domain.Actor.{Actor, is_valid_actor}

pub record ActorRow : Type 0 where
  pub id : ℕ
  pub role : String
  pub name : String
  pub domain : Option String
  pub is_active : Bool
  pub capabilities : List String
  pub version : ℕ

-- What `apply_actor` writes on a row; the identifier and the version are the row's own.
abbrev actor_columns : Actor → ℕ → ℕ → ActorRow
actor_columns actor id version = record {
  id = id;
  version = version;
  role = value_of actor.role;
  name = actor.name;
  domain = actor.domain;
  is_active = actor.is_active;
  capabilities = sorted str_leb (map (λ (a : CapabilityType). value_of a) actor.capabilities);
}

unfoldable pub apply_actor : Actor → ActorRow → ActorRow
apply_actor actor row = actor_columns actor row.id row.version

unfoldable pub to_actor_row : Actor → ActorRow
to_actor_row actor = actor_columns actor actor.id 1

unfoldable pub to_domain_actor : ActorRow → Result Actor
to_domain_actor row = do
  role_ ← read_member row.role
  capabilities ← read_members row.capabilities
  reconstruct is_valid_actor (record {
    id = row.id;
    role = role_;
    name = row.name;
    domain = row.domain;
    is_active = row.is_active;
    capabilities = capabilities;
  })
