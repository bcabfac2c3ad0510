-- ===== src/Storage/Repositories/Actors.antt =====
-- storage/repositories/actor_repo.py, at the level of rows.
use ai_engineering_os.Domain.Actor.{Actor}
use ai_engineering_os.Domain.Enums.{
  ActorRole, actor_role_enum, capability_type_enum, decision_scope_enum, defect_status_enum,
  evidence_source_type_enum, evidence_type_enum, feature_status_enum, initiator_enum,
  plan_status_enum, qa_status_enum, review_outcome_enum, task_status_enum, work_package_status_enum,
}
use ai_engineering_os.Storage.Mappers.Actor.{ActorRow, apply_actor, to_actor_row, to_domain_actor}
use ai_engineering_os.Storage.Repositories.{
  RowType, Rows, listed, require_row, rows_where, save_row, stage,
}
use ai_engineering_os.Storage.Mappers.{value_of}
use ai_engineering_os.Base.{Bool, List, Result, and_then, str_eq, ℕ, ◌&&◌}

abbrev pub actor_row_type : (ActorRow → ActorRow → Bool) → RowType ActorRow
actor_row_type differs = record {
  id_of = λ row. row.id;
  version_of = λ row. row.version;
  at_version = λ version row. record row { version = version };
  differs = differs;
}

module _ (differs : ActorRow → ActorRow → Bool) where
  abbrev t : RowType ActorRow
  t = actor_row_type differs

  unfoldable pub add : Actor → Rows ActorRow → Result (Unit {0}) × Rows ActorRow
  add actor s = stage t (to_actor_row actor) s

  unfoldable pub get_by_id : ℕ → Rows ActorRow → Result Actor × Rows ActorRow
  get_by_id entity_id s = and_then (require_row t entity_id s) (λ row u. (to_domain_actor row, u))

  unfoldable pub save : Actor → Rows ActorRow → Result (Unit {0}) × Rows ActorRow
  save actor s = and_then (require_row t actor.id s) (λ row u. save_row t row (apply_actor actor) u)

  unfoldable pub list_active_by_role :
      ActorRole → Rows ActorRow → Result (List Actor) × Rows ActorRow
  list_active_by_role held s =
      listed to_domain_actor
        (rows_where t (λ row. str_eq row.role (value_of held) && row.is_active) (λ row. row.id) s)
