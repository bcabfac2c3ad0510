-- ===== src/Domain/Enums/Actors.antt =====
-- The actors of domain/enums.py: roles, the OS itself, and initiators, which are either.
use ai_engineering_os.Base.{List, StrEnum, String, [], get_elem?, refl, some, ℕ, ◌∷◌, ◌≡◌}

pub data ActorRole : Type 0 where
  builder orchestrator coordinator worker reviewer qa : ActorRole

abbrev actor_role_members : List ActorRole
actor_role_members =
    ActorRole.builder ∷ ActorRole.orchestrator ∷ ActorRole.coordinator ∷ ActorRole.worker
    ∷ ActorRole.reviewer ∷ ActorRole.qa ∷ []

abbrev actor_role_index : ActorRole → ℕ
actor_role_index ActorRole.builder = 0
actor_role_index ActorRole.orchestrator = 1
actor_role_index ActorRole.coordinator = 2
actor_role_index ActorRole.worker = 3
actor_role_index ActorRole.reviewer = 4
actor_role_index ActorRole.qa = 5

abbrev actor_role_label : ActorRole → String
actor_role_label ActorRole.builder = "BUILDER"
actor_role_label ActorRole.orchestrator = "ORCHESTRATOR"
actor_role_label ActorRole.coordinator = "COORDINATOR"
actor_role_label ActorRole.worker = "WORKER"
actor_role_label ActorRole.reviewer = "REVIEWER"
actor_role_label ActorRole.qa = "QA"

pub actor_role_index_members :
    (a : ActorRole) → get_elem? actor_role_members (actor_role_index a) ≡ some a
actor_role_index_members ActorRole.builder = refl
actor_role_index_members ActorRole.orchestrator = refl
actor_role_index_members ActorRole.coordinator = refl
actor_role_index_members ActorRole.worker = refl
actor_role_index_members ActorRole.reviewer = refl
actor_role_index_members ActorRole.qa = refl

instance abbrev pub actor_role_enum : StrEnum ActorRole
actor_role_enum = record {
  members = actor_role_members;
  index = actor_role_index;
  label = actor_role_label;
  index_members = actor_role_index_members;
}

pub data SystemActor : Type 0 where
  os : SystemActor

-- `type Initiator = ActorRole | SystemActor`
pub data Initiator : Type 0 where
  role : ActorRole → Initiator
  system : SystemActor → Initiator

abbrev initiator_index : Initiator → ℕ
initiator_index (role r) = actor_role_index r
initiator_index (system SystemActor.os) = 6

abbrev initiator_label : Initiator → String
initiator_label (role r) = actor_role_label r
initiator_label (system SystemActor.os) = "OS"

abbrev initiator_members : List Initiator
initiator_members =
    role ActorRole.builder
    ∷ role ActorRole.orchestrator
    ∷ role ActorRole.coordinator
    ∷ role ActorRole.worker
    ∷ role ActorRole.reviewer
    ∷ role ActorRole.qa
    ∷ system SystemActor.os
    ∷ []

pub initiator_index_members :
    (a : Initiator) → get_elem? initiator_members (initiator_index a) ≡ some a
initiator_index_members (role ActorRole.builder) = refl
initiator_index_members (role ActorRole.orchestrator) = refl
initiator_index_members (role ActorRole.coordinator) = refl
initiator_index_members (role ActorRole.worker) = refl
initiator_index_members (role ActorRole.reviewer) = refl
initiator_index_members (role ActorRole.qa) = refl
initiator_index_members (system SystemActor.os) = refl

instance abbrev pub initiator_enum : StrEnum Initiator
initiator_enum = record {
  members = initiator_members;
  index = initiator_index;
  label = initiator_label;
  index_members = initiator_index_members;
}

pub data DecisionScope : Type 0 where
  feature system business : DecisionScope

abbrev decision_scope_members : List DecisionScope
decision_scope_members = DecisionScope.feature ∷ DecisionScope.system ∷ DecisionScope.business ∷ []

abbrev decision_scope_index : DecisionScope → ℕ
decision_scope_index DecisionScope.feature = 0
decision_scope_index DecisionScope.system = 1
decision_scope_index DecisionScope.business = 2

abbrev decision_scope_label : DecisionScope → String
decision_scope_label DecisionScope.feature = "FEATURE"
decision_scope_label DecisionScope.system = "SYSTEM"
decision_scope_label DecisionScope.business = "BUSINESS"

pub decision_scope_index_members :
    (a : DecisionScope) → get_elem? decision_scope_members (decision_scope_index a) ≡ some a
decision_scope_index_members DecisionScope.feature = refl
decision_scope_index_members DecisionScope.system = refl
decision_scope_index_members DecisionScope.business = refl

instance abbrev pub decision_scope_enum : StrEnum DecisionScope
decision_scope_enum = record {
  members = decision_scope_members;
  index = decision_scope_index;
  label = decision_scope_label;
  index_members = decision_scope_index_members;
}
