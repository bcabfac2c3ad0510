-- ===== src/Rules/Selection.antt =====
-- rules/selection.py: the selectors that several rules share.
use ai_engineering_os.Base.{Bool, List, Option, filter, find, if◌then◌else◌, ltb, none, ◌&&◌, ◌==◌}
use ai_engineering_os.Domain.Task.{Task}
use ai_engineering_os.Domain.Task.Revision.{TaskRevision}
use ai_engineering_os.Domain.Feature.{Feature}
use ai_engineering_os.Domain.Qa.{QaReport}

unfoldable pub current_round_reports : Feature → List QaReport → List QaReport
unfolding filter
current_round_reports feature reports =
    filter (λ r. r.feature_id == feature.id && r.qa_round == feature.qa_round) reports

abbrev pub is_active_of : Task → TaskRevision → Bool
is_active_of task revision =
    revision.task_id == task.id && revision.revision_number == task.active_revision_number

unfoldable pub active_revision : Task → List TaskRevision → Option TaskRevision
unfolding find
active_revision task revisions =
    if ltb task.active_revision_number 1 then none else find (is_active_of task) revisions
