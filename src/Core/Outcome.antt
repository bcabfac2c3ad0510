-- ===== src/Core/Outcome.antt =====
-- core/runner.py: the durable outcome of a run, refused or allowed.
use mathlib.Core.Path.{subst}
use ai_engineering_os.Storage.Session.Calls.{commit_elim}
use ai_engineering_os.Storage.Session.{Session, commit, done, for_event, lift, ◌>>◌}
use ai_engineering_os.Storage.Keeps.{IsKept, chain_elim}
use ai_engineering_os.Storage.Database.{Database}
use ai_engineering_os.Base.{
  Bool, List, Option, StrEnum, [], ap, false, ok, refl, same, sym, true, ◌++◌, ◌+◌, ◌∙◌, ◌∷◌, ◌≡◌,
}
use ai_engineering_os.Domain.Event.{
  EventType, OsEvent, Payload, Reason, TransitionAuditRecord, TransitionOutcome, event_type_enum,
  transition_outcome_enum,
}
use ai_engineering_os.State.Machine.{TransitionEvaluation}
use ai_engineering_os.Rules.Results.{RuleEvaluation}
use ai_engineering_os.Core.Runner.{
  TransitionRequest, TransitionResult, allow, allowed_detail, append_audit, append_event, conclude,
  evaluated, is_allowed_outcome, is_refused, reasons_of, refusal_detail, refuse, run, settle,
}
use ai_engineering_os.Core.Safety.{append_audit-Keeps, append_event-Keeps}
use ai_engineering_os.Core.Record.{IsAuditOf, IsEventOf, append_audit_elim, append_event_elim}

-- A commit makes exactly the staged state durable, and announces what was queued.
commit_then_elim :
    {Value : Type 0} (value : Value) (s : Session) {r : Value}
    → ((commit >> done value) s).0 ≡ ok r
    → (value ≡ r)
      × (((commit >> done value) s).1 ≡ record s {
        calls = s.calls + 1;
        durable = s.pending;
        queued = [];
        delivered = s.delivered ++ s.queued;
      })
commit_then_elim value s h =
    let (u, returned, same, after) = chain_elim commit (λ _. done value) s h in
    (cc same, after ∙ commit_elim s returned)

-- Both ledgers of a database, longer by one record each.
unfoldable pub with_records : Database → TransitionAuditRecord → OsEvent → Database
with_records db audit event = record db {
  transition_audit = db.transition_audit ++ audit ∷ [];
  events = db.events ++ event ∷ [];
}

-- What is durable after an outcome that started from `start` and was recorded: the two records,
-- nothing staged, and the wake-up of the event behind those that already waited.
pub record IsRecorded (s t : Session) (start : Database) (audit : TransitionAuditRecord)
    (event : OsEvent) : Type 0 where
  pub durable : t.durable ≡ with_records start audit event
  pub settled : t.pending ≡ t.durable
  pub queued : t.queued ≡ []
  pub delivered : t.delivered ≡ s.delivered ++ (s.queued ++ for_event event ∷ [])

combine :
    (s s1 s2 t : Session) (audit : TransitionAuditRecord) (event : OsEvent)
    → s1.pending ≡ record s.pending { transition_audit = s.pending.transition_audit ++ audit ∷ [] }
    → s1.queued ≡ s.queued
    → IsKept s s1
    → s2.pending ≡ record s1.pending { events = s1.pending.events ++ event ∷ [] }
    → s2.queued ≡ s1.queued ++ for_event event ∷ []
    → IsKept s1 s2
    → t ≡ record s2 {
      calls = s2.calls + 1;
      durable = s2.pending;
      queued = [];
      delivered = s2.delivered ++ s2.queued;
    }
    → IsRecorded s t s.pending audit event
unfolding with_records
combine s s1 s2 t audit event p1 q1 k1 p2 q2 k2 e =
    let grown : s2.pending ≡ with_records s.pending audit event =
      p2 ∙ ap (λ (db : Database). record db { events = db.events ++ event ∷ [] }) p1 in
    let sent : s2.delivered ++ s2.queued ≡ s.delivered ++ (s.queued ++ for_event event ∷ []) =
      rw (k2.delivered, k1.delivered, q2, q1) refl in
    rw e (record { durable = grown; settled = refl; queued = refl; delivered = sent })

module _ {S : Type 0} ⦃e : StrEnum S⦄ (request : TransitionRequest S) where
  -- The facts of a result that was returned from `s`, with the session `t` after it.
  pub record IsOutcome (outcome : TransitionOutcome) (reasons : List Reason)
      (event_type : EventType) (detail : Payload) (s t : Session) (r : TransitionResult S)
      : Type 0 where
    pub recorded : IsRecorded s t s.pending r.audit r.event
    pub audit_of : IsAuditOf request outcome reasons r.audit
    pub is_allowed_is : r.is_allowed ≡ is_allowed_outcome outcome
    pub event_of : IsEventOf request event_type detail r.event

  pub conclude_elim :
      (outcome : TransitionOutcome) (reasons : List Reason) (event_type : EventType)
      (detail : Payload) (transition : TransitionEvaluation S) (rules : Option RuleEvaluation)
      (s : Session) {r : TransitionResult S}
      → (conclude request outcome reasons event_type detail transition rules s).0 ≡ ok r
      → IsOutcome outcome reasons event_type detail s
          (conclude request outcome reasons event_type detail transition rules s).1
          r
  unfolding conclude
  conclude_elim outcome reasons event_type detail transition rules s {r} h =
      let (audit, ha, h1, p1) = chain_elim (append_audit request outcome reasons) _ s h in
      let s1 = (append_audit request outcome reasons s).1 in
      let (event, hb, h2, p2) = chain_elim (append_event request event_type detail) _ s1 h1 in
      let s2 = (append_event request event_type detail s1).1 in
      let (same, p3) = commit_then_elim _ s2 h2 in
      let (a1, a2, a3) = append_audit_elim request outcome reasons s ha in
      let (b1, b2, b3) = append_event_elim request event_type detail s1 hb in
      subst
        (λ r.
          IsOutcome outcome reasons event_type detail s
            (conclude request outcome reasons event_type detail transition rules s).1 r)
        same
        (record {
          recorded =
              combine s s1 s2 _ audit event a1 a2
                ((append_audit-Keeps request outcome reasons).kept s) b1 b2
                ((append_event-Keeps request event_type detail).kept s1) (p1 ∙ p2 ∙ p3);
          audit_of = a3;
          is_allowed_is = refl;
          event_of = b3;
        })

module _ {S : Type 0} ⦃e : StrEnum S⦄ (request : TransitionRequest S) where
  -- What a run that returned `r` has done.
  pub data RunOutcome (s t : Session) (r : TransitionResult S) : Type 0 where
    refused :
        (transition : TransitionEvaluation S) (rules : Option RuleEvaluation)
        → evaluated request ≡ ok (transition, rules)
        → is_refused transition rules ≡ true
        → IsOutcome request TransitionOutcome.rejected
            (reasons_of transition rules)
            EventType.state_transition_rejected
            (refusal_detail (reasons_of transition rules))
            s
            t
            r
        → RunOutcome s t r
    allowed :
        (transition : TransitionEvaluation S) (rules : Option RuleEvaluation) (u : Unit {0})
        → evaluated request ≡ ok (transition, rules)
        → is_refused transition rules ≡ false
        → (request.apply s).0 ≡ ok u
        → IsOutcome request TransitionOutcome.allowed [] request.allowed_event_type allowed_detail
            (request.apply s).1
            t
            r
        → RunOutcome s t r

  -- A run that returns has taken one of two ways. Refused: the state machine or a rule refused, no
  -- entity changed, and what became durable is the state before with one more audit record, which is
  -- REJECTED and holds the reasons, and one more StateTransitionRejected event. Allowed: both the
  -- state machine and the rules allowed, the mutation returned, and what became durable is its state
  -- with one more audit record, which is ALLOWED, and one more event of the requested type. In both
  -- cases nothing is left staged and the wake-up of the event is sent after those already waiting.
  pub run-RunOutcome :
      (s : Session) (r : TransitionResult S)
      → (run request s).0 ≡ ok r
      → RunOutcome s (run request s).1 r
  unfolding run settle refuse allow
  run-RunOutcome s r h =
      let (v, he, h1, p1) = chain_elim (lift (evaluated request)) _ s h in
      subst (λ t. RunOutcome s t r) (sym p1) (by_verdict v.0 v.1 he (is_refused v.0 v.1) refl h1)
    where
      by_verdict :
          (transition : TransitionEvaluation S) (rules : Option RuleEvaluation)
          → evaluated request ≡ ok (transition, rules)
          → (refuses : Bool) → is_refused transition rules ≡ refuses
          → (settle request refuses transition rules s).0 ≡ ok r
          → RunOutcome s (settle request refuses transition rules s).1 r
      by_verdict transition rules he true k m =
          RunOutcome.refused transition rules he k
            (conclude_elim request _ _ _ _ transition rules s m)
      by_verdict transition rules he false k m =
          let (u, ha, m1, p) = chain_elim request.apply _ s m in
          RunOutcome.allowed transition rules u he k ha (
            subst
              (λ t.
                IsOutcome request TransitionOutcome.allowed [] request.allowed_event_type
                  allowed_detail (request.apply s).1 t r)
              (sym p) (conclude_elim request _ _ _ _ transition rules (request.apply s).1 m1))
