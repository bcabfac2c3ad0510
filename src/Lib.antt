-- ===== src/Lib.antt =====
-- AI Engineering OS: the kernel that turns a requested transition of a Task or a Feature into a
-- durable fact, with the lifecycle graphs and the rules that decide it.
--
-- The program, and how its parts interact. A client asks the kernel (src/ai_engineering_os/core) for
-- one operation. The kernel loads the entity and the facts about it (core/context_loader.py), and
-- hands one request to the runner (core/runner.py). The runner asks the lifecycle graph
-- (src/ai_engineering_os/state) whether the edge exists and who may ask for it, then the rule engine
-- (src/ai_engineering_os/rules) whether the conditions of the edge hold. A refusal changes no entity;
-- an approval applies the mutation. Both append one audit record and one event, queue one
-- notification (src/ai_engineering_os/events/bus.py), and commit (storage/unit_of_work.py).
--
-- Which file models which part (paths below src/ai_engineering_os):
--   Base           Python's builtins: exceptions as values, comprehensions, `sorted`, `StrEnum`.
--   Domain         domain/: one file for each module, entities as records; the validators of an
--                  entity are one Boolean test, and every `_evolve` runs through it.
--                  Plan/Cycle/Reaches is the specification of the search for a cycle, the other
--                  children of Plan/Cycle and Plan/Acyclic prove.
--   State          state/: Machine is machine.py; TaskSm, FeatureSm, PlanSm and WorkPackageSm are the
--                  four graphs; Machine/Verdict, Machine/Laws, Walk, TaskSm/Walks and
--                  WorkPackageSm/Authority prove.
--   Rules          rules/: Engine, Results, Context, Facts, Codes and Registry are the engine and its
--                  vocabulary; Authority, Planning, Dependencies, Submission, Evidence, Verification,
--                  Acceptance and Selection are the rules. Engine/Judging, Engine/Coverage,
--                  Registry/Sound and Registry/Gate prove.
--   Storage        storage/: Database has the tables and the reads of the repositories, Session the
--                  unit of work and the notifications, Writes the writes; Session/Calls, Keeps, Appends,
--                  Closed and Preserves prove.
--                  Stream has the reads of the event stream. Mappers (storage/models and
--                  storage/mappers) has the rows and the mappers (Mappers/Json the JSON objects of
--                  QA Reports), and Repositories base.py and every
--                  repository on rows; the kernel is modelled over the tables of entities, which
--                  Repositories/Refines relates to the rows of Tasks. Mappers/Reading, Labels,
--                  RoundTrip and Ledgers, and Repositories/Locking, Frozen, Submitted and Refines
--                  prove.
--   Events         events/listener.py: Listener is the subscriber; its children prove.
--   Core           core/: Routing and ContextLoader are the modules of these names; runner.py is
--                  Rendering (reasons, payloads) and Runner; kernel.py is Mutations (the `apply`
--                  closures, `_instantiate`), Requests (what each operation hands to the runner) and
--                  Kernel (the operations). Kernel/Calls and Kernel/History are a client that calls
--                  them one after the other, each in a transaction of its own. Safety, Record,
--                  Outcome, Reasons, Durable, Eligibility and the other children of Kernel prove.
--
-- How state and errors are modelled. A call that uses the session is a function from the session to a
-- result and a session; a raised exception is an `err` that keeps the session as it was at that
-- moment. The session holds the committed database, the one that the transaction sees, and the
-- notifications queued and delivered. A table is the list of its entities. `uuid4`, the clock,
-- PostgreSQL's identity columns and the size of a JSON text are not code of the repository: they are
-- the functions of `Outside`, arbitrary ones, indexed by the number of draws made so far. So is whether
-- the database answers a call: any read, write, notification or commit of the session may raise
-- PersistenceError instead. Of PostgreSQL, the model uses that such a call has changed nothing; in
-- particular, a commit that raises has committed nothing.
--
-- Bounds and fuel. Identifiers and instants are natural numbers, Python's integers are unbounded. The
-- loops on fuel are `find_cycle` of Domain/Plan/Cycle and the `drain` of Events/Listener. `find_cycle`
-- starts with the number of keys of the graph plus two: a nested call is for one more key on the path,
-- and one call more for a node that is no key, so that fuel is never used up. A drain takes one unit
-- of fuel for each batch that it reads; how many it needs depends on what is appended meanwhile.
--
-- What is not modelled. Texts of messages, which no decision reads, and the constraints of single text
-- fields (NonEmptyText, Slug). Other transactions between the reads and the commit of one operation of
-- the kernel: optimistic locking is modelled in Storage/Repositories. How SQLAlchemy finds a row
-- modified is a parameter there. A connection that is lost after the server has committed, so that the
-- client does not hear of it; the further statements of a transaction that PostgreSQL has aborted. The
-- JSON of the columns other than those of QA Reports stands as what it encodes, and the coercions of
-- pydantic between JSON types are left out. Of storage/models, the metadata columns and the CHECK
-- constraints; storage/database.py, config.py, main.py and migrations/. The asyncio tasks of
-- events/listener.py. Tests, documents and prompts.
pub mod Base
pub mod Core
pub mod Domain
pub mod State
pub mod Rules
pub mod Storage
pub mod Events
