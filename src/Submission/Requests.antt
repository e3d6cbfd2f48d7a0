-- ===== src/Submission/Requests.antt =====
-- The requests of the runner that submit candidates and drafts, in any order: `submit_candidate` and
-- `register_account_source` of drafts/candidate_validation.py, `submit_agent_draft` of
-- drafts/agent_drafts.py.
use takulife.Common.{ℕ, String, Option, List, [], ◌∷◌, Text}
use takulife.Review.Model as Review
use takulife.Submission.Model.{Db, Error}
use takulife.Submission.Payload.{Payload}
use takulife.Submission.Intake.{Web}
use takulife.Submission.Candidates.{submit_candidate}
use takulife.Submission.Accounts.{register_account_source}
use takulife.Submission.Agent.{Python, AgentPayload}
use takulife.Submission.Events.{submit_agent_draft}
pub mod Drafts
pub mod Within

-- A request carries what the network, the clock and the other requests give it.
pub data Request : Type 0 where
  candidate : Review.Platform → Web → ℕ → ℕ → (Db → Db) → ℕ → String → Payload → ℕ → ℕ → Request
  account : (Text → Option (Text × Text)) → ℕ → String → Payload → ℕ → Request
  event :
      Python
      → Review.Platform
      → (Text → Option Error)
      → (Db → Db)
      → ℕ
      → ℕ
      → String
      → AgentPayload
      → ℕ
      → ℕ
      → Request

unfoldable pub handle : Request → Db → Db
unfolding submit_candidate register_account_source submit_agent_draft
handle (candidate env web today budget rival id token p now later) db =
    (submit_candidate env web today budget rival id token p now later db).1
handle (account split id token p now) db = (register_account_source split id token p now db).1
handle (event py env recheck rival today id token p now later) db =
    (submit_agent_draft py env recheck rival today id token p now later db).1

unfoldable pub handle_all : List Request → Db → Db
unfolding handle
handle_all [] db = db
handle_all (r ∷ rs) db = handle_all rs (handle r db)
