-- ===== src/Submission/Checks.antt =====
-- The checks of `submit_candidate` in drafts/candidate_validation.py, in their order.
use takulife.Common.{
  ℕ, ◌+◌, String, not, ◌&&◌, Option, none, some, List, [], ◌∷◌, leb, exists, Text, text_eq, text_in,
  is_empty, if◌then◌else◌,
}
use takulife.Discovery.Model as Discovery
use takulife.Review.Model as Review
use takulife.Submission.Model.{Stage, Decision, failed, Cleaned, Candidate, Db}
use takulife.Submission.Payload.{Payload, validate_payload, is_domestic}
use takulife.Submission.Intake.{Robots, Listing, unparsed, listed, Sample, raw, no_text, Web}
use takulife.Submission.Store.{source_exists}
pub mod Needs

-- `REUSABLE_FAILURE_STAGES`
abbrev pub is_reusable : Decision → Option Stage
is_reusable (failed Stage.robots reason) = some Stage.robots
is_reusable (failed Stage.sample_mismatch reason) = some Stage.sample_mismatch
is_reusable (failed Stage.listing_extraction reason) = some Stage.listing_extraction
is_reusable _ = none

abbrev pub reuse_window : ℕ
reuse_window = 604800

abbrev pub reusable : ℕ → Text → Candidate → Option Stage
reusable now url c =
    if text_eq c.fields.url url && leb now (c.created_at + reuse_window)
    then is_reusable c.decision
    else none

abbrev pub newer : ℕ × Stage → Option (ℕ × Stage) → Option (ℕ × Stage)
newer a none = some a
newer a (some b) = some (if leb a.0 b.0 then b else a)

-- `order_by("-created_at")`, the stage that the newest of the rows failed at
unfoldable pub newest_failure : ℕ → Text → List Candidate → Option (ℕ × Stage)
unfolding text_eq
newest_failure now url [] = none
newest_failure now url (c ∷ cs) =
    let rest = newest_failure now url cs in
    elim (reusable now url c) [ none ↦ rest | some stage ↦ newer (c.created_at, stage) rest ]

-- What the checks find: the stage that fails with the class of its exception, or the URLs of the
-- listing.
pub data Finding : Type 0 where
  fails : Stage → Option String → Finding
  passes : List Text → Finding

unfoldable pub check_sample : Sample → List Text → Finding
check_sample (Sample.unread e) found = fails Stage.fetch (some e)
check_sample (no_text e) found = fails Stage.sample_canary (some e)
check_sample (raw title text) found =
    if is_empty title && is_empty text then fails Stage.sample_canary none else passes found

unfoldable pub check_listing : Web → Cleaned → Listing → Finding
unfolding check_sample text_in
check_listing web cleaned (Listing.unread e) = fails Stage.fetch (some e)
check_listing web cleaned (unparsed e) = fails Stage.listing_extraction (some e)
check_listing web cleaned (listed []) = fails Stage.listing_extraction none
check_listing web cleaned (listed (u ∷ us)) =
    if text_in cleaned.sample_url (u ∷ us)
    then check_sample (web.sample cleaned.sample_url) (u ∷ us)
    else fails Stage.sample_mismatch none

unfoldable pub check_robots : Robots → Finding → Finding
check_robots Robots.allowed rest = rest
check_robots Robots.disallowed rest = fails Stage.robots none
check_robots Robots.unreachable rest = fails Stage.robots_fetch_failed none

abbrev pub check_safe : Option String → Finding → Finding
check_safe none rest = rest
check_safe (some e) rest = fails Stage.url_safety (some e)

-- The checks that use the network.
unfoldable pub check_pages : Web → Cleaned → Finding
unfolding check_listing check_robots
check_pages web cleaned = check_safe (web.unsafe cleaned.url) (
    check_safe (web.unsafe cleaned.sample_url) (
      check_robots (web.robots cleaned.url) (
        check_robots (web.robots cleaned.sample_url)
          (check_listing web cleaned (web.listing cleaned)))))

abbrev pub check_reuse : Option (ℕ × Stage) → Finding → Finding
check_reuse none rest = rest
check_reuse (some (t, stage)) rest = fails stage none

-- The checks in their order, from the payload to the sample page.
unfoldable pub find : Web → Payload → ℕ → Db → Finding
unfolding validate_payload newest_failure exists is_domestic check_pages
find web p now db =
    let (cleaned, valid) = validate_payload p in
    if not valid
    then fails Stage.schema none
    else if source_exists cleaned.url db
    then fails Stage.duplicate none
    else check_reuse (newest_failure now cleaned.url db.candidates)
        (if is_domestic p then check_pages web cleaned else fails Stage.not_domestic none)
