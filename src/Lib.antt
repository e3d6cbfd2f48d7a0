-- ===== src/Lib.antt =====
-- takulife: a Django service in which fans find official events, keep a private archive of their
-- visits and goods, and in which the staff reviews drafts of events that a runner on another machine
-- finds. This library models the parts of the service that keep state, as functions on the rows of
-- their tables, and proves what makes them correct.
--
-- The parts and how they interact. The views and the API call the service functions; these write to
-- the tables in transactions and raise exceptions that the views turn into answers. The staff asks
-- for a discovery run, a runner claims it, renews its lease while it submits drafts and candidates,
-- and completes it (Discovery). A candidate is checked by the server, and one that passes becomes a
-- source, from which the first drafts are made (Submission). The staff updates, rejects, reopens and
-- approves drafts (Review); an approval publishes an event, which the staff's console also creates, edits, unpublishes and
-- deletes, and events belong to categories, which hold the slots of a palette of colours
-- (Publishing). What a language model is shown of a page stands between delimiters that the page
-- cannot forge (Extraction). A runner takes the published events without a current translation from
-- a queue and submits translations, of which the doubtful ones are quarantined (Translation). A user
-- marks events, records visits with photos, and keeps entries and collection items of their own;
-- each action is written to an activity log in the same transaction, and to the analytics after it
-- (Archive). Errors of the server and of the browsers are gathered in groups (Faults). Lists are
-- shown in pages (Paging). An account is deleted ten days after its user asked for it, and has
-- limits on tries and changes (Accounts).
--
-- Which file models which part:
--   Discovery   drafts/discovery_runs.py, and the rows of drafts/models.py. Model has the rows
--               (SourceDiscoveryRun, SourceCandidate, DiscoveryRunnerStatus), Runner the heartbeats
--               (record_heartbeat, record_offline, runner_is_online), Runs the requests and leases
--               (create_run, claim, renew_lease, locked_run_with_valid_lease), Outcomes the cleaning
--               of what a runner reports, Complete the end of a run (complete_run), and Reach the
--               operations in any order.
--   Submission  drafts/candidate_validation.py, drafts/candidate_intake.py, the collection of a
--               page in drafts/services.py (create_collected_draft_from_url) and DraftSource and
--               SourceCandidate of drafts/models.py. Payload has the cleaning (validate_payload),
--               Checks the checks in their order, Store the rows under the lease and the limit
--               (_save_failed_candidate), Intake the first drafts (decide_and_create_candidate),
--               Candidates and Accounts the two requests (submit_candidate,
--               register_account_source). Agent has the cleaning of an event that the runner found
--               and Events its submission, both of drafts/agent_drafts.py; Requests has the
--               sequences of the three requests.
--   Review      drafts/services.py from persist_prepared_draft on, and EventDraft of drafts/models.py.
--               Drafts has the functions, Machine the abstract machine that they implement.
--   Publishing  events/services.py, events/models.py, events/signals.py, core/categories.py, Category of
--               core/models.py, the vocabularies of core/vocab.py and the views of staff/views/events.py,
--               events_actions.py and categories.py that write. Urls has _is_allowed_official_url,
--               Checks the two forms of the checks before publishing, Slots the palette slots
--               (reconcile_palette_slot, Category.save), Events the service functions, Console the
--               views with their log, Requests their sequences.
--   Extraction  the delimiters of the prompt in drafts/llm_extraction.py.
--   Translation events/translation_queue.py and events/content_translation.py. Rules has
--               validate_translations and select_display, for any rule of quarantine; Quarantine the
--               program's rule (quarantine_reason) and the hash; Queue the queue.
--   Archive     archive/services.py, archive/models.py, archive/querysets.py, the receiver of
--               archive/signals.py for photos where a visit record is deleted, and record_event of
--               core/analytics.py. Model has the rows, Store what the services share (_record_activity,
--               _subject_label, _subject_target), Status and Interests the two marks of an event, Visits the
--               visit records, Photos, Entries and Items the rest, Derived the status that a user sees.
--   Faults      core/error_groups.py and ErrorGroup of core/models.py: Key the cleaning of texts to a
--               key, Groups the rows, Hourly the limit of the public endpoint.
--   Paging      core/pagination.py, the whole file.
--   Accounts    accounts/services.py and the columns of User that it writes.
--   Common      what the models share: tests on numbers and texts, lists read as tables with the
--               query-set methods that the program calls, tables with keys, actions on a stored state
--               with exceptions, and signed integers.
--
-- How the code is read. A table is the list of its rows, in the order of their insertion; `filter`,
-- `first`, `exists`, `count` and `update` are functions on it, and one number gives the next primary
-- key. A service function is an action: it takes the stored state and gives a result, or the
-- exception, beside the new state; `atomic` gives the old state back where the block raised. Unique
-- and check constraints are tests of the insertion, which raises `integrity`. A lock that the code
-- takes on a row makes the operations run one after another, which is how they are composed here;
-- where the code expects that another request comes between two of its steps, what this request
-- commits is an argument (`rival`, and `Race` for a completed visit, whose row may also be withdrawn
-- between the steps). A submission that uses the network reads the clock before it and
-- after it (`now` and `later`). The clock is read once for each operation; times are seconds,
-- dates are days, a UUID is a number. Texts that are walked are lists of code points, names are
-- strings. The loops run over lists, but for one: the rounds of the removal of delimiters are bounded
-- by the length of the text and one more, which is enough since each round makes the text shorter.
-- A title, a category or a region that a caller leaves out is the empty text.
--
-- Parameters. The hash of a fingerprint, the cleaning of a URL from its tracking parameters,
-- Django's validation of the fields of an item, the time that the cache keeps a counter, the dates
-- of events, the network locations that `urlsplit` accepts, the widths of columns (`fits`,
-- `draft_fits`), the regular expressions, normal forms and hash that the translations are judged
-- with (`Python`), what the network gives to a submission (`Web`: which addresses are unsafe,
-- robots.txt, the URLs of a listing, the texts of pages and the dates in them), `urlsplit`
-- (`split`), the fetches that a new source may use (`budget`), what Python does to values of a
-- payload that are no texts and the second reading of an event's page (`Python` of
-- Submission/Agent.antt, `recheck`), and what the archive holds of an event when it is deleted are
-- arguments of the definitions that use them.
--
-- Not modelled: the views that only read, serializers, templates and settings, the fetching and
-- extraction of pages, the calls of language models, the masking of error messages, and the calendar.
pub mod Common
pub mod Accounts
pub mod Archive
pub mod Discovery
pub mod Extraction
pub mod Faults
pub mod Paging
pub mod Publishing
pub mod Review
pub mod Submission
pub mod Translation
