-- ===== src/Review/Tests.antt =====
-- A review of two drafts, and the theorems at it: drafts/services.py.
use takulife.Common.{arith, String, true, some, none, List, [], ◌∷◌, ◌≡◌, refl, codes, first}
use takulife.Publishing.Checks.{validate_publish_fields}
use takulife.Publishing.Events.{create_published_event, insert_event}
use takulife.Publishing.Slots.{reconcile_category_palette_slot}
use takulife.Review.Model.{approved, collected, heuristic, Payload, Update, Platform, Db}
use takulife.Review.Drafts.{
  create_draft, update_draft, approve_draft, reject_draft, reopen_draft, as_approved, new_draft,
}
use takulife.Review.Machine.{Request, handle_all, view, Steps, lookup_review, review}
use takulife.Review.Machine.Simulates.{IsNumbered}
use takulife.Review.Machine.Refines.{handle_all-refines}
use takulife.Review.Machine.Final.{approved_is_final}

abbrev env : Platform
env = record {
  publisher = record { netloc_is_valid = λ t. true; fits = λ f. true };
  draft_fits = λ p. true;
}

abbrev payload : String → Payload
payload url = record {
  source_url = codes url;
  source_name = [];
  raw_title = codes "Live";
  raw_text = [];
  extracted_title = [];
  extracted_category = "";
  extracted_work_title = [];
  extracted_location_name = [];
  extracted_region = "";
  extracted_start_date = none;
  extracted_end_date = none;
  extracted_summary = [];
  extraction_method = heuristic;
  origin = collected;
  intake_note = [];
  discovery_run = none;
}

abbrev empty : Db
empty = record {
  site = record { events = []; categories = []; next_id = 1; action_log = [] };
  drafts = [];
  next_draft = 1;
}

abbrev requests : List Request
requests =
    Request.create (payload "https://example.com/a")
    ∷ Request.create (payload "https://example.com/b")
    ∷ Request.reject 1 7 100 []
    ∷ Request.approve 1 7 110
    ∷ Request.reopen 1 120
    ∷ Request.edit 1 (Update.extracted_region "seoul" ∷ [])
    ∷ Request.approve 1 7 130
    ∷ Request.reject 1 7 140 []
    ∷ []

-- The rejected draft is approved after it was reopened, and then no longer rejected.
review_run :
    lookup_review (handle_all env requests empty).drafts 1
    ≡ some (review approved (codes "https://example.com/a"))
unfolding handle_all create_draft update_draft approve_draft reject_draft reopen_draft
    create_published_event validate_publish_fields insert_event reconcile_category_palette_slot
review_run = refl

handle_all-refines_example :
    IsNumbered (handle_all env requests empty)
    × Steps (view empty) (view (handle_all env requests empty))
handle_all-refines_example = handle_all-refines env requests empty tt

-- A state in which the first draft is approved.
abbrev judged : Db
judged = record {
  site = empty.site;
  drafts = as_approved 7 130 (new_draft (payload "https://example.com/a") empty) ∷ [];
  next_draft = 2;
}

found_approved :
    lookup_review judged.drafts 1 ≡ some (review approved (codes "https://example.com/a"))
unfolding first
found_approved = refl

approved_is_final_example :
    lookup_review (handle_all env requests judged).drafts 1
    ≡ some (review approved (codes "https://example.com/a"))
approved_is_final_example =
    approved_is_final env requests judged 1 (codes "https://example.com/a") (omega arith, tt)
      found_approved
