-- ===== src/Submission/Checks/Needs.antt =====
-- What the checks of `submit_candidate` in drafts/candidate_validation.py ask for.
use takulife.Common.{
  ℕ, String, Bool, true, false, not, ◌&&◌, Option, none, some, List, [], ◌∷◌, ◌≡◌, ◌∙◌, refl, ap,
  subst, Text, text_in, is_empty, if◌then◌else◌,
}
use takulife.Submission.Model.{Stage, Cleaned, Db}
use takulife.Submission.Payload.{Payload, validate_payload, is_domestic}
use takulife.Submission.Intake.{Robots, Listing, unparsed, listed, Sample, raw, no_text, Web}
use takulife.Submission.Store.{source_exists}
use takulife.Submission.Checks.{
  Finding, fails, passes, check_sample, check_listing, check_robots, check_safe, check_pages,
  check_reuse, newest_failure, find,
}

-- A page with a title or a text.
abbrev pub HasText : Sample → Type 0
HasText s =
    (title : Text) × (text : Text) × (s ≡ raw title text)
    × ((is_empty title && is_empty text) ≡ false)

-- A listing that is read, and its sample.
pub record Verified (web : Web) (c : Cleaned) (found : List Text) : Type 0 where
  pub safe : web.unsafe c.url ≡ none
  pub sample_safe : web.unsafe c.sample_url ≡ none
  pub robots : web.robots c.url ≡ Robots.allowed
  pub sample_robots : web.robots c.sample_url ≡ Robots.allowed
  pub listing : web.listing c ≡ listed found
  pub sample_listed : text_in c.sample_url found ≡ true
  pub sample_text : HasText (web.sample c.sample_url)

pub record IsNew (p : Payload) (now : ℕ) (db : Db) : Type 0 where
  pub valid : (validate_payload p).1 ≡ true
  pub unknown : source_exists (validate_payload p).0.url db ≡ false
  pub not_failed : newest_failure now (validate_payload p).0.url db.candidates ≡ none
  pub domestic : is_domestic p ≡ true

safe_then :
    (o : Option String) (rest : Finding) (found : List Text)
    → check_safe o rest ≡ passes found
    → (o ≡ none) × (rest ≡ passes found)
safe_then none rest found h = (refl, h)
safe_then (some e) rest found h = cc

robots_then :
    (r : Robots) (rest : Finding) (found : List Text)
    → check_robots r rest ≡ passes found
    → (r ≡ Robots.allowed) × (rest ≡ passes found)
unfolding check_robots
robots_then Robots.allowed rest found h = (refl, h)
robots_then Robots.disallowed rest found h = cc
robots_then Robots.unreachable rest found h = cc

sample_then :
    (s : Sample) (us found : List Text)
    → check_sample s us ≡ passes found
    → HasText s × (us ≡ found)
unfolding check_sample
sample_then (Sample.unread e) us found h = cc
sample_then (no_text e) us found h = cc
sample_then (raw title text) us found h = by_case (is_empty title && is_empty text) refl h
  where
    by_case :
        (b : Bool)
        → (is_empty title && is_empty text) ≡ b
        → (if b then fails Stage.sample_canary none else passes us) ≡ passes found
        → HasText (raw title text) × (us ≡ found)
    by_case true e h = cc
    by_case false e h = ((title, text, refl, e), cc)

listing_then :
    (web : Web) (c : Cleaned) (l : Listing) (found : List Text)
    → check_listing web c l ≡ passes found
    → (l ≡ listed found) × (text_in c.sample_url found ≡ true) × HasText (web.sample c.sample_url)
unfolding check_listing
listing_then web c (Listing.unread e) found h = cc
listing_then web c (unparsed e) found h = cc
listing_then web c (listed []) found h = cc
listing_then web c (listed (u ∷ us)) found h = by_case (text_in c.sample_url (u ∷ us)) refl h
  where
    by_case :
        (b : Bool)
        → text_in c.sample_url (u ∷ us) ≡ b
        → (if b
            then check_sample (web.sample c.sample_url) (u ∷ us)
            else fails Stage.sample_mismatch none)
          ≡ passes found
        → (listed (u ∷ us) ≡ listed found)
          × (text_in c.sample_url found ≡ true)
          × HasText (web.sample c.sample_url)
    by_case true e h =
        let (t, same) = sample_then (web.sample c.sample_url) (u ∷ us) found h in
        (ap listed same, subst (λ x. text_in c.sample_url x ≡ true) same e, t)
    by_case false e h = cc

pages_then :
    (web : Web) (c : Cleaned) (found : List Text)
    → check_pages web c ≡ passes found
    → Verified web c found
unfolding check_pages
pages_then web c found h =
    let (safe, h1) = safe_then (web.unsafe c.url) _ found h in
    let (sample_safe, h2) = safe_then (web.unsafe c.sample_url) _ found h1 in
    let (robots, h3) = robots_then (web.robots c.url) _ found h2 in
    let (sample_robots, h4) = robots_then (web.robots c.sample_url) _ found h3 in
    let (listing, sample_listed, sample_text) = listing_then web c (web.listing c) found h4 in
    record {
      safe = safe;
      sample_safe = sample_safe;
      robots = robots;
      sample_robots = sample_robots;
      listing = listing;
      sample_listed = sample_listed;
      sample_text = sample_text;
    }

unless :
    (b : Bool) (stage : Stage) (rest : Finding) (found : List Text)
    → (if b then fails stage none else rest) ≡ passes found
    → (b ≡ false) × (rest ≡ passes found)
unless true stage rest found h = cc
unless false stage rest found h = (refl, h)

when :
    (b : Bool) (stage : Stage) (rest : Finding) (found : List Text)
    → (if b then rest else fails stage none) ≡ passes found
    → (b ≡ true) × (rest ≡ passes found)
when true stage rest found h = (refl, h)
when false stage rest found h = cc

reuse_then :
    (o : Option (ℕ × Stage)) (rest : Finding) (found : List Text)
    → check_reuse o rest ≡ passes found
    → (o ≡ none) × (rest ≡ passes found)
reuse_then none rest found h = (refl, h)
reuse_then (some (t, stage)) rest found h = cc

not-false : (b : Bool) → not b ≡ false → b ≡ true
not-false true h = refl
not-false false h = cc

pub find_then :
    (web : Web) (p : Payload) (now : ℕ) (db : Db) (found : List Text)
    → find web p now db ≡ passes found
    → IsNew p now db × Verified web (validate_payload p).0 found
unfolding find
find_then web p now db found h =
    let (valid, h1) = unless (not (validate_payload p).1) Stage.schema _ found h in
    let (unknown, h2) =
      unless (source_exists (validate_payload p).0.url db) Stage.duplicate _ found h1 in
    let (not_failed, h3) =
      reuse_then (newest_failure now (validate_payload p).0.url db.candidates) _ found h2 in
    let (domestic, h4) = when (is_domestic p) Stage.not_domestic _ found h3 in
    (
      record {
        valid = not-false (validate_payload p).1 valid;
        unknown = unknown;
        not_failed = not_failed;
        domestic = domestic;
      },
      pages_then web (validate_payload p).0 found h4,
    )

listing_passes :
    (web : Web) (c : Cleaned) (found : List Text)
    → text_in c.sample_url found ≡ true
    → HasText (web.sample c.sample_url)
    → check_listing web c (listed found) ≡ passes found
unfolding check_listing check_sample text_in
listing_passes web c [] h t = cc
listing_passes web c (u ∷ us) h (title, text, page, e) =
    ap
      (λ b.
        if b
        then check_sample (web.sample c.sample_url) (u ∷ us)
        else fails Stage.sample_mismatch none)
      h
    ∙ ap (λ s. check_sample s (u ∷ us)) page
    ∙ ap (λ b. if b then fails Stage.sample_canary none else passes (u ∷ us)) e

pages_passes :
    (web : Web) (c : Cleaned) (found : List Text)
    → Verified web c found
    → check_pages web c ≡ passes found
unfolding check_pages check_robots
pages_passes web c found v =
    let pages = check_listing web c (web.listing c) in
    let rest = λ (r : Robots). check_robots r pages in
    let robots = λ (r : Robots). check_robots r (rest (web.robots c.sample_url)) in
    let safe = λ (o : Option String). check_safe o (robots (web.robots c.url)) in
    ap (λ o. check_safe o (safe (web.unsafe c.sample_url))) v.safe
    ∙ ap safe v.sample_safe
    ∙ ap robots v.robots
    ∙ ap rest v.sample_robots
    ∙ ap (check_listing web c) v.listing
    ∙ listing_passes web c found v.sample_listed v.sample_text

pub find_passes :
    (web : Web) (p : Payload) (now : ℕ) (db : Db) (found : List Text)
    → IsNew p now db
    → Verified web (validate_payload p).0 found
    → find web p now db ≡ passes found
unfolding find
find_passes web p now db found n v =
    let c = (validate_payload p).0 in
    let pages = λ (b : Bool). if b then check_pages web c else fails Stage.not_domestic none in
    let lately = λ (o : Option (ℕ × Stage)). check_reuse o (pages (is_domestic p)) in
    let known = λ (b : Bool).
      if b then fails Stage.duplicate none else lately (newest_failure now c.url db.candidates) in
    ap (λ b. if not b then fails Stage.schema none else known (source_exists c.url db)) n.valid
    ∙ ap known n.unknown
    ∙ ap lately n.not_failed
    ∙ ap pages n.domestic
    ∙ pages_passes web c found v
