-- ===== src/Submission/Agent/Cleaned.antt =====
-- What `parse_agent_draft_payload` of drafts/agent_drafts.py leaves of a payload.
use takulife.Common.{
  ℕ, ◌≤◌, String, Bool, true, false, ◌&&◌, Option, none, some, List, [], ◌∷◌, ◌≡◌, refl, subst,
  arith, ltb, Text, if◌then◌else◌,
}
use takulife.Common.Exec.{Result, ok, err, ok-injective}
use takulife.Publishing.Model as Publishing
use takulife.Publishing.Checks.{is_valid_category, is_valid_region}
use takulife.Submission.Model.{Error, agent_draft_schema}
use takulife.Submission.Agent.{
  Json, text, number, nested, flag, null, Member, plain, object, AgentPayload, Python, look,
  text_member, or_text, is_source_url, str_of, is_known_category, check_category, check_region,
  refused_region, mismatch, reversed, normalize_unreadable_date, check_date_range,
}
use takulife.Submission.Agent.Parse.{
  has_required_keys, Note, AgentEvent, clean_fields, clean_members, clean_source,
  parse_agent_draft_payload,
}

-- The dates stand in their order, where both are there.
abbrev pub InOrder : Option ℕ → Option ℕ → Type 0
InOrder (some from) (some to) = from ≤ to
InOrder _ _ = Unit {0}

pub record IsClean (py : Python) (p : AgentPayload) (site : Publishing.Db) (ev : AgentEvent)
    : Type 0 where
  pub given_url : Text
  pub url_given : text_member (look "source_url" p) ≡ some given_url
  pub url_fits : is_source_url given_url ≡ true
  pub url_stripped : py.strip_tracking_params given_url ≡ some ev.source_url
  pub category : is_valid_category ev.category site ≡ true
  pub region : is_valid_region ev.region ≡ true
  pub in_order : InOrder ev.start_date ev.end_date

module _ (py : Python) where
  known-valid :
      (value : Json) (site : Publishing.Db)
      → is_known_category py value site ≡ true
      → is_valid_category (str_of py (plain value)) site ≡ true
  unfolding is_valid_category
  known-valid (text s) site h = h
  known-valid (number l) site h = ground (arith, h)
  known-valid (nested l) site h = ground (arith, h)
  known-valid (flag b) site h = ground (arith, h)
  known-valid null site h = cc

  check_category-valid :
      (value : Json) (site : Publishing.Db)
      → is_valid_category (check_category py value site).0 site ≡ true
  unfolding check_category is_valid_category
  check_category-valid value site = by_case (is_known_category py value site) refl
    where
      by_case :
          (b : Bool)
          → is_known_category py value site ≡ b
          → is_valid_category
              (if◌then◌else◌ {A = String × List Text} b
                (str_of py (plain value), [])
                ("", mismatch py "카테고리 값 불일치(원값 " (plain value))).0
              site
            ≡ true
      by_case true e = known-valid value site e
      by_case false e = refl

  check_region-valid :
      (value : Json) (r : String × List Text)
      → check_region py value ≡ ok r
      → is_valid_region r.0 ≡ true
  unfolding check_region is_valid_region
  check_region-valid (text s) r h = by_case (is_valid_region s) refl h
    where
      by_case :
          (b : Bool)
          → is_valid_region s ≡ b
          → ◌≡◌ {A = Result Error (String × List Text)}
              (ok (if b then (s, []) else refused_region py (text s)))
              (ok r)
          → is_valid_region r.0 ≡ true
      by_case true e h =
          subst (λ (x : String × List Text). is_valid_region x.0 ≡ true) (ok-injective h) e
      by_case false e h =
          subst (λ (x : String × List Text). is_valid_region x.0 ≡ true) (ok-injective h) refl
  check_region-valid (number l) r h =
      subst (λ (x : String × List Text). is_valid_region x.0 ≡ true) (ok-injective h) refl
  check_region-valid (flag b) r h =
      subst (λ (x : String × List Text). is_valid_region x.0 ≡ true) (ok-injective h) refl
  check_region-valid null r h =
      subst (λ (x : String × List Text). is_valid_region x.0 ≡ true) (ok-injective h) refl
  check_region-valid (nested l) r h = cc

  abbrev Ordered : (Option ℕ × Option ℕ) × List Text → Type 0
  Ordered x = InOrder x.0.0 x.0.1

  check_date_range-Ordered :
      (start end : Option (String × ℕ)) → Ordered (check_date_range py start end)
  unfolding check_date_range
  check_date_range-Ordered none end = tt
  check_date_range-Ordered (some s) none = tt
  check_date_range-Ordered (some (s, from)) (some (e, to)) = by_case (ltb to from) refl
    where
      by_case :
          (b : Bool)
          → ltb to from ≡ b
          → Ordered (if b then ((none, none), reversed py s e ∷ []) else ((some from, some to), []))
      by_case true h = tt
      by_case false h = ground (arith, h)

  clean_fields-IsClean :
      (p : AgentPayload) (given_url url : Text) (fields : List (String × Json))
      (region : String × List Text) (site : Publishing.Db) (ev : AgentEvent)
      → text_member (look "source_url" p) ≡ some given_url
      → is_source_url given_url ≡ true
      → py.strip_tracking_params given_url ≡ some url
      → is_valid_region region.0 ≡ true
      → clean_fields py p url fields region site ≡ ok ev
      → IsClean py p site ev
  unfolding clean_fields
  clean_fields-IsClean p given_url url fields (region, region_note) site ev g f s r h = by_case _ h
    where
      start : Option (String × ℕ)
      start = (normalize_unreadable_date py (look "start_date" fields)).0

      end : Option (String × ℕ)
      end = (normalize_unreadable_date py (look "end_date" fields)).0

      category : Json
      category = or_text (look "category" fields)

      by_case :
          (note : Result Error Note)
          → elim note as (λ x. Result Error AgentEvent) [
            | err e ↦ err e
            | ok n ↦ ok (record {
              source_url = url;
              fields = fields;
              category = (check_category py category site).0;
              region = region;
              start_date = (check_date_range py start end).0.0;
              end_date = (check_date_range py start end).0.1;
              note = n;
            })
          ]
            ≡ ok ev
          → IsClean py p site ev
      by_case (err e) h = cc
      by_case (ok n) h = subst (IsClean py p site) (ok-injective h) (record {
        given_url = given_url;
        url_given = g;
        url_fits = f;
        url_stripped = s;
        category = check_category-valid category site;
        region = r;
        in_order = check_date_range-Ordered start end;
      })

  clean_members-IsClean :
      (p : AgentPayload) (given_url url : Text) (m : Option Member) (site : Publishing.Db)
      (ev : AgentEvent)
      → text_member (look "source_url" p) ≡ some given_url
      → is_source_url given_url ≡ true
      → py.strip_tracking_params given_url ≡ some url
      → clean_members py p url m site ≡ ok ev
      → IsClean py p site ev
  unfolding clean_members
  clean_members-IsClean p given_url url none site ev g f s h = cc
  clean_members-IsClean p given_url url (some (plain j)) site ev g f s h = cc
  clean_members-IsClean p given_url url (some (object fields)) site ev g f s h =
      by_case (check_region py (or_text (look "region" fields))) refl h
    where
      by_case :
          (r : Result Error (String × List Text))
          → check_region py (or_text (look "region" fields)) ≡ r
          → elim r as (λ x. Result Error AgentEvent) [
            | err e ↦ err e
            | ok region ↦ clean_fields py p url fields region site
          ]
            ≡ ok ev
          → IsClean py p site ev
      by_case (err e) q h = cc
      by_case (ok region) q h =
          clean_fields-IsClean p given_url url fields region site ev g f s
            (check_region-valid (or_text (look "region" fields)) region q) h

  pub parse-IsClean :
      (p : AgentPayload) (site : Publishing.Db) (ev : AgentEvent)
      → parse_agent_draft_payload py p site ≡ ok ev
      → IsClean py p site ev
  unfolding parse_agent_draft_payload clean_source
  parse-IsClean p site ev h = by_case (text_member (look "source_url" p)) refl h
    where
      stripped :
          (given_url : Text) (o : Option Text)
          → text_member (look "source_url" p) ≡ some given_url
          → is_source_url given_url ≡ true
          → py.strip_tracking_params given_url ≡ o
          → clean_source py p o site ≡ ok ev
          → IsClean py p site ev
      stripped given_url none g f s h = cc
      stripped given_url (some url) g f s h =
          clean_members-IsClean p given_url url (look "fields" p) site ev g f s h

      checked :
          (given_url : Text) (keys fits : Bool)
          → text_member (look "source_url" p) ≡ some given_url
          → is_source_url given_url ≡ fits
          → (if keys && fits
              then clean_source py p (py.strip_tracking_params given_url) site
              else err agent_draft_schema)
            ≡ ok ev
          → IsClean py p site ev
      checked given_url false fits g f h = cc
      checked given_url true false g f h = cc
      checked given_url true true g f h =
          stripped given_url (py.strip_tracking_params given_url) g f refl h

      by_case :
          (o : Option Text)
          → text_member (look "source_url" p) ≡ o
          → elim o as (λ x. Result Error AgentEvent) [
            | none ↦ err agent_draft_schema
            | some url ↦
                if has_required_keys p && is_source_url url
                then clean_source py p (py.strip_tracking_params url) site
                else err agent_draft_schema
          ]
            ≡ ok ev
          → IsClean py p site ev
      by_case none g h = cc
      by_case (some given_url) g h =
          checked given_url (has_required_keys p) (is_source_url given_url) g refl h
