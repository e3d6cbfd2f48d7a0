-- ===== src/Review/Machine.antt =====
-- The review of drafts as an abstract machine: what `EventDraft.ReviewStatus` of drafts/models.py
-- means, without the columns and the tables, and drafts/services.py as requests.
use takulife.Common.{
  ℕ, Bool, Option, none, some, List, [], ◌∷◌, ◌++◌, map, ◌≡◌, ◌==◌, first, Text, strip,
  if◌then◌else◌,
}
use mathlib.Core.Option
use takulife.Publishing.Model.{Event}
use takulife.Review.Model.{
  ReviewStatus, pending, approved, rejected, Payload, Draft, Db, Update, Platform,
}
use takulife.Review.Drafts.{
  has_pk, create_draft, update_draft, approve_draft, reject_draft, reopen_draft,
}
pub mod Lookup
pub mod Simulates
pub mod Refines
pub mod Final

-- The judgement on a draft, and the address under which it would be published.
pub record Review : Type 0 where
  pub status : ReviewStatus
  pub source : Text

-- What can be seen: the review of each draft, and the addresses of the events in their order.
pub record View : Type 0 where
  pub reviews : ℕ → Option Review
  pub official_urls : List (Option Text)

abbrev pub set : (ℕ → Option Review) → ℕ → Review → ℕ → Option Review
set f k r p = if p == k then some r else f p

abbrev pub review : ReviewStatus → Text → Review
review status source = record { status = status; source = source }

-- A step of the machine. A draft is judged from where it stands, and approving it publishes its
-- address, once.
pub data Step (s t : View) : Type 0 where
  stay : t ≡ s → Step s t
  submit :
      (k : ℕ) (u : Text)
      → s.reviews k ≡ none
      → t.reviews ≡ set s.reviews k (review pending u)
      → t.official_urls ≡ s.official_urls
      → Step s t
  approve :
      (k : ℕ) (u : Text)
      → s.reviews k ≡ some (review pending u)
      → t.reviews ≡ set s.reviews k (review approved u)
      → t.official_urls ≡ s.official_urls ++ some (strip u) ∷ []
      → Step s t
  reject :
      (k : ℕ) (u : Text)
      → s.reviews k ≡ some (review pending u)
      → t.reviews ≡ set s.reviews k (review rejected u)
      → t.official_urls ≡ s.official_urls
      → Step s t
  reopen :
      (k : ℕ) (u : Text)
      → s.reviews k ≡ some (review rejected u)
      → t.reviews ≡ set s.reviews k (review pending u)
      → t.official_urls ≡ s.official_urls
      → Step s t

pub data Steps (s : View) : View → Type 0 where
  here : Steps s s
  next : {t u : View} → Steps s t → Step t u → Steps s u

abbrev pub review_of : Draft → Review
review_of d = review d.review_status d.payload.source_url

abbrev pub lookup_review : List Draft → ℕ → Option Review
lookup_review ds k = Option.map review_of (first (has_pk k) ds)

abbrev pub official_url : Event → Option Text
official_url e = e.fields.official_url

-- The stored state, seen as a state of the machine.
abbrev pub view : Db → View
view db = record {
  reviews = lookup_review db.drafts;
  official_urls = map official_url db.site.events;
}

-- A call of a service function.
pub data Request : Type 0 where
  create : Payload → Request
  edit : ℕ → List Update → Request
  approve : ℕ → ℕ → ℕ → Request
  reject : ℕ → ℕ → ℕ → Text → Request
  reopen : ℕ → ℕ → Request

-- The stored state after the call, whether it raised or not.
unfoldable pub handle : Platform → Request → Db → Db
handle env (create payload) db = (create_draft env payload db).1
handle env (edit pk updates) db = (update_draft env pk updates db).1
handle env (approve pk actor now) db = (approve_draft env pk actor now db).1
handle env (reject pk actor now reason) db = (reject_draft pk actor now reason db).1
handle env (reopen pk now) db = (reopen_draft pk now db).1

unfoldable pub handle_all : Platform → List Request → Db → Db
unfolding handle
handle_all env [] db = db
handle_all env (r ∷ rs) db = handle_all env rs (handle env r db)
