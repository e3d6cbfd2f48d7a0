-- ===== src/Submission/Accounts/Stored.antt =====
-- The sources that `register_account_source` of drafts/candidate_validation.py stores.
use takulife.Common.{
  ℕ, String, Bool, true, false, ◌&&◌, Option, none, some, map, ◌≡◌, inl, refl, subst, Text, text_in,
  if◌then◌else◌,
}
use takulife.Common.Exec.{pure, ◌>>=◌}
use takulife.Publishing.Urls.{lower}
use takulife.Submission.Model.{
  Source, SourceType, rss, sitemap, html, instagram, x, Stage, Cleaned, Db,
}
use takulife.Submission.Payload.{
  Payload, text_at, is_domestic, is_server_collected, source_type_of, account_type, cleaned_with,
  clean_account_payload,
}
use takulife.Submission.Store.{save_failed_candidate, source_exists, new_source, promote}
use takulife.Submission.Store.Kept.{Leaves, then-Leaves, save_failed-Leaves, promote-Leaves}
use takulife.Submission.Accounts.{
  allowed_hosts, is_handle_path, normalize_account_source_url, with_url, register_checked,
  register_split, register_typed, register_account_source,
}

-- A disabled source of an account on one of the hosts, which the server does not collect itself.
pub record IsAccount (split : Text → Option (Text × Text)) (p : Payload) (s : Source) : Type 0 where
  pub hostname : Text
  pub path : Text
  pub parts : split (clean_account_payload p).url ≡ some (hostname, path)
  pub allowed : text_in (map lower hostname) allowed_hosts ≡ true
  pub handle : is_handle_path path ≡ true
  pub normal : s.url ≡ normalize_account_source_url (map lower hostname) path
  pub disabled : s.enabled ≡ false
  pub not_collected : is_server_collected s.source_type ≡ false
  pub domestic : is_domestic p ≡ true

abbrev is_collected : Option SourceType → Bool
is_collected none = true
is_collected (some t) = is_server_collected t

-- What `account_type` gives is a type that the server does not collect.
account_type-not :
    (o : Option SourceType) (t : SourceType)
    → account_type o ≡ some t
    → is_server_collected t ≡ false
account_type-not none t h = cc
account_type-not (some rss) t h = cc
account_type-not (some sitemap) t h = cc
account_type-not (some html) t h = cc
account_type-not (some instagram) t h = subst (λ o. is_collected o ≡ false) h refl
account_type-not (some x) t h = subst (λ o. is_collected o ≡ false) h refl

both : (a b : Bool) → (a && b) ≡ true → (a ≡ true) × (b ≡ true)
both true b h = (refl, h)
both false b h = cc

module _ (split : Text → Option (Text × Text)) (id : ℕ) (token : String) (now : ℕ)
    (p : Payload) where
  register_checked-Leaves :
      (cleaned : Cleaned) (t : SourceType) (db : Db)
      → IsAccount split p (new_source cleaned t false db)
      → Leaves (IsAccount split p) db (register_checked id token now cleaned t db)
  unfolding register_checked
  register_checked-Leaves cleaned t db held = by_case (source_exists cleaned.url db)
    where
      by_case :
          (b : Bool)
          → Leaves (IsAccount split p) db (
              if b
              then save_failed_candidate id token now cleaned Stage.duplicate none db
              else (promote id token now cleaned t false >>= λ stored. pure stored.0) db)
      by_case true =
          save_failed-Leaves (IsAccount split p) id token now cleaned Stage.duplicate none db
      by_case false =
          then-Leaves (IsAccount split p) (promote id token now cleaned t false) (λ a. a.0) db
            (promote-Leaves (IsAccount split p) id token now cleaned t false db held)

  register_split-Leaves :
      (t : SourceType) (parts : Option (Text × Text)) (db : Db)
      → split (clean_account_payload p).url ≡ parts
      → is_server_collected t ≡ false
      → is_domestic p ≡ true
      → Leaves
          (IsAccount split p)
          db
          (register_split id token now (clean_account_payload p) t parts db)
  unfolding register_split
  register_split-Leaves t none db e c d = (refl, inl refl)
  register_split-Leaves t (some (hostname, path)) db e c d =
      by_case (text_in (map lower hostname) allowed_hosts && is_handle_path path) refl
    where
      cleaned : Cleaned
      cleaned =
          with_url (normalize_account_source_url (map lower hostname) path)
            (clean_account_payload p)

      by_case :
          (b : Bool)
          → (text_in (map lower hostname) allowed_hosts && is_handle_path path) ≡ b
          → Leaves (IsAccount split p) db (
              (if b
                  then register_checked id token now cleaned t
                  else save_failed_candidate id token now
                      (clean_account_payload p)
                      Stage.schema
                      none)
                db)
      by_case true h =
          let (allowed, handle) =
            both (text_in (map lower hostname) allowed_hosts) (is_handle_path path) h in
          register_checked-Leaves cleaned t db (record {
            hostname = hostname;
            path = path;
            parts = e;
            allowed = allowed;
            handle = handle;
            normal = refl;
            disabled = refl;
            not_collected = c;
            domestic = d;
          })
      by_case false h =
          save_failed-Leaves (IsAccount split p) id token now (clean_account_payload p) Stage.schema
            none db

  -- Registering an account leaves the drafts and events, and the sources too, but for one at most:
  -- a disabled source of a type that the server does not collect, of a domestic account, whose address
  -- is made of a host among the four and of the path of a handle, as they were sent.
  pub register_account_source-Leaves :
      (db : Db) → Leaves (IsAccount split p) db (register_account_source split id token p now db)
  unfolding register_account_source register_typed clean_account_payload cleaned_with
  register_account_source-Leaves db = by_type (clean_account_payload p).source_type refl
    where
      by_type :
          (o : Option SourceType)
          → account_type (source_type_of (text_at "source_type" p)) ≡ o
          → Leaves
              (IsAccount split p)
              db
              (register_typed split id token now p (clean_account_payload p) o db)
      by_type none e =
          save_failed-Leaves (IsAccount split p) id token now (clean_account_payload p) Stage.schema
            none db
      by_type (some t) e = by_country (is_domestic p) refl
        where
          by_country :
              (b : Bool)
              → is_domestic p ≡ b
              → Leaves (IsAccount split p) db (
                  (if b
                      then register_split id token now
                          (clean_account_payload p)
                          t
                          (split (clean_account_payload p).url)
                      else save_failed_candidate id token now
                          (clean_account_payload p)
                          Stage.not_domestic
                          none)
                    db)
          by_country true d =
              register_split-Leaves t (split (clean_account_payload p).url) db refl
                (account_type-not (source_type_of (text_at "source_type" p)) t e) d
          by_country false d =
              save_failed-Leaves (IsAccount split p) id token now (clean_account_payload p)
                Stage.not_domestic none db
