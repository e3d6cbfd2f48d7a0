-- ===== src/Accounts/Deletion.antt =====
-- What asking for the deletion of an account, and its deletion, leave.
use takulife.Common.{
  ℕ, ◌+◌, ◌≡◌, ◌≢◌, refl, sym, ◌∙◌, true, false, not, some, List, [], ◌∷◌, leb, exists, count,
  select, update, Bool-cases, inl, inr, arith,
}
use takulife.Accounts.{
  User, Session, Db, is_user, session_of, due_user, request_deletion, deletion_grace_period,
}

no_session :
    (id : ℕ) (ss : List Session)
    → exists (session_of id) (select (λ s. not (session_of id s)) ss) ≡ false
unfolding exists select
no_session id [] = refl
no_session id (s ∷ ss) = ground (arith, no_session id ss)

other_sessions :
    (id other : ℕ) (ss : List Session)
    → other ≢ id
    → count (session_of other) (select (λ s. not (session_of id s)) ss)
      ≡ count (session_of other) ss
unfolding count select
other_sessions id other [] h = refl
other_sessions id other (s ∷ ss) h = ground (arith, h, other_sessions id other ss h)

abbrev requested : ℕ → User → User
requested now u = record u { deletion_requested_at = some now }

not_yet_due :
    (id now later : ℕ) (us : List User)
    → leb (now + deletion_grace_period) later ≡ false
    → exists (due_user later id) (update (is_user id) (requested now) us) ≡ false
unfolding exists update
not_yet_due id now later [] h = refl
not_yet_due id now later (u ∷ us) h = ground (arith, h, not_yet_due id now later us h)

now_due :
    (id now later : ℕ) (us : List User)
    → leb (now + deletion_grace_period) later ≡ true
    → exists (is_user id) us ≡ true
    → exists (due_user later id) (update (is_user id) (requested now) us) ≡ true
unfolding exists update
now_due id now later [] h e = cc
now_due id now later (u ∷ us) h e = ground (arith, h, e, now_due id now later us h)

due_after :
    (id now later : ℕ) (us : List User)
    → exists (is_user id) us ≡ true
    → exists (due_user later id) (update (is_user id) (requested now) us)
      ≡ leb (now + deletion_grace_period) later
due_after id now later us h = elim (Bool-cases (leb (now + deletion_grace_period) later)) [
  | inl e ↦ now_due id now later us e h ∙ sym e
  | inr e ↦ not_yet_due id now later us e ∙ sym e
]

-- After a stored user asked for the deletion, no session of theirs is left and those of the
-- others are, and the account is due exactly from ten days later on.
request_deletion_effects :
    (id other now later : ℕ) (db : Db)
    → exists (is_user id) db.users ≡ true
    → other ≢ id
    → (exists (session_of id) (request_deletion id now db).sessions ≡ false)
      × (count (session_of other) (request_deletion id now db).sessions
          ≡ count (session_of other) db.sessions)
      × (exists (due_user later id) (request_deletion id now db).users ≡ leb (now + 864000) later)
unfolding request_deletion
request_deletion_effects id other now later db stored differs = (
  no_session id db.sessions,
  other_sessions id other db.sessions differs,
  due_after id now later db.users stored,
)
