-- ===== src/Accounts/Purge.antt =====
-- The deletion of the accounts whose ten days are over.
use takulife.Common.{
  ℕ, ◌≡◌, ◌≢◌, refl, sym, ap, ◌∙◌, subst, Bool, true, false, not, ◌&&◌, ◌||◌, List, [], ◌∷◌, ◌==◌,
  ==_refl, In, here, there, DistinctKeys, All, All_In, exists, first_of_exists, All-first,
  In-select, select, Bool-cases, inl, inr, post-if, arith, if◌then◌else◌,
}
use takulife.Accounts.{
  User, Db, Summary, is_user, is_due, due_user, delete_candidate, delete_candidates, ids_of,
  execute_pending_deletions,
}

-- The deletion of the accounts, one candidate after the other.
abbrev named : List ℕ → User → Bool
named [] u = false
named (id ∷ ids) u = u.id == id || named ids u

abbrev stays : ℕ → List ℕ → User → Bool
stays now ids u = not (is_due now u && named ids u)

abbrev deleted_one : ℕ → ℕ → List User → List User
deleted_one now id us =
    if not (exists (due_user now id) us) then us else select (λ u. not (is_user id u)) us

All-of_In : {P : User → Type 0} (us : List User) → ((u : User) → In u us → P u) → All P us
All-of_In [] h = tt
All-of_In {P = P} (u ∷ us) h = (h u here, All-of_In {P = P} us (λ v m. h v (there m)))

-- No other row has the number of a due row.
not_due_other :
    (now id : ℕ) (us : List User)
    → DistinctKeys (λ (u : User). u.id) us
    → exists (due_user now id) us ≡ true
    → All (λ u. is_user id u ≡ true → is_due now u ≡ true) us
unfolding exists
not_due_other now id [] d h = tt
not_due_other now id (u ∷ us) d h = elim (Bool-cases (due_user now id u)) [
  | inl e ↦ (
    (λ same. ground (arith, e)),
    All-of_In us (λ v m same.
        absurd (All_In (λ (w : User). w.id ≢ u.id) v us d.0 m (ground (arith, e, same)))),
  )
  | inr e ↦
      let more : exists (due_user now id) us ≡ true = ground (arith, h, e) in
      let (w, found) = first_of_exists (due_user now id) us more in
      let (differs, due) = All-first (λ (v : User). v.id ≢ u.id) (due_user now id) us w d.0 found in
      ((λ same. absurd (differs (ground (arith, due, same)))), not_due_other now id us d.1 more)
]

select-All :
    (p q : User → Bool) (us : List User) → All (λ u. p u ≡ q u) us → select p us ≡ select q us
unfolding select
select-All p q [] h = refl
select-All p q (u ∷ us) h = rw (h.0, select-All p q us h.1) refl

select-select :
    (p q : User → Bool) (us : List User) → select p (select q us) ≡ select (λ u. q u && p u) us
unfolding select
select-select p q [] = refl
select-select p q (u ∷ us) = ground (arith, select-select p q us)

none_due :
    (now id : ℕ) (us : List User)
    → exists (due_user now id) us ≡ false
    → select (stays now (id ∷ [])) us ≡ us
unfolding exists select
none_due now id [] h = refl
none_due now id (u ∷ us) h = ground (arith, h, none_due now id us)

only_due :
    (now id : ℕ) (us : List User)
    → All (λ u. is_user id u ≡ true → is_due now u ≡ true) us
    → select (λ u. not (is_user id u)) us ≡ select (stays now (id ∷ [])) us
unfolding select
only_due now id [] h = refl
only_due now id (u ∷ us) h = ground (arith, h.0, only_due now id us h.1)

deleted_one-stays :
    (now id : ℕ) (us : List User)
    → DistinctKeys (λ (u : User). u.id) us
    → deleted_one now id us ≡ select (stays now (id ∷ [])) us
deleted_one-stays now id us d =
    post-if (λ vs. vs ≡ select (stays now (id ∷ [])) us) (not (exists (due_user now id) us)) us
      (select (λ u. not (is_user id u)) us) (λ e. sym (none_due now id us (ground (arith, e))))
      (λ e. only_due now id us (not_due_other now id us d (ground (arith, e))))

DistinctKeys-select :
    (p : User → Bool) (us : List User)
    → DistinctKeys (λ (u : User). u.id) us
    → DistinctKeys (λ (u : User). u.id) (select p us)
unfolding select
DistinctKeys-select p [] d = tt
DistinctKeys-select p (u ∷ us) d =
    post-if (DistinctKeys (λ (v : User). v.id)) (p u) (u ∷ select p us) (select p us)
      (λ e. (
        All-of_In (select p us)
            (λ v m. All_In (λ (w : User). w.id ≢ u.id) v us d.0 (In-select p v us m).0),
        DistinctKeys-select p us d.1,
      ))
      (λ e. DistinctKeys-select p us d.1)

-- The steps of the loop, where nothing else happens meanwhile and no deletion fails.
step_users :
    (now id : ℕ) (state : Summary × Db)
    → (delete_candidate (λ i s. s) (λ i. false) now id state).1.users
      ≡ deleted_one now id state.1.users
unfolding delete_candidate
step_users now id (summary, db) = ground arith

stays-both :
    (now id : ℕ) (ids : List ℕ) (us : List User)
    → select (stays now ids) (select (stays now (id ∷ [])) us) ≡ select (stays now (id ∷ ids)) us
stays-both now id ids us =
    select-select (stays now ids) (stays now (id ∷ [])) us
    ∙ select-All (λ u. stays now (id ∷ []) u && stays now ids u) (stays now (id ∷ ids)) us
        (All-of_In us (λ u m. ground arith))

keep_all : (us : List User) (now : ℕ) → select (stays now []) us ≡ us
unfolding select
keep_all [] now = refl
keep_all (u ∷ us) now = ground (arith, keep_all us now)

loop_users :
    (now : ℕ) (ids : List ℕ) (state : Summary × Db)
    → DistinctKeys (λ (u : User). u.id) state.1.users
    → (delete_candidates (λ i s. s) (λ i. false) now ids state).1.users
      ≡ select (stays now ids) state.1.users
unfolding delete_candidates
loop_users now [] state d = sym (keep_all state.1.users now)
loop_users now (id ∷ ids) state d =
    let after = delete_candidate (λ i s. s) (λ i. false) now id state in
    let one = step_users now id state ∙ deleted_one-stays now id state.1.users d in
    loop_users now ids after (
      subst (DistinctKeys (λ (u : User). u.id)) (sym one)
        (DistinctKeys-select (stays now (id ∷ [])) state.1.users d))
    ∙ ap (select (stays now ids)) one
    ∙ stays-both now id ids state.1.users

named_of_In : (u : User) (us : List User) → In u us → named (ids_of us) u ≡ true
named_of_In u [] m = elim m [ ]
named_of_In u (v ∷ us) here = ground (arith, ==_refl u.id)
named_of_In u (v ∷ us) (there m) = ground (arith, named_of_In u us m)

In-of_select :
    (p : User → Bool) (u : User) (us : List User) → In u us → p u ≡ true → In u (select p us)
unfolding select
In-of_select p u [] m h = elim m [ ]
In-of_select p u (v ∷ us) here h =
    subst (λ b. In u (if b then u ∷ select p us else select p us)) (sym h) here
In-of_select p u (v ∷ us) (there m) h =
    post-if (In u) (p v) (v ∷ select p us) (select p us) (λ e. there (In-of_select p u us m h))
      (λ e. In-of_select p u us m h)

candidate_stays :
    (now : ℕ) (us : List User) (u : User)
    → In u us
    → stays now (ids_of (select (is_due now) us)) u ≡ not (is_due now u)
candidate_stays now us u m = elim (Bool-cases (is_due now u)) [
  | inl e ↦ ap not (
      ground
        (arith, e, named_of_In u (select (is_due now) us) (In-of_select (is_due now) u us m e)))
  | inr e ↦ ground (arith, e)
]

-- Where nothing else happens meanwhile and no deletion fails, the accounts that are left are those
-- that are not due, in their order; the numbers of the accounts are distinct.
pub execute_pending_deletions_users :
    (now : ℕ) (db : Db)
    → DistinctKeys (λ (u : User). u.id) db.users
    → (execute_pending_deletions (λ i s. s) (λ i. false) now db).1.users
      ≡ select (λ u. not (is_due now u)) db.users
unfolding execute_pending_deletions
execute_pending_deletions_users now db d =
    loop_users now (ids_of (select (is_due now) db.users))
      (record { deleted = []; failed = [] }, db) d
    ∙ select-All (stays now (ids_of (select (is_due now) db.users))) (λ u. not (is_due now u))
        db.users (All-of_In db.users (candidate_stays now db.users))
