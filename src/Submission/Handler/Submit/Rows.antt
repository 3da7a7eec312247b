-- ===== src/Submission/Handler/Submit/Rows.antt =====
-- What CreateSubmission does to the rows.
use iicpc_summer_hackathon.Prelude.{
  ◌≡◌, refl, ap, ◌∙◌, sym, subst, inl, inr, ◌⊎◌, String, Bool, true, false, List, ◌∷◌, Option, none,
  some, str_eq, if◌then◌else◌, Bool-cases, not, ◌||◌, is_some, some-injective,
}
use iicpc_summer_hackathon.Prelude.Int.{ℤ}
use iicpc_summer_hackathon.Prelude.Dict.{Dict, lookup}
use iicpc_summer_hackathon.Submission.Records.{
  SubmissionRecord, Db, CreateRun, inserted, insert_submission, teams_after, try_insert, any,
  after_insert, create_submission,
}

-- The submissions with a new one, where there is a database.
abbrev pub with_new : Bool → SubmissionRecord → List SubmissionRecord → List SubmissionRecord
with_new pool row rows = if pool then row ∷ rows else rows

insert_submission-cases :
    (now : ℤ) (rec : SubmissionRecord) (teams : Dict String) (rows : List SubmissionRecord)
    → (insert_submission now rec teams rows ≡ none)
      ⊎ (insert_submission now rec teams rows ≡ some (inserted now rec ∷ rows))
insert_submission-cases now rec teams rows =
    elim (Bool-cases (any (λ r. str_eq r.submission_id rec.submission_id) rows)) [
      | inl taken ↦ inl (rw taken refl)
      | inr free ↦ elim (Bool-cases (str_eq rec.team_id "" || is_some (lookup rec.team_id teams))) [
        | inl known ↦ inr (rw (free, known) refl)
        | inr unknown ↦ inl (rw (free, unknown) refl)
      ]
    ]

-- An error with the rows as they were, or the new row on top of them.
abbrev pub Created : SubmissionRecord → Db → Option String × Db → Type 0
Created row db out =
    ((e : String) × (out.0 ≡ some e) × (out.1.submissions ≡ db.submissions))
    ⊎ ((out.0 ≡ none) × (out.1.submissions ≡ with_new db.pool row db.submissions))

after_insert-Created :
    (row : SubmissionRecord) (error : String) (db db' : Db) (rows : Option (List SubmissionRecord))
    → db.pool ≡ true
    → db'.submissions ≡ db.submissions
    → (rows ≡ none) ⊎ (rows ≡ some (row ∷ db.submissions))
    → Created row db (after_insert error db' rows)
after_insert-Created row error db db' none pool same h = inl (error, refl, same)
after_insert-Created row error db db' (some rows) pool same h = elim h [
  | inl e ↦ cc
  | inr e ↦ inr (refl, rw pool (some-injective _ _ e))
]

try_insert-cases :
    (run : CreateRun) (now : ℤ) (rec : SubmissionRecord) (teams : Dict String)
    (rows : List SubmissionRecord)
    → (try_insert run now rec teams rows ≡ none)
      ⊎ (try_insert run now rec teams rows ≡ some (inserted now rec ∷ rows))
try_insert-cases run now rec teams rows = elim (Bool-cases run.insert_up) [
  | inl up ↦
      subst
        (λ b.
          ((if b then insert_submission now rec teams rows else none) ≡ none)
          ⊎ ((if b then insert_submission now rec teams rows else none)
              ≡ some (inserted now rec ∷ rows)))
        (sym up) (insert_submission-cases now rec teams rows)
  | inr down ↦ inl (rw down refl)
]

create_submission-by_pool :
    (run : CreateRun) (now : ℤ) (rec : SubmissionRecord) (db : Db) (b : Bool)
    → db.pool ≡ b
    → let teams = teams_after run rec db.teams in
      create_submission run now rec db ≡ (
        if not b
        then (none, db)
        else after_insert run.error
            (record db { teams = teams })
            (try_insert run now rec teams db.submissions))
unfolding create_submission
create_submission-by_pool run now rec db b e =
    let teams = teams_after run rec db.teams in
    ap
      (λ b.
        if not b
        then (none, db)
        else after_insert run.error (record db { teams = teams })
            (try_insert run now rec teams db.submissions))
      e

pub create_submission-Created :
    (run : CreateRun) (now : ℤ) (rec : SubmissionRecord) (db : Db)
    → Created (inserted now rec) db (create_submission run now rec db)
create_submission-Created run now rec db =
    let teams = teams_after run rec db.teams in
    elim (Bool-cases db.pool) [
      | inl pool ↦
          subst (Created (inserted now rec) db)
            (sym (create_submission-by_pool run now rec db true pool))
            (after_insert-Created (inserted now rec) run.error db (record db { teams = teams })
              (try_insert run now rec teams db.submissions) pool refl
              (try_insert-cases run now rec teams db.submissions))
      | inr no_pool ↦
          (let skipped = create_submission-by_pool run now rec db false no_pool in
            inr (
              ap (λ out. out.0) skipped,
              ap (λ out. out.1.submissions) skipped
                  ∙ sym (ap (λ b. with_new b (inserted now rec) db.submissions) no_pool),
            ))
    ]
