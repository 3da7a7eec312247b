-- ===== src/Submission/Records/Find.antt =====
-- Which row an update of the submissions changes.
use iicpc_summer_hackathon.Prelude.{
  ◌≡◌, refl, ap₂, inl, inr, Bool-cases, eq_iff, arith, String, false, List, [], ◌∷◌, some, str_eq,
}
use iicpc_summer_hackathon.Submission.Records.{SubmissionRecord, find_submission, update_row}

module _ (f : SubmissionRecord → SubmissionRecord)
    (keeps : (r : SubmissionRecord) → (f r).submission_id ≡ r.submission_id) where
  pub find_submission-update_row :
      (id : String) (rows : List SubmissionRecord) (row : SubmissionRecord)
      → find_submission id rows ≡ some row
      → find_submission id (update_row f id rows) ≡ some (f row)
  unfolding find_submission
  find_submission-update_row id [] row h = cc
  find_submission-update_row id (r ∷ rows) row h = elim (Bool-cases (str_eq r.submission_id id)) [
    | inl here ↦ ground (arith, keeps r)
    | inr there ↦ ground (arith, find_submission-update_row id rows row)
  ]

  pub find_submission-update_row_ne :
      (id other : String) (rows : List SubmissionRecord)
      → str_eq id other ≡ false
      → find_submission other (update_row f id rows) ≡ find_submission other rows
  unfolding find_submission
  find_submission-update_row_ne id other [] ne = refl
  find_submission-update_row_ne id other (r ∷ rows) ne = ground (
    arith,
    find_submission-update_row_ne id other rows ne,
    keeps r,
    eq_iff id r.submission_id,
    eq_iff r.submission_id id,
    eq_iff r.submission_id other,
    eq_iff id other,
  )

pub update_row-update_row :
    (f g : SubmissionRecord → SubmissionRecord)
    → ((r : SubmissionRecord) → (g r).submission_id ≡ r.submission_id)
    → (id : String) (rows : List SubmissionRecord)
    → update_row f id (update_row g id rows) ≡ update_row (λ r. f (g r)) id rows
update_row-update_row f g keeps id [] = refl
update_row-update_row f g keeps id (r ∷ rows) =
    ap₂ ◌∷◌ (ground (arith, keeps r)) (update_row-update_row f g keeps id rows)
