-- ===== src/Submission/Handler/Submit.antt =====
-- What a submission's reply means.
pub mod Rows
use Rows.{with_new, Created, create_submission-Created}
use iicpc_summer_hackathon.Prelude.{
  some-ne-none, ◌≡◌, ◌≢◌, refl, ap, ◌∙◌, sym, subst, inl, inr, ◌⊎◌, String, [], ◌∷◌, Option, none,
  some, if◌then◌else◌, Option-cases, ◌||◌, some-injective,
}
use iicpc_summer_hackathon.Prelude.Int.{ℤ}
use iicpc_summer_hackathon.Prelude.Dict.{lookup, lookup-insert_self, insert}
use iicpc_summer_hackathon.Submission.Records.{SubmissionRecord, Db, inserted, create_submission}
use iicpc_summer_hackathon.Submission.Scan.{ScanError, scan}
use iicpc_summer_hackathon.Submission.Scan.Patterns.{IsClean, scan_lem}
use iicpc_summer_hackathon.Submission.Handler.{
  Service, Submitted, SubmitRequest, SubmitRun, accepted, recovered, upload_failed, temp_failed,
  unsafe, no_file, new_record, job_of, after_create, submit_record, submit_upload, after_scan,
  after_copy, submit_code,
}

-- No job and no row: a reply that is not accepted.
abbrev pub Refused : Service → Submitted → Type 0
Refused s (reply, job, s') =
    ((id : String) → reply ≢ accepted id) × (job ≡ none) × (s'.db.submissions ≡ s.db.submissions)

-- The job, the row where there is a database, the object and the temporary file of a record.
abbrev pub Taken : SubmitRun → SubmissionRecord → String → ℤ → Service → Submitted → Type 0
Taken r rec path size s (reply, job, s') =
    (reply ≡ accepted rec.submission_id)
    × (job ≡ some (job_of rec path))
    × (s'.db.submissions ≡ with_new s.db.pool (inserted r.now rec) s.db.submissions)
    × (lookup rec.object_key s'.objects ≡ some size)
    × (s'.temp_files ≡ s.temp_files)

-- Every step of a submission goes well.
abbrev pub Good : SubmitRun → SubmitRequest → Service → String → String → ℤ → Type 0
Good r q s filename path size =
    (q.file ≡ some filename)
    × (r.temp_file ≡ some path)
    × (r.copy_error ≡ none)
    × IsClean r.scanned
    × (r.size ≡ some size)
    × (r.upload_error ≡ none)
    × ((create_submission r.create r.now (new_record q r.fresh filename) s.db).0 ≡ none)

module _ (r : SubmitRun) (rec : SubmissionRecord) (path : String) where
  GoodRecord : Service → Type 0
  GoodRecord s = (create_submission r.create r.now rec s.db).0 ≡ none

  after_create-cases :
      (size : ℤ) (s : Service) (error : Option String) (db' : Db)
      → lookup rec.object_key s.objects ≡ some size
      → Created (inserted r.now rec) s.db (error, db')
      → let out = after_create rec path (record s { db = db' }) error in
        ((error ≡ none) × Taken r rec path size s out) ⊎ (¬ (error ≡ none) × Refused s out)
  after_create-cases size s (some e) db' there (inl (e', failed_, same)) =
      inr (λ h. some-ne-none h, ((λ id h. cc), refl, same))
  after_create-cases size s (some e) db' there (inr (worked, same)) = cc
  after_create-cases size s none db' there (inl (e, failed_, same)) = cc
  after_create-cases size s none db' there (inr (worked, same)) =
      inl (refl, (refl, refl, same, there, refl))

  unopened : (s : Service) → r.size ≡ none → submit_upload r rec path s ≡ (recovered, none, s)
  unopened s lost = rw lost refl

  unsent :
      (s : Service) (size : ℤ) (e : String)
      → r.size ≡ some size
      → r.upload_error ≡ some e
      → submit_upload r rec path s ≡ (upload_failed e, none, s)
  unsent s size e there refused = rw (there, refused) refl

  uploaded :
      (s : Service) (size : ℤ)
      → r.size ≡ some size
      → r.upload_error ≡ none
      → submit_upload r rec path s
        ≡ submit_record r rec path (record s { objects = insert rec.object_key size s.objects })
  uploaded s size there sent = rw (there, sent) refl

  -- The upload and the row.
  GoodUpload : Service → Type 0
  GoodUpload s = (size : ℤ) × (r.size ≡ some size) × (r.upload_error ≡ none) × GoodRecord s

  TakenSized : Service → Submitted → Type 0
  TakenSized s out = (size : ℤ) × (r.size ≡ some size) × Taken r rec path size s out

  submit_upload-cases :
      (s : Service)
      → let out = submit_upload r rec path s in
        (GoodUpload s × TakenSized s out) ⊎ (¬ GoodUpload s × Refused s out)
  unfolding GoodUpload TakenSized GoodRecord
  submit_upload-cases s = elim (Option-cases r.size) [
    | inl lost ↦ inr (
      λ (size, there, sent, worked). some-ne-none (sym there ∙ lost),
      subst (Refused s) (sym (unopened s lost)) ((λ id h. cc), refl, refl),
    )
    | inr (size, there) ↦ elim (Option-cases r.upload_error) [
      | inr (e, refused) ↦ inr (
        λ (n, h, sent, worked). some-ne-none (sym refused ∙ sent),
        subst (Refused s) (sym (unsent s size e there refused)) ((λ id h. cc), refl, refl),
      )
      | inl sent ↦
          (let s' = record s { objects = insert rec.object_key size s.objects } in
            let out = create_submission r.create r.now rec s.db in
            elim (after_create-cases size s' out.0 out.1
              (lookup-insert_self rec.object_key size s.objects)
              (create_submission-Created r.create r.now rec s.db)) [
                | inl (worked, taken) ↦ inl (
                  (size, there, sent, worked),
                  (
                    size,
                    there,
                    subst (Taken r rec path size s) (sym (uploaded s size there sent)) taken,
                  ),
                )
                | inr (broken, refused) ↦ inr (
                  λ (n, h, k, worked). broken worked,
                  subst (Refused s) (sym (uploaded s size there sent)) refused,
                )
              ])
    ]
  ]

module _ (r : SubmitRun) (q : SubmitRequest) (s : Service) where
  lost_file : q.file ≡ none → submit_code r q s ≡ (no_file r.form_error, none, s)
  unfolding submit_code
  lost_file e = rw e refl

  lost_temp :
      (filename : String)
      → q.file ≡ some filename
      → r.temp_file ≡ none
      → submit_code r q s ≡ (temp_failed r.temp_error, none, s)
  unfolding submit_code
  lost_temp filename named e = rw (named, e) refl

  abbrev pub with_temp : String → Service
  with_temp path = record s { temp_files = path ∷ s.temp_files }

  module _ (filename path : String) (named : q.file ≡ some filename)
      (made : r.temp_file ≡ some path) where
    kept :
        submit_code r q s
        ≡ after_copy r (new_record q r.fresh filename) path (with_temp path) r.copy_error
    unfolding submit_code
    kept = rw (named, made) refl

    copying : Option String → Submitted
    copying = after_copy r (new_record q r.fresh filename) path (with_temp path)

    scanning : Option ScanError → Submitted
    scanning = after_scan r (new_record q r.fresh filename) path (with_temp path)

    uncopied :
        (e : String)
        → r.copy_error ≡ some e
        → submit_code r q s ≡ (temp_failed e, none, with_temp path)
    unfolding copying
    uncopied e h = kept ∙ ap copying h

    scanned_bad :
        (e : ScanError)
        → r.copy_error ≡ none
        → scan r.scanned ≡ some e
        → submit_code r q s ≡ (unsafe e, none, with_temp path)
    unfolding copying scanning
    scanned_bad e copied bad = kept ∙ ap copying copied ∙ ap scanning bad

    scanned_well :
        r.copy_error ≡ none
        → scan r.scanned ≡ none
        → submit_code r q s ≡ submit_upload r (new_record q r.fresh filename) path (with_temp path)
    unfolding copying scanning
    scanned_well copied clean = kept ∙ ap copying copied ∙ ap scanning clean

  abbrev pub AllGood : Type 0
  AllGood = (filename path : String) × (size : ℤ) × Good r q s filename path size

  abbrev pub Verdict : Submitted → Type 0
  Verdict out =
      ((filename path : String) × (size : ℤ) × Good r q s filename path size
        × Taken r (new_record q r.fresh filename) path size (with_temp path) out)
      ⊎ (¬ AllGood × Refused s out)

  refuse :
      (out : Submitted)
      → submit_code r q s ≡ out
      → Refused s out
      → ¬ AllGood
      → Verdict (submit_code r q s)
  refuse out e refused bad = inr (bad, subst (Refused s) (sym e) refused)

  after_clean :
      (filename path : String)
      → q.file ≡ some filename
      → r.temp_file ≡ some path
      → r.copy_error ≡ none
      → scan r.scanned ≡ none
      → Verdict (submit_code r q s)
  unfolding GoodUpload TakenSized GoodRecord
  after_clean filename path named made copied clean =
      let rec = new_record q r.fresh filename in
      let well = scanned_well filename path named made copied clean in
      elim (submit_upload-cases r rec path (with_temp path)) [
        | inl ((size, there, sent, worked), (size', there', taken)) ↦ inl (
          filename,
          path,
          size',
          (named, made, copied, (scan_lem r.scanned).0 clean, there', sent, worked),
          subst (Taken r rec path size' (with_temp path)) (sym well) taken,
        )
        | inr (bad, refused) ↦ inr (
          λ (f, p, n, g). bad (
            n,
            g.4,
            g.5,
            subst (λ x. (create_submission r.create r.now (new_record q r.fresh x) s.db).0 ≡ none)
                (some-injective _ _ (sym g.0 ∙ named)) g.6,
          ),
          subst (Refused s) (sym well) refused,
        )
      ]

  -- A submission is either taken or refused, and taken exactly when every step goes well: there is a
  -- file, it is copied, passes the scan and is uploaded, and CreateSubmission has no error. Then the reply
  -- has the new id, the object has the file's size and the job waits with the temporary file; where the
  -- service has a database, the row is added as pending, and where it has none, no row is. A refused
  -- one leaves the submissions as they were and starts no job.
  pub submit_code_lem : Verdict (submit_code r q s)
  submit_code_lem = elim (Option-cases q.file) [
    | inl lost ↦
        refuse _ (lost_file lost) ((λ id h. cc), refl, refl)
          (λ (f, p, n, g). some-ne-none (sym g.0 ∙ lost))
    | inr (filename, named) ↦ elim (Option-cases r.temp_file) [
      | inl lost ↦
          refuse _ (lost_temp filename named lost) ((λ id h. cc), refl, refl)
            (λ (f, p, n, g). some-ne-none (sym g.1 ∙ lost))
      | inr (path, made) ↦ elim (Option-cases r.copy_error) [
        | inr (e, broken) ↦
            refuse _ (uncopied filename path named made e broken) ((λ id h. cc), refl, refl)
              (λ (f, p, n, g). some-ne-none (sym broken ∙ g.2))
        | inl copied ↦ elim (Option-cases (scan r.scanned)) [
          | inr (e, bad) ↦
              refuse _ (scanned_bad filename path named made e copied bad)
                ((λ id h. cc), refl, refl)
                (λ (f, p, n, g). some-ne-none (sym bad ∙ (scan_lem r.scanned).1 g.3))
          | inl clean ↦ after_clean filename path named made copied clean
        ]
      ]
    ]
  ]
