-- ===== src/Submission/Scan.antt =====
-- Scanner.Scan of services/submission-service/main.go.
use iicpc_summer_hackathon.Prelude.{
  ℕ, ◌*◌, String, Bool, true, false, List, [], ◌∷◌, Option, none, some, map, if◌then◌else◌, ◌==◌,
  ◌||◌, ◌&&◌,
}
use iicpc_summer_hackathon.Prelude.Int.{ℤ, pos, ltb_ℤ}
use iicpc_summer_hackathon.Submission.Text.{codes, lower_code}
pub mod Patterns

-- What the system answers: the file's size, its code points as Go decodes them, and clamscan, which
-- may be absent, or end without or with an error and its output. A none is an error.
pub record ScanRun : Type 0 where
  pub stat : Option ℤ
  pub read_file : Option (List ℕ)
  pub clamscan : Option (Option String)

pub data ScanError : Type 0 where
  stat_failed : ScanError
  too_large : ℤ → ScanError
  read_failed : ScanError
  suspicious : String → ScanError
  infected : String → ScanError

abbrev pub max_bytes : ℕ
max_bytes = 500 * 1024 * 1024

abbrev pub patterns : List String
patterns =
    "/dev/tcp" ∷ "bash -i" ∷ "nc -e" ∷ "python -c" ∷ "base64 -d" ∷ "chmod +x" ∷ "/proc/self/exe"
    ∷ []

unfoldable pub has_prefix : List ℕ → List ℕ → Bool
has_prefix [] text = true
has_prefix (p ∷ ps) [] = false
has_prefix (p ∷ ps) (c ∷ text) = (p == c) && has_prefix ps text

-- strings.Contains(text, p).
unfoldable pub contains : List ℕ → List ℕ → Bool
unfolding has_prefix
contains p [] = has_prefix p []
contains p (c ∷ text) = has_prefix p (c ∷ text) || contains p text

abbrev pub lower : List ℕ → List ℕ
lower = map lower_code

-- The loop over the patterns.
unfoldable pub first_match : List ℕ → List String → Option String
unfolding contains
first_match text [] = none
first_match text (p ∷ ps) =
    let rest = first_match text ps in if contains (codes p) text then some p else rest

-- From the loop's end on, with the pattern that was found, if any, and clamscan's outcome.
abbrev pub after_patterns : Option String → Option (Option String) → Option ScanError
after_patterns (some p) clamscan = some (suspicious p)
after_patterns none none = none
after_patterns none (some none) = none
after_patterns none (some (some out)) = some (infected out)

abbrev pub scan_data : List ℕ → Option (Option String) → Option ScanError
scan_data file clamscan = after_patterns (first_match (lower file) patterns) clamscan

-- The error, or none for a file that passes.
unfoldable pub scan : ScanRun → Option ScanError
unfolding first_match
scan run = elim (run.stat) [
  | none ↦ some stat_failed
  | some size ↦ if ltb_ℤ (pos max_bytes) size then some (too_large size) else elim (run.read_file) [
    | none ↦ some read_failed
    | some file ↦ scan_data file run.clamscan
  ]
]
