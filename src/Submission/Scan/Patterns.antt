-- ===== src/Submission/Scan/Patterns.antt =====
-- Which files pass Scan.
use iicpc_summer_hackathon.Prelude.{
  ℕ, ◌≡◌, refl, ap, ap₂, ◌∙◌, sym, subst, inl, inr, ◌⊎◌, ◌↔◌, some-ne-none, String, true, false,
  List, [], ◌∷◌, ◌++◌, Option, none, some, All, arith, Bool-cases, Option-cases,
}
use iicpc_summer_hackathon.Prelude.Int.{ℤ, pos, ltb_ℤ}
use iicpc_summer_hackathon.Submission.Text.{codes}
use iicpc_summer_hackathon.Submission.Scan.{
  ScanRun, stat_failed, too_large, read_failed, max_bytes, patterns, has_prefix, contains, lower,
  first_match, after_patterns, scan,
}

-- The text has the word in it.
abbrev pub Occurs : List ℕ → List ℕ → Type 0
Occurs word text = (before after : List ℕ) × (text ≡ before ++ word ++ after)

has_prefix-append : (p rest : List ℕ) → has_prefix p (p ++ rest) ≡ true
unfolding has_prefix
has_prefix-append [] [] = refl
has_prefix-append [] (c ∷ rest) = refl
has_prefix-append (p ∷ ps) rest = ground (arith, has_prefix-append ps rest)

has_prefix-rest :
    (p text : List ℕ) → has_prefix p text ≡ true → (rest : List ℕ) × (text ≡ p ++ rest)
unfolding has_prefix
has_prefix-rest [] text h = (text, refl)
has_prefix-rest (p ∷ ps) [] h = cc
has_prefix-rest (p ∷ ps) (c ∷ text) h =
    let (rest, e) = has_prefix-rest ps text (ground (arith, h)) in
    (rest, ap₂ ◌∷◌ (ground (arith, h)) e)

contains-Occurs : (p text : List ℕ) → contains p text ≡ true → Occurs p text
unfolding contains
contains-Occurs p [] h = let (rest, e) = has_prefix-rest p [] h in ([], rest, e)
contains-Occurs p (c ∷ text) h = elim (Bool-cases (has_prefix p (c ∷ text))) [
  | inl found ↦ (let (rest, e) = has_prefix-rest p (c ∷ text) found in ([], rest, e))
  | inr later ↦
      (let (before, rest, e) = contains-Occurs p text (ground (arith, h, later)) in
        (c ∷ before, rest, ap (λ t. c ∷ t) e))
]

contains-here : (p rest : List ℕ) → contains p (p ++ rest) ≡ true
unfolding contains has_prefix
contains-here [] [] = refl
contains-here [] (c ∷ rest) = refl
contains-here (p ∷ ps) rest = ground (arith, has_prefix-append (p ∷ ps) rest)

contains-append : (before p rest : List ℕ) → contains p (before ++ p ++ rest) ≡ true
unfolding contains
contains-append [] p rest = contains-here p rest
contains-append (c ∷ before) p rest = ground (arith, contains-append before p rest)

contains-none : (p text : List ℕ) → contains p text ≡ false → ¬ Occurs p text
contains-none p text h (before, rest, e) =
    absurd
      (ground (arith, h, subst (λ t. contains p t ≡ true) (sym e) (contains-append before p rest)))

not_contained : (p text : List ℕ) → ¬ Occurs p text → contains p text ≡ false
not_contained p text h = elim (Bool-cases (contains p text)) [
  | inl found ↦ absurd (h (contains-Occurs p text found))
  | inr absent ↦ absent
]

first_match-none :
    (text : List ℕ) (ps : List String)
    → first_match text ps ≡ none
    → All (λ p. ¬ Occurs (codes p) text) ps
unfolding first_match
first_match-none text [] h = tt
first_match-none text (p ∷ ps) h = elim (Bool-cases (contains (codes p) text)) [
  | inl found ↦ absurd (ground (arith, h, found))
  | inr absent ↦
      (contains-none (codes p) text absent, first_match-none text ps (ground (arith, h, absent)))
]

no_match :
    (text : List ℕ) (ps : List String)
    → All (λ p. ¬ Occurs (codes p) text) ps
    → first_match text ps ≡ none
unfolding first_match
no_match text [] h = refl
no_match text (p ∷ ps) h = rw (not_contained (codes p) text h.0) (no_match text ps h.1)

-- clamscan is not there, or finds nothing.
abbrev pub Unharmed : Option (Option String) → Type 0
Unharmed clamscan = (clamscan ≡ none) ⊎ (clamscan ≡ some none)

-- What a file must be to pass.
abbrev pub IsClean : ScanRun → Type 0
IsClean run =
    ((size : ℤ) × (run.stat ≡ some size) × (ltb_ℤ (pos max_bytes) size ≡ false))
    × ((file : List ℕ) × (run.read_file ≡ some file)
        × All (λ p. ¬ Occurs (codes p) (lower file)) patterns)
    × Unharmed run.clamscan

after_patterns-none :
    (found : Option String) (clamscan : Option (Option String))
    → after_patterns found clamscan ≡ none
    → (found ≡ none) × Unharmed clamscan
after_patterns-none (some p) clamscan h = cc
after_patterns-none none none h = (refl, inl refl)
after_patterns-none none (some none) h = (refl, inr refl)
after_patterns-none none (some (some out)) h = cc

after_patterns-Unharmed :
    (clamscan : Option (Option String)) → Unharmed clamscan → after_patterns none clamscan ≡ none
after_patterns-Unharmed none u = refl
after_patterns-Unharmed (some none) u = refl
after_patterns-Unharmed (some (some out)) u = elim u [ inl e ↦ cc | inr e ↦ cc ]

scan-lost : (run : ScanRun) → run.stat ≡ none → scan run ≡ some stat_failed
unfolding scan
scan-lost run e = rw e refl

module _ (run : ScanRun) (size : ℤ) (there : run.stat ≡ some size) where
  scan-big : ltb_ℤ (pos max_bytes) size ≡ true → scan run ≡ some (too_large size)
  unfolding scan
  scan-big big = rw (there, big) refl

  scan-unread :
      ltb_ℤ (pos max_bytes) size ≡ false → run.read_file ≡ none → scan run ≡ some read_failed
  unfolding scan
  scan-unread fits lost = rw (there, fits, lost) refl

  scan-read :
      (file : List ℕ)
      → ltb_ℤ (pos max_bytes) size ≡ false
      → run.read_file ≡ some file
      → scan run ≡ after_patterns (first_match (lower file) patterns) run.clamscan
  unfolding scan first_match
  scan-read file fits read = rw (there, fits, read) refl

scan-IsClean : (run : ScanRun) → scan run ≡ none → IsClean run
scan-IsClean run h = elim (Option-cases run.stat) [
  | inl e ↦ absurd (some-ne-none (sym (scan-lost run e) ∙ h))
  | inr (size, there) ↦ elim (Bool-cases (ltb_ℤ (pos max_bytes) size)) [
    | inl big ↦ absurd (some-ne-none (sym (scan-big run size there big) ∙ h))
    | inr fits ↦ elim (Option-cases run.read_file) [
      | inl lost ↦ absurd (some-ne-none (sym (scan-unread run size there fits lost) ∙ h))
      | inr (file, read) ↦
          (let (clean, harmless) =
              after_patterns-none (first_match (lower file) patterns) run.clamscan
                (sym (scan-read run size there file fits read) ∙ h) in
            (
              (size, there, fits),
              (file, read, first_match-none (lower file) patterns clean),
              harmless,
            ))
    ]
  ]
]

-- Scan passes a file exactly when its size and its text can be read, it has at most 500 MB, none of
-- the seven patterns occurs in its text with capitals made small, and clamscan is absent or finds nothing.
pub scan_lem : (run : ScanRun) → (scan run ≡ none) ↔ IsClean run
scan_lem run = (
  scan-IsClean run,
  λ ((size, there, fits), (file, read, clean), harmless).
      scan-read run size there file fits read
      ∙ ap (λ found. after_patterns found run.clamscan) (no_match (lower file) patterns clean)
      ∙ after_patterns-Unharmed run.clamscan harmless,
)
