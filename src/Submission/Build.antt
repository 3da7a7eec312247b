-- ===== src/Submission/Build.antt =====
-- Builder.Build, dockerfileFor and copyFile of services/submission-service/main.go. What tar, unzip,
-- docker and the file system answer is an argument.
use Prim.Native.String.{◌++◌ as str_append, slice, len}
use iicpc_summer_hackathon.Prelude.{
  ℕ, String, ◌==◌, ◌&&◌, ◌||◌, Bool, true, false, List, [], ◌∷◌, ◌++◌, Option, none, some,
  if◌then◌else◌, str_eq, ltb,
}
use iicpc_summer_hackathon.Submission.Text.{codes}
use iicpc_summer_hackathon.Submission.Scan.{lower}
pub mod Dockerfiles
use Dockerfiles.{rust_dockerfile, cpp_dockerfile, go_dockerfile, c_dockerfile, binary_dockerfile}

pub record Builder : Type 0 where
  pub registry : String
  pub runtime : String

-- The errors of opening, creating and copying.
pub record CopyRun : Type 0 where
  pub open_error : Option String
  pub create_error : Option String
  pub copy_error : Option String

abbrev pub copy_file : CopyRun → Option String
copy_file run = elim (run.open_error) [
  | some e ↦ some e
  | none ↦ elim (run.create_error) [ some e ↦ some e | none ↦ run.copy_error ]
]

pub record BuildRun : Type 0 where
  pub mkdir_error : Option String
  pub build_dir : String
  pub tar_works : Bool
  pub tar_out : String
  pub unzip_works : Bool
  pub unzip_out : String
  pub copy : CopyRun
  pub write_error : Option String
  pub docker_works : Bool

-- What Build does to the system, in order; the copy of the raw file is made executable.
pub data BuildStep : Type 0 where
  make_dir : BuildStep
  run : List String → BuildStep
  copy_raw : BuildStep
  write_dockerfile : List String → BuildStep
  remove_dir : BuildStep

pub data BuildResult : Type 0 where
  panicked : BuildResult
  failed : String → BuildResult
  built : String → BuildResult

abbrev same_codes : List ℕ → List ℕ → Bool
same_codes [] [] = true
same_codes [] (b ∷ others) = false
same_codes (a ∷ rest) [] = false
same_codes (a ∷ rest) (b ∷ others) = (a == b) && same_codes rest others

-- `strings.ToLower(language) == word`.
abbrev is_word : String → String → Bool
is_word language word = same_codes (lower (codes language)) (codes word)

-- The lines of the Dockerfile.
unfoldable pub dockerfile_for : String → List String
dockerfile_for language =
    if is_word language "rust"
    then rust_dockerfile
    else (if is_word language "c++" || is_word language "cpp"
        then cpp_dockerfile
        else (if is_word language "go"
            then go_dockerfile
            else (if is_word language "c" then c_dockerfile else binary_dockerfile)))

-- The first 8 characters, which a shorter id does not have: that is a panic.
abbrev pub short_id : String → Option String
short_id id = if ltb (len id) 8 then none else some (slice id 0 8)

abbrev pub image_name : Builder → String → String
image_name b short = str_append b.registry (str_append "/contestant-" (str_append short ":latest"))

abbrev pub build_args : Builder → String → String → List String
build_args b image dir =
    ("docker" ∷ "build" ∷ "-t" ∷ image ∷ "--no-cache" ∷ dir ∷ [])
    ++ (if str_eq b.runtime "runc" then "--network=host" ∷ [] else [])

-- The archive as a tar, as a zip, or as the engine itself, with the error where nothing works.
abbrev pub extract : BuildRun → String → List BuildStep × Option String
extract r archive =
    let tar = run ("tar" ∷ "-xzf" ∷ archive ∷ "-C" ∷ r.build_dir ∷ []) in
    let unzip = run ("unzip" ∷ "-o" ∷ archive ∷ "-d" ∷ r.build_dir ∷ []) in
    if r.tar_works
    then (tar ∷ [], none)
    else (if r.unzip_works then (tar ∷ unzip ∷ [], none) else elim (copy_file r.copy) [
      | none ↦ (tar ∷ unzip ∷ copy_raw ∷ [], none)
      | some e ↦ (
        tar ∷ unzip ∷ [],
        some (
            str_append "extract failed: tar: "
              (str_append r.tar_out (str_append ", unzip: " r.unzip_out))),
      )
    ])

-- The image, from the Dockerfile on: a build that docker refuses gives the name of a stand-in.
abbrev pub build_image : Builder → BuildRun → String → List BuildStep × BuildResult
build_image b r submission_id = elim (short_id submission_id) [
  | none ↦ ([], panicked)
  | some short ↦
      (let image = image_name b short in
        (
          run (build_args b image r.build_dir) ∷ [],
          built (if r.docker_works then image else str_append image "-mock"),
        ))
]

abbrev pub finish_build : Builder → BuildRun → String → String → List BuildStep × BuildResult
finish_build b r submission_id language =
    let dockerfile = dockerfile_for language in
    elim (r.write_error) [
      | some e ↦ ([], failed e)
      | none ↦
          (let (steps, result) = build_image b r submission_id in
            (write_dockerfile dockerfile ∷ steps, result))
    ]

-- The steps and the result; the directory goes whatever happens.
unfoldable pub build : Builder → BuildRun → String → String → String → List BuildStep × BuildResult
unfolding dockerfile_for
build b r submission_id language archive = elim (r.mkdir_error) [
  | some e ↦ ([], failed e)
  | none ↦
      (let (extracted, error) = extract r archive in
        elim error [
          | some e ↦ (make_dir ∷ extracted ++ remove_dir ∷ [], failed e)
          | none ↦
              (let (steps, result) = finish_build b r submission_id language in
                (make_dir ∷ extracted ++ steps ++ remove_dir ∷ [], result))
        ])
]
