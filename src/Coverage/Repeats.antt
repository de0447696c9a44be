-- ===== src/Coverage/Repeats.antt =====
-- Files that are named more than once.
use pipelined_core.Common.{
  true, ◌||◌, List, [], ◌∷◌, ◌++◌, Bool-cases, ◌≡◌, inl, inr, refl, ap, ◌∙◌, arith,
}
use pipelined_core.Common.Text.{Text, text_eq, text_eq→eq, text_eq_refl}
use pipelined_core.Coverage.Report.{File, has_path, insert_file, distinct_files, summarize}

has_path-insert_file :
    (path : Text) (file : File) (fs : List File)
    → has_path path (insert_file file fs) ≡ (text_eq path file.0 || has_path path fs)
unfolding insert_file
has_path-insert_file path file [] = refl
has_path-insert_file path file (f ∷ fs) = ground (arith, has_path-insert_file path file fs)

has_path-distinct_files :
    (path : Text) (fs : List File) → has_path path (distinct_files fs) ≡ has_path path fs
unfolding distinct_files
has_path-distinct_files path [] = refl
has_path-distinct_files path (f ∷ fs) = elim (Bool-cases (has_path f.0 (distinct_files fs))) [
  | inr new ↦
      rw (distinct_files, new)
        (has_path-insert_file path f (distinct_files fs)
          ∙ ap (λ b. text_eq path f.0 || b) (has_path-distinct_files path fs))
  | inl old ↦ elim (Bool-cases (text_eq path f.0)) [
    | inr other ↦ rw (distinct_files, old) (rw other (has_path-distinct_files path fs))
    | inl same ↦ rw (distinct_files, old, same) (rw (text_eq→eq path f.0 same) old)
  ]
]

-- Every path of the first list is one of the second.
abbrev pub AllNamed : List File → List File → Type 0
AllNamed [] files = Unit
AllNamed (f ∷ more) files = (has_path f.0 files ≡ true) × AllNamed more files

has_path-append :
    (path : Text) (more files : List File)
    → has_path path files ≡ true
    → has_path path (more ++ files) ≡ true
has_path-append path [] files h = h
has_path-append path (f ∷ more) files h = let e = has_path-append path more files h in ground arith

distinct_files-append :
    (more files : List File)
    → AllNamed more files
    → distinct_files (more ++ files) ≡ distinct_files files
unfolding distinct_files
distinct_files-append [] files named = refl
distinct_files-append (f ∷ more) files (here, named) =
    let old = has_path-distinct_files f.0 (more ++ files) ∙ has_path-append f.0 more files here in
    rw (distinct_files, old) (distinct_files-append more files named)

-- Files whose paths are among those of the others change nothing in the report, nor in the error.
pub summarize-append :
    (default_model model : Text) (more files : List File)
    → AllNamed more files
    → summarize default_model model (more ++ files) ≡ summarize default_model model files
unfolding summarize
summarize-append default_model model more files named =
    let e = distinct_files-append more files named in rw e refl

AllNamed-weaken :
    (f : File) (more files : List File) → AllNamed more files → AllNamed more (f ∷ files)
AllNamed-weaken f [] files named = tt
AllNamed-weaken f (g ∷ more) files (here, named) =
    (rw here (ground arith), AllNamed-weaken f more files named)

pub AllNamed-refl : (files : List File) → AllNamed files files
AllNamed-refl [] = tt
AllNamed-refl (f ∷ files) =
    (rw (text_eq_refl f.0) refl, AllNamed-weaken f files files (AllNamed-refl files))
