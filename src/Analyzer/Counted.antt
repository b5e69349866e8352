-- ===== src/Analyzer/Counted.antt =====
-- The counts and lists that the analyzer draws from a pull request
-- (gitrank/services/pr-analyzer/internal/analyzer: classifyFiles, detectIssueReferences,
-- detectCriticalityTags).
use Prim.Native.String.{◌++◌ as append}
use text.Mathlib.Text.{◌==◌ as str_eq}
use gitrank.Common.{
  ℕ, ◌+◌, ◌≡◌, refl, inl, inr, Bool-cases, false, ◌||◌, String, Option, none, some, List, [], ◌∷◌,
  ◌++◌, length, arith, eq_iff, trim_space,
}
use gitrank.Common.Words.{member, to_lower}
use gitrank.Contracts.{ChangedFile, PullRequestContext, FileBreakdown}
use gitrank.Analyzer.Paths.{classify_files, count_files, count_file, no_files}
use gitrank.Analyzer.References.{
  detect_issue_references, find_references, add_all, add_issue_reference, clean_reference,
}
use gitrank.Analyzer.Features.{
  detect_criticality_tags, tag_files, tag_file, tag_of, append_found, append_tag,
}

-- All files of a breakdown
abbrev pub total : FileBreakdown → ℕ
total b = b.docs + b.tests + b.source + b.infra + b.config

count_file-total :
    (file : ChangedFile) (b : FileBreakdown) → total (count_file file b) ≡ total b + 1
unfolding count_file
count_file-total file b = ground arith

count_files-total :
    (files : List ChangedFile) (b : FileBreakdown)
    → total (count_files files b) ≡ total b + length files
unfolding count_files
count_files-total [] b = omega arith
count_files-total (file ∷ files) b =
    ground (arith, count_files-total files (count_file file b), count_file-total file b)

-- Each changed file is counted once: the five counts of the breakdown add up to the number of files.
classify_files-total : (files : List ChangedFile) → total (classify_files files) ≡ length files
unfolding classify_files
classify_files-total files = ground (arith, count_files-total files no_files)

-- No value is twice in the list.
abbrev pub NoRepeats : List String → Type 0
NoRepeats [] = Unit
NoRepeats (s ∷ rest) = (member rest s ≡ false) × NoRepeats rest

member_snoc :
    (xs : List String) (x y : String) → member (xs ++ x ∷ []) y ≡ (member xs y || str_eq x y)
unfolding member
member_snoc [] x y = ground arith
member_snoc (s ∷ xs) x y = ground (arith, member_snoc xs x y)

NoRepeats-snoc :
    (xs : List String) (x : String) → NoRepeats xs → member xs x ≡ false → NoRepeats (xs ++ x ∷ [])
unfolding member
NoRepeats-snoc [] x n h = (refl, tt)
NoRepeats-snoc (s ∷ xs) x n h = (
  ground (arith, member_snoc xs x s, eq_iff s x, eq_iff x s, n.0, h),
  NoRepeats-snoc xs x n.1 (ground (arith, h)),
)

NoRepeats-append_tag :
    (tags : List String) (tag : String) → NoRepeats tags → NoRepeats (append_tag tags tag)
unfolding append_tag
NoRepeats-append_tag tags tag n = elim (Bool-cases (member tags tag)) [
  | inl e ↦ rw e n
  | inr e ↦ rw e (NoRepeats-snoc tags tag n e)
]

NoRepeats-add_all :
    (references raws : List String) → NoRepeats references → NoRepeats (add_all references raws)
unfolding add_all add_issue_reference
NoRepeats-add_all references [] n = n
NoRepeats-add_all references (raw ∷ raws) n =
    NoRepeats-add_all (add_issue_reference references raw) raws
      (elim (Bool-cases (str_eq (trim_space raw) "" || member references (clean_reference raw))) [
        | inl e ↦ rw e n
        | inr e ↦ rw e (NoRepeats-snoc references (clean_reference raw) n (ground (arith, e)))
      ])

NoRepeats-append_found :
    (tags : List String) (tag : Option String) → NoRepeats tags → NoRepeats (append_found tags tag)
unfolding append_found
NoRepeats-append_found tags none n = n
NoRepeats-append_found tags (some tag) n = NoRepeats-append_tag tags tag n

NoRepeats-tag_files :
    (tags : List String) (files : List ChangedFile)
    → NoRepeats tags
    → NoRepeats (tag_files tags files)
unfolding tag_files tag_file
NoRepeats-tag_files tags [] n = n
NoRepeats-tag_files tags (file ∷ files) n =
    NoRepeats-tag_files (tag_file tags file) files
      (NoRepeats-append_found tags (tag_of (to_lower file.path)) n)

-- No issue reference and no criticality tag is listed twice, whatever the title, the body, the linked
-- issues and the files are.
pub features-NoRepeats :
    (pr : PullRequestContext)
    → NoRepeats (detect_issue_references pr) × NoRepeats (detect_criticality_tags pr.files)
unfolding detect_issue_references detect_criticality_tags
features-NoRepeats pr = (
  NoRepeats-add_all _ (find_references 0 (append pr.title (append " " pr.body)))
      (NoRepeats-add_all [] pr.linked_issues tt),
  NoRepeats-tag_files [] pr.files tt,
)
