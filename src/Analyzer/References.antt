-- ===== src/Analyzer/References.antt =====
-- The issues that a pull request refers to
-- (gitrank/services/pr-analyzer/internal/analyzer/features.go): `issueReferencePattern`,
-- `addIssueReference` and `detectIssueReferences`.
use Prim.Native.Char.{code}
use Prim.Native.String.{◌++◌ as append}
use text.Mathlib.Text.{◌==◌ as str_eq}
use gitrank.Common.{
  ℕ, zero, suc, ◌-◌, Bool, not, ◌&&◌, ◌||◌, String, Option, none, some, List, [], ◌∷◌, ◌++◌, leb,
  ◌==◌, trim_space, if◌then◌else◌,
}
use gitrank.Common.Words.{to_lower, contains, member}
use gitrank.Contracts.{PullRequestContext}

abbrev between : ℕ → ℕ → ℕ → Bool
between low high c = leb low c && leb c high

-- \d
abbrev is_digit : ℕ → Bool
is_digit c = between b'0' b'9' c

-- (?i)[a-z0-9_.-]: without regard to case, so the long s and the Kelvin sign belong to it.
abbrev is_name_char : ℕ → Bool
is_name_char c =
    between b'a' b'z' c
    || between b'A' b'Z' c
    || is_digit c
    || c == b'_'
    || c == b'.'
    || c == b'-'
    || c == 0x17f
    || c == 0x212a

-- The longest run of characters of a class, and what follows. No character of the two classes of
-- the pattern can begin what the pattern wants after the run, so it never gives a character back.
run_of : (ℕ → Bool) → String → String × String
run_of class String.[] = (String.[], String.[])
run_of class (String.◌∷◌ c s) =
    let (run, after) = run_of class s in
    if class (code c) then (String.◌∷◌ c run, after) else (String.[], String.◌∷◌ c s)

-- #\d+ here
match_number : String → Option String
unfolding run_of
match_number String.[] = none
match_number (String.◌∷◌ c s) =
    let (digits, after) = run_of is_digit s in
    if code c == b'#' && not (str_eq digits "") then some (String.◌∷◌ c digits) else none

-- /[a-z0-9_.-]+#\d+ here
match_repository : String → Option String
unfolding run_of match_number
match_repository String.[] = none
match_repository (String.◌∷◌ c s) =
    let (name, after) = run_of is_name_char s in
    elim (match_number after) [
      | none ↦ none
      | some number ↦
          if code c == b'/' && not (str_eq name "")
          then some (String.◌∷◌ c (append name number))
          else none
    ]

-- A match of `issueReferencePattern` that begins here.
unfoldable pub match_reference : String → Option String
unfolding run_of match_repository match_number
match_reference s =
    let (owner, after) = run_of is_name_char s in
    elim (match_repository after) [
      | none ↦ match_number s
      | some repository ↦ if str_eq owner "" then match_number s else some (append owner repository)
    ]

abbrev char_count : String → ℕ
char_count String.[] = 0
char_count (String.◌∷◌ c s) = suc (char_count s)

-- `issueReferencePattern.FindAllString`, with so many characters of the last match to skip.
unfoldable pub find_references : ℕ → String → List String
unfolding match_reference
find_references skip String.[] = []
find_references (suc skip) (String.◌∷◌ c s) = find_references skip s
find_references zero (String.◌∷◌ c s) = elim (match_reference (String.◌∷◌ c s)) [
  | none ↦ find_references zero s
  | some reference ↦ reference ∷ find_references (char_count reference - 1) s
]

abbrev pub clean_reference : String → String
clean_reference raw =
    if contains (trim_space raw) "/" then to_lower (trim_space raw) else trim_space raw

-- `addIssueReference`; `seen` holds what `references` does.
unfoldable pub add_issue_reference : List String → String → List String
add_issue_reference references raw =
    if str_eq (trim_space raw) "" || member references (clean_reference raw)
    then references
    else references ++ clean_reference raw ∷ []

unfoldable pub add_all : List String → List String → List String
unfolding add_issue_reference
add_all references [] = references
add_all references (raw ∷ rest) = add_all (add_issue_reference references raw) rest

-- `detectIssueReferences`
unfoldable pub detect_issue_references : PullRequestContext → List String
unfolding add_all find_references
detect_issue_references pr =
    add_all (add_all [] pr.linked_issues) (find_references 0 (append pr.title (append " " pr.body)))
