-- ===== src/Analyzer/Languages.antt =====
-- The languages of a change (gitrank/services/pr-analyzer/internal/analyzer/features.go):
-- `languageForFile`, `normalizeLanguageName` and `detectLanguages`.
use text.Mathlib.Text.{◌==◌ as str_eq}
use gitrank.Common.{
  ℕ, ◌+◌, Bool, true, false, ◌&&◌, ◌||◌, not, String, List, [], ◌∷◌, ltb, ◌==◌, trim_space,
  if◌then◌else◌,
}
use gitrank.Common.Words.{to_lower, base_name, extension, less_string}
use gitrank.Contracts.{ChangedFile}

-- A `switch` over texts, as the table of its cases.
unfoldable pub choose : String → List (String × String) → String → String
choose key [] default = default
choose key ((name, value) ∷ rest) default =
    let later = choose key rest default in if str_eq name key then value else later

abbrev by_extension : List (String × String)
by_extension =
    (".go", "Go")
    ∷ (".ts", "TypeScript")
    ∷ (".tsx", "TypeScript")
    ∷ (".js", "JavaScript")
    ∷ (".jsx", "JavaScript")
    ∷ (".mjs", "JavaScript")
    ∷ (".cjs", "JavaScript")
    ∷ (".py", "Python")
    ∷ (".rb", "Ruby")
    ∷ (".rs", "Rust")
    ∷ (".java", "Java")
    ∷ (".kt", "Kotlin")
    ∷ (".swift", "Swift")
    ∷ (".c", "C")
    ∷ (".h", "C")
    ∷ (".cc", "C++")
    ∷ (".cpp", "C++")
    ∷ (".cxx", "C++")
    ∷ (".hpp", "C++")
    ∷ (".cs", "C#")
    ∷ (".php", "PHP")
    ∷ (".sql", "SQL")
    ∷ (".sh", "Shell")
    ∷ (".bash", "Shell")
    ∷ (".zsh", "Shell")
    ∷ (".yaml", "YAML")
    ∷ (".yml", "YAML")
    ∷ (".json", "JSON")
    ∷ (".toml", "TOML")
    ∷ (".tf", "Terraform")
    ∷ (".md", "Markdown")
    ∷ (".rst", "Markdown")
    ∷ (".adoc", "Markdown")
    ∷ []

-- `languageForFile`
unfoldable pub language_for_file : String → String
unfolding choose
language_for_file path =
    let base = to_lower (base_name path) in
    let ext = to_lower (extension base) in
    choose base (("dockerfile", "Dockerfile") ∷ ("makefile", "Makefile") ∷ [])
      (choose ext by_extension "")

abbrev by_name : List (String × String)
by_name =
    ("", "")
    ∷ ("go", "Go")
    ∷ ("golang", "Go")
    ∷ ("typescript", "TypeScript")
    ∷ ("ts", "TypeScript")
    ∷ ("javascript", "JavaScript")
    ∷ ("js", "JavaScript")
    ∷ ("python", "Python")
    ∷ ("py", "Python")
    ∷ ("ruby", "Ruby")
    ∷ ("rb", "Ruby")
    ∷ ("rust", "Rust")
    ∷ ("rs", "Rust")
    ∷ ("java", "Java")
    ∷ ("kotlin", "Kotlin")
    ∷ ("kt", "Kotlin")
    ∷ ("swift", "Swift")
    ∷ ("c", "C")
    ∷ ("c++", "C++")
    ∷ ("cpp", "C++")
    ∷ ("c#", "C#")
    ∷ ("csharp", "C#")
    ∷ ("php", "PHP")
    ∷ ("sql", "SQL")
    ∷ ("shell", "Shell")
    ∷ ("bash", "Shell")
    ∷ ("zsh", "Shell")
    ∷ ("yaml", "YAML")
    ∷ ("yml", "YAML")
    ∷ ("json", "JSON")
    ∷ ("toml", "TOML")
    ∷ ("terraform", "Terraform")
    ∷ ("tf", "Terraform")
    ∷ ("markdown", "Markdown")
    ∷ ("md", "Markdown")
    ∷ ("dockerfile", "Dockerfile")
    ∷ ("makefile", "Makefile")
    ∷ []

-- `normalizeLanguageName`
unfoldable pub normalize_language_name : String → String
unfolding choose
normalize_language_name language =
    choose (to_lower (trim_space language)) by_name (trim_space language)

-- `counts` and `order` together: the languages in the order of their first file.
unfoldable pub count_of : List (String × ℕ) → String → ℕ
count_of [] language = 0
count_of ((key, n) ∷ rest) language =
    let later = count_of rest language in if str_eq key language then n else later

-- `addLanguage`, for a language that is not empty
unfoldable pub count_language : String → List (String × ℕ) → List (String × ℕ)
count_language language [] = (language, 1) ∷ []
count_language language ((key, n) ∷ rest) =
    let later = count_language language rest in
    if str_eq key language then (key, n + 1) ∷ rest else (key, n) ∷ later

-- `addLanguage`
unfoldable pub add_language : String → List (String × ℕ) → List (String × ℕ)
add_language language counts = if str_eq language "" then counts else count_language language counts

-- The loop over the files
unfoldable pub add_files : List ChangedFile → List (String × ℕ) → List (String × ℕ)
add_files [] counts = counts
add_files (file ∷ files) counts =
    add_files files (add_language (language_for_file file.path) counts)

unfoldable pub names : List (String × ℕ) → List String
names [] = []
names ((key, n) ∷ rest) = key ∷ names rest

-- The loop that looks for the language with the most files.
unfoldable pub most_used : List (String × ℕ) → String → List String → String
unfolding count_of
most_used counts primary [] = primary
most_used counts primary (candidate ∷ order) =
    most_used counts
      (if ltb (count_of counts primary) (count_of counts candidate) then candidate else primary)
      order

-- The order of the result: the function that `sort.SliceStable` is given.
unfoldable pub goes_before : List (String × ℕ) → String → String → String → Bool
goes_before counts primary a b =
    if count_of counts a == count_of counts b
    then if str_eq a primary then true else if str_eq b primary then false else less_string a b
    else ltb (count_of counts b) (count_of counts a)

unfoldable pub insert : (String → String → Bool) → String → List String → List String
insert before s [] = s ∷ []
insert before s (t ∷ rest) =
    let later = insert before s rest in if before s t then s ∷ t ∷ rest else t ∷ later

-- sort.SliceStable(values, less)
unfoldable pub sort : (String → String → Bool) → List String → List String → List String
unfolding insert
sort before sorted [] = sorted
sort before sorted (s ∷ rest) = sort before (insert before s sorted) rest

unfoldable pub detected : String → List (String × ℕ) → List String × String
unfolding count_of
detected normal_primary [] = ([], normal_primary)
detected normal_primary ((first, n) ∷ rest) =
    let counts = (first, n) ∷ rest in
    let primary =
      if str_eq normal_primary "" || count_of counts normal_primary == 0
      then most_used counts first (names rest)
      else normal_primary in
    (sort (goes_before counts primary) [] (names counts), primary)

-- `detectLanguages`; the number of source files is all that it reads of the breakdown.
unfoldable pub detect_languages : String → List ChangedFile → ℕ → List String × String
unfolding detected
detect_languages repository_primary files source =
    let normal_primary = normalize_language_name repository_primary in
    let counts = add_files files [] in
    let counted =
      if not (str_eq normal_primary "") && (ltb 0 source || is_empty files)
      then add_language normal_primary counts
      else counts in
    detected normal_primary counted
  where
    is_empty : List ChangedFile → Bool
    is_empty [] = true
    is_empty (file ∷ rest) = false
