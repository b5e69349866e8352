-- ===== src/Analyzer/Detected.antt =====
-- The languages of a change agree with one another
-- (gitrank/services/pr-analyzer/internal/analyzer/features.go: detectLanguages).
use text.Mathlib.Text.{◌==◌ as str_eq}
use text.Mathlib.TextPositions.{eq_refl}
use gitrank.Common.{
  ℕ, ◌≡◌, refl, inl, inr, ◌⊎◌, Bool-cases, Bool, true, false, ◌||◌, String, List, [], ◌∷◌, ltb,
  ◌==◌, arith, if◌then◌else◌,
}
use gitrank.Common.Words.{member}
use gitrank.Contracts.{ChangedFile}
use gitrank.Analyzer.Languages.{
  normalize_language_name, language_for_file, add_files, add_language, count_of, names, most_used,
  insert, sort, detected, detect_languages, goes_before,
}

member-insert :
    (before : String → String → Bool) (s x : String) (xs : List String)
    → member (insert before s xs) x ≡ (str_eq s x || member xs x)
unfolding member insert
member-insert before s x [] = refl
member-insert before s x (t ∷ xs) = ground (arith, member-insert before s x xs)

member-sort :
    (before : String → String → Bool) (x : String) (sorted xs : List String)
    → member (sort before sorted xs) x ≡ (member sorted x || member xs x)
unfolding member sort
member-sort before x sorted [] = ground arith
member-sort before x sorted (s ∷ xs) =
    ground
      (arith, member-sort before x (insert before s sorted) xs, member-insert before s x sorted)

count_of-member :
    (x : String) (counts : List (String × ℕ))
    → (count_of counts x == 0) ≡ false
    → member (names counts) x ≡ true
unfolding member names count_of
count_of-member x [] h = ground arith
count_of-member x ((key, n) ∷ rest) h = ground (arith, count_of-member x rest)

most_used-member :
    (counts : List (String × ℕ)) (all order : List String) (primary : String)
    → member all primary ≡ true
    → ((x : String) → member order x ≡ true → member all x ≡ true)
    → member all (most_used counts primary order) ≡ true
unfolding most_used member
most_used-member counts all [] primary p o = p
most_used-member counts all (s ∷ order) primary p o =
    most_used-member counts all order
      (if ltb (count_of counts primary) (count_of counts s) then s else primary)
      (ground (arith, p, o s, eq_refl s)) (λ x h. o x (ground (arith, h)))

-- The primary language that `detectLanguages` settles on, given that it has counted some.
abbrev settled : String → String → List (String × ℕ) → List String → String
settled normal_primary first counts others =
    if str_eq normal_primary "" || count_of counts normal_primary == 0
    then most_used counts first others
    else normal_primary

settled-member :
    (normal_primary first : String) (n : ℕ) (rest : List (String × ℕ))
    → let counts = (first, n) ∷ rest in
      member (names counts) (settled normal_primary first counts (names rest)) ≡ true
unfolding member names
settled-member normal_primary first n rest =
    let counts = (first, n) ∷ rest in
    let most =
      most_used-member counts (first ∷ names rest) (names rest) first
        (ground (arith, eq_refl first)) (λ x h. ground (arith, h)) in
    let own = count_of-member normal_primary counts in ground (arith, most, own)

-- The primary language is one of the languages, if one was counted.
pub detected-primary :
    (normal_primary first : String) (n : ℕ) (rest : List (String × ℕ))
    → let found = detected normal_primary ((first, n) ∷ rest) in member (found.0) (found.1) ≡ true
unfolding detected
detected-primary normal_primary first n rest =
    let counts = (first, n) ∷ rest in
    let primary = settled normal_primary first counts (names rest) in
    rw (member-sort (goes_before counts primary) primary [] (names counts)) ground
      (arith, settled-member normal_primary first n rest)

detected-Agrees :
    (normal_primary : String) (counts : List (String × ℕ))
    → let found = detected normal_primary counts in
      (member (found.0) (found.1) ≡ true) ⊎ ((found.0 ≡ []) × (found.1 ≡ normal_primary))
unfolding detected
detected-Agrees normal_primary [] = inr (refl, refl)
detected-Agrees normal_primary ((first, n) ∷ rest) =
    inl (detected-primary normal_primary first n rest)

-- The primary language that is found is one of the detected languages, or else no language is
-- detected and the primary language is that of the repository.
detect_languages-Agrees :
    (repository_primary : String) (files : List ChangedFile) (source : ℕ)
    → let found = detect_languages repository_primary files source in
      (member (found.0) (found.1) ≡ true)
      ⊎ ((found.0 ≡ []) × (found.1 ≡ normalize_language_name repository_primary))
unfolding detect_languages
detect_languages-Agrees repository_primary files source =
    detected-Agrees (normalize_language_name repository_primary) _

-- No changed file has a language of its own.
abbrev pub AreUnlisted : List ChangedFile → Type 0
AreUnlisted [] = Unit
AreUnlisted (file ∷ files) = (language_for_file file.path ≡ "") × AreUnlisted files

add_files-unlisted :
    (files : List ChangedFile) (counts : List (String × ℕ))
    → AreUnlisted files
    → add_files files counts ≡ counts
unfolding add_files add_language
add_files-unlisted [] counts u = refl
add_files-unlisted (file ∷ files) counts u = rw u.0 (add_files-unlisted files counts (u.1))

pub detect_languages-unlisted :
    (repository_primary : String) (file : ChangedFile) (files : List ChangedFile)
    → AreUnlisted (file ∷ files)
    → detect_languages repository_primary (file ∷ files) 0
      ≡ ([], normalize_language_name repository_primary)
unfolding detect_languages detected
detect_languages-unlisted repository_primary file files u =
    rw (add_files-unlisted (file ∷ files) [] u)
      elim (Bool-cases (str_eq (normalize_language_name repository_primary) "")) [
        | inl e ↦ rw e refl
        | inr e ↦ rw e refl
      ]
