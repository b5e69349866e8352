-- ===== src/Contracts/Sync.antt =====
-- gitrank/packages/contracts: the sync request (contracts.go) and how it is normalised
-- (sync_validation.go). The regular expressions are matched by hand.
use Prim.Native.Char.{code}
use Prim.Native.String.{◌++◌ as append}
use text.Mathlib.Text.{◌==◌ as str_eq}
use gitrank.Common.{
  ℕ, zero, suc, Bool, true, false, ◌&&◌, ◌||◌, not, String, Option, none, some, List, [], ◌∷◌, leb,
  ◌==◌, trim_space, if◌then◌else◌,
}
use gitrank.Common.Int.{ℤ}
use gitrank.Common.Words.{to_lower, contains}

pub record SyncRequest : Type 0 where
  pub user : String
  pub user_id : String
  pub repository : String
  pub mode : String
  pub installation_id : ℤ
  pub number : ℤ
  pub sha : String

-- The errors of `Normalize`, and of the functions that it calls.
pub data SyncError : Type 0 where
  installation_required login_required login_malformed : SyncError
  repository_required repository_malformed repository_name_malformed : SyncError
  number_required sha_required sha_malformed user_id_required user_id_malformed : SyncError
  unsupported_mode : SyncError

pub data Normal {ℓ} (A : Type ℓ) : Type ℓ where
  normal : A → Normal A
  abnormal : SyncError → Normal A

infixl 5 ◌>>=◌
abbrev pub ◌>>=◌ : {A B : Type 0} → Normal A → (A → Normal B) → Normal B
normal a >>= f = f a
abnormal e >>= f = abnormal e

abbrev between : ℕ → ℕ → ℕ → Bool
between low high c = leb low c && leb c high

-- [A-Za-z0-9]
abbrev is_alnum : ℕ → Bool
is_alnum c = between b'A' b'Z' c || between b'a' b'z' c || between b'0' b'9' c

-- [A-Za-z0-9-]
abbrev is_login_char : ℕ → Bool
is_login_char c = is_alnum c || c == b'-'

-- [A-Za-z0-9._-]
abbrev is_name_char : ℕ → Bool
is_name_char c = is_alnum c || c == b'.' || c == b'_' || c == b'-'

-- [A-Fa-f0-9]
abbrev is_hex : ℕ → Bool
is_hex c = between b'A' b'F' c || between b'a' b'f' c || between b'0' b'9' c

all_chars : (ℕ → Bool) → String → Bool
all_chars class String.[] = true
all_chars class (String.◌∷◌ c s) = class (code c) && all_chars class s

char_count : String → ℕ
char_count String.[] = 0
char_count (String.◌∷◌ c s) = suc (char_count s)

first_char : (ℕ → Bool) → String → Bool
first_char class String.[] = false
first_char class (String.◌∷◌ c s) = class (code c)

last_char : (ℕ → Bool) → String → Bool
last_char class String.[] = false
last_char class (String.◌∷◌ c s) =
    let rest = last_char class s in if str_eq s "" then class (code c) else rest

-- ^[A-Za-z0-9](?:[A-Za-z0-9-]{0,37}[A-Za-z0-9])?$
unfoldable pub is_login : String → Bool
unfolding all_chars char_count first_char last_char
is_login s =
    all_chars is_login_char s
    && first_char is_alnum s
    && last_char is_alnum s
    && leb (char_count s) 39

-- ^[A-Za-z0-9._-]{1,100}$
unfoldable pub is_repository_name : String → Bool
unfolding all_chars char_count
is_repository_name s = all_chars is_name_char s && between 1 100 (char_count s)

-- ^[A-Fa-f0-9]{6,64}$
unfoldable pub is_commit : String → Bool
unfolding all_chars char_count
is_commit s = all_chars is_hex s && between 6 64 (char_count s)

-- The rest after `n` characters of a class.
after_run : (ℕ → Bool) → ℕ → String → Option String
after_run class zero s = some s
after_run class (suc n) String.[] = none
after_run class (suc n) (String.◌∷◌ c s) =
    let rest = after_run class n s in if class (code c) then rest else none

-- (?i)^[0-9a-f]{8}-[0-9a-f]{4}-…$, of groups with these lengths
is_groups : List ℕ → String → Bool
unfolding after_run
is_groups [] s = false
is_groups (n ∷ []) s = elim (after_run is_hex n s) [ none ↦ false | some rest ↦ str_eq rest "" ]
is_groups (n ∷ m ∷ ns) s = elim (after_run is_hex n s) [
  | none ↦ false
  | some rest ↦ elim (after_run (λ c. c == b'-') 1 rest) [
    | none ↦ false
    | some group ↦ is_groups (m ∷ ns) group
  ]
]

unfoldable pub is_uuid : String → Bool
unfolding is_groups
is_uuid s = is_groups (8 ∷ 4 ∷ 4 ∷ 4 ∷ 12 ∷ []) s

-- `NormalizeGitHubLogin`
unfoldable pub normalize_github_login : String → Normal String
normalize_github_login value =
    let login = trim_space value in
    if str_eq login ""
    then abnormal login_required
    else if is_login login
    then normal login
    else abnormal login_malformed

-- The text before the first slash and the text behind it, if there is one.
split_slash : String → String × Option String
split_slash String.[] = (String.[], none)
split_slash (String.◌∷◌ c s) =
    let (before, after) = split_slash s in
    if code c == b'/' then (String.[], some s) else (String.◌∷◌ c before, after)

-- strings.ContainsAny(value, `\?#@`)
has_forbidden : String → Bool
has_forbidden String.[] = false
has_forbidden (String.◌∷◌ c s) =
    (code c == b'\\' || code c == b'?' || code c == b'#' || code c == b'@') || has_forbidden s

named : String → String → Normal String
named owner name =
    if str_eq name "" || str_eq name "." || str_eq name ".." || not (is_repository_name name)
    then abnormal repository_name_malformed
    else normal (append owner (append "/" name))

-- `NormalizeGitHubRepository`
unfoldable pub normalize_github_repository : String → Normal String
unfolding split_slash has_forbidden named
normalize_github_repository value =
    let repository = trim_space value in
    if str_eq repository ""
    then abnormal repository_required
    else if has_forbidden repository || contains repository "://"
    then abnormal repository_malformed
    else elim (split_slash repository).1 [
      | none ↦ abnormal repository_malformed
      | some rest ↦ elim (split_slash rest).1 [
        | some more ↦ abnormal repository_malformed
        | none ↦ do
          owner ← normalize_github_login (split_slash repository).0
          named owner (trim_space rest)
      ]
    ]

-- `NormalizeCommitSHA`
unfoldable pub normalize_commit_sha : String → Normal String
normalize_commit_sha value =
    let sha = trim_space value in
    if str_eq sha ""
    then abnormal sha_required
    else if is_commit sha
    then normal (to_lower sha)
    else abnormal sha_malformed

-- `NormalizeUUID`
unfoldable pub normalize_uuid : String → Normal String
normalize_uuid value =
    let id = trim_space value in
    if str_eq id ""
    then abnormal user_id_required
    else if is_uuid id
    then normal (to_lower id)
    else abnormal user_id_malformed

strip_ats : String → String
strip_ats String.[] = String.[]
strip_ats (String.◌∷◌ c s) =
    let rest = strip_ats s in if code c == b'@' then rest else String.◌∷◌ c s

-- `normalizeOptionalSyncUser`
unfoldable pub normalize_optional_sync_user : String → Normal String
unfolding strip_ats
normalize_optional_sync_user value =
    let login = strip_ats (trim_space value) in
    if str_eq (trim_space value) ""
    then normal ""
    else if str_eq login ""
    then abnormal login_required
    else do normal_login ← normalize_github_login login; normal (to_lower normal_login)
