-- ===== src/Analyzer/Paths.antt =====
-- What a path says of a file: `isDocPath` and its kin in
-- gitrank/services/pr-analyzer/internal/analyzer/features.go, and `classifyFiles` of analyzer.go.
use gitrank.Common.{◌+◌, Bool, ◌||◌, String, List, [], ◌∷◌, if◌then◌else◌}
use gitrank.Common.Words.{to_lower, has_prefix, has_suffix, contains, base_name}
use gitrank.Contracts.{ChangedFile, FileBreakdown}

-- `isDocPath`
unfoldable pub is_doc_path : String → Bool
is_doc_path path =
    has_prefix path "docs/"
    || has_prefix path ".github/"
    || has_suffix (base_name path) ".md"
    || has_suffix (base_name path) ".rst"
    || has_suffix (base_name path) ".adoc"

-- `isTestPath`
unfoldable pub is_test_path : String → Bool
is_test_path path =
    contains path "/test/"
    || contains path "/tests/"
    || has_suffix (base_name path) "_test.go"
    || has_prefix (base_name path) "test_"

-- `isInfraPath`
unfoldable pub is_infra_path : String → Bool
is_infra_path path =
    has_prefix path "deployments/"
    || has_prefix path ".github/workflows/"
    || contains path "docker"
    || contains path "k8s"
    || has_suffix path ".tf"

-- `isConfigPath`
unfoldable pub is_config_path : String → Bool
is_config_path path =
    has_prefix path "config/"
    || has_prefix path ".env"
    || has_suffix (base_name path) ".yaml"
    || has_suffix (base_name path) ".yml"
    || has_suffix (base_name path) ".json"
    || has_suffix (base_name path) ".toml"

abbrev pub no_files : FileBreakdown
no_files = record { docs = 0; tests = 0; source = 0; infra = 0; config = 0 }

-- The body of the loop of `classifyFiles`
unfoldable pub count_file : ChangedFile → FileBreakdown → FileBreakdown
count_file file b =
    let path = to_lower file.path in
    if is_infra_path path
    then record b { infra = b.infra + 1 }
    else if is_doc_path path
    then record b { docs = b.docs + 1 }
    else if is_test_path path
    then record b { tests = b.tests + 1 }
    else if is_config_path path
    then record b { config = b.config + 1 }
    else record b { source = b.source + 1 }

unfoldable pub count_files : List ChangedFile → FileBreakdown → FileBreakdown
unfolding count_file
count_files [] b = b
count_files (file ∷ files) b = count_files files (count_file file b)

-- `classifyFiles`
unfoldable pub classify_files : List ChangedFile → FileBreakdown
unfolding count_files
classify_files files = count_files files no_files
