-- ===== src/Ingestion/Workflow/Classify.antt =====
-- `_classify_error` of the workflow: the type of error that a dead-letter row is listed under.
use inherent.Prelude.{ℕ, String, Bool, ◌||◌, List, if◌then◌else◌}
use inherent.Prelude.Text.{codes, lower, contains}

-- `word in lower`
mentions : List ℕ → String → Bool
unfolding contains codes
mentions text word = contains text (codes word)

unfoldable pub classify_error : String → String
unfolding lower mentions
classify_error error_message =
    let text = lower (codes error_message) in
    if mentions text "extract" || mentions text "parse"
    then "extraction_failed"
    else if mentions text "storage" || mentions text "postgresql" || mentions text "weaviate"
    then "storage_failed"
    else if mentions text "timeout" || mentions text "timed out"
    then "timeout"
    else if mentions text "validation" || mentions text "invalid"
    then "validation_failed"
    else if mentions text "fetch" || mentions text "not found" || mentions text "download"
    then "fetch_failed"
    else "unknown"
