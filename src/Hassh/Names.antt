-- ===== src/Hassh/Names.antt =====
-- pkg/hassh/hassh.go: the limits, the sentinel errors, `isValidAlgorithmName` and
-- `sanitizeAlgorithmNames`.
pub mod Valid
pub mod Sanitized
use hassh.Common.{
  ℕ, ◌+◌, ◌*◌, Bool, true, false, not, ◌||◌, List, [], ◌∷◌, ◌++◌, ltb, ◌==◌, if◌then◌else◌, length,
  Result, ok, err,
}
use hassh.Text.{Bytes, is_empty, trim_space}

abbrev pub max_payload_size : ℕ
max_payload_size = 16 * 1024

abbrev pub max_name_list_length : ℕ
max_name_list_length = max_payload_size

abbrev pub max_algorithm_count : ℕ
max_algorithm_count = 1000

abbrev pub max_algorithm_name_length : ℕ
max_algorithm_name_length = 128

abbrev pub max_total_algorithms : ℕ
max_total_algorithms = 5000

abbrev pub ssh_msg_kex_init : ℕ
ssh_msg_kex_init = 20

-- The sentinel errors; the texts wrapped around them are left out.
pub data Sentinel : Type 0 where
  invalid_algorithm_name : Sentinel
  too_many_algorithms : Sentinel
  name_list_too_large : Sentinel
  buffer_too_short : Sentinel
  invalid_packet : Sentinel
  panicked : Sentinel

-- The loop over all bytes, which never returns early.
scan_name : Bool → Bytes → Bool
scan_name valid [] = valid
scan_name valid (c ∷ name) =
    scan_name (if ltb c 33 || ltb 126 c || c == 44 then false else valid) name

unfoldable pub is_valid_algorithm_name : Bytes → Bool
unfolding scan_name
is_valid_algorithm_name name =
    if is_empty name || ltb max_algorithm_name_length (length name)
    then false
    else scan_name true name

-- The first loop: the names that are not blank.
unfoldable pub count_names : ℕ → List Bytes → ℕ
count_names valid_count [] = valid_count
count_names valid_count (name ∷ names) =
    count_names (if is_empty (trim_space name) then valid_count else valid_count + 1) names

-- The second loop: blank names are skipped, an invalid one ends it.
sanitize_from : List Bytes → List Bytes → Result Sentinel (List Bytes)
sanitize_from result [] = ok result
sanitize_from result (name ∷ names) =
    let trimmed = trim_space name in
    let skip = sanitize_from result names in
    let keep = sanitize_from (result ++ trimmed ∷ []) names in
    if is_empty trimmed
    then skip
    else if not (is_valid_algorithm_name trimmed)
    then err invalid_algorithm_name
    else keep

-- An empty list takes the first return; the loop gives it the same result.
unfoldable pub sanitize_algorithm_names : List Bytes → Result Sentinel (List Bytes)
unfolding sanitize_from
sanitize_algorithm_names [] = ok []
sanitize_algorithm_names (name ∷ names) = sanitize_from [] (name ∷ names)
