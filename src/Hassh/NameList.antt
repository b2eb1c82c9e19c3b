-- ===== src/Hassh/NameList.antt =====
-- pkg/hassh/hassh.go: `parseNameList`. An error comes with the offset that is returned beside it.
pub mod Totality
pub mod RoundTrip
use hassh.Common.{
  ℕ, ◌+◌, ◌-◌, List, [], ltb, leb, ◌==◌, if◌then◌else◌, length, Result, ok, ◌>>=◌, ◌>>◌, guard,
  map_err, recover, slice, be_uint32, drop,
}
use hassh.Text.{Bytes, split}
use hassh.Hassh.Names.{
  Sentinel, too_many_algorithms, name_list_too_large, buffer_too_short, panicked,
  max_name_list_length, max_algorithm_count, sanitize_algorithm_names,
}

abbrev pub NameListResult : Type 0
NameListResult = Result (Sentinel × ℕ) (List Bytes × ℕ)

-- The names of a list that is not empty: from the copy of its bytes to the sanitised names.
unfoldable pub names_of : Bytes → ℕ → NameListResult
names_of name_list offset = do
  let names = split name_list b','
  guard (leb (length names) max_algorithm_count) (too_many_algorithms, offset)
  sanitized ← map_err (λ e. (e, offset)) (sanitize_algorithm_names names)
  ok (sanitized, offset)

-- From the length field on, behind `offset += 4`.
unfoldable pub read_names : Bytes → ℕ → ℕ → NameListResult
unfolding names_of
read_names buf list_len offset = do
  guard (leb list_len max_name_list_length) (name_list_too_large, offset)
  guard (leb list_len (length buf - offset)) (buffer_too_short, offset)
  if list_len == 0
      then ok ([], offset)
      else do copied ← slice buf offset (offset + list_len); names_of copied (offset + list_len)

-- The body, without the deferred recovery. `data[offset:]` is a slice up to the length.
unfoldable pub parse_name_list_body : Bytes → ℕ → NameListResult
unfolding read_names
parse_name_list_body buf offset = do
  guard (ltb offset (length buf)) (buffer_too_short, offset)
  guard (leb (offset + 4) (length buf)) (buffer_too_short, offset)
  field ← slice buf offset (length buf)
  list_len ← be_uint32 field
  read_names buf list_len (offset + 4)

-- The offset is an `int` that every caller passes non-negative: `offset < 0` is never true here.
-- A recovered panic is reported at the offset that was passed in.
unfoldable pub parse_name_list : Bytes → ℕ → NameListResult
unfolding parse_name_list_body
parse_name_list buf offset = recover (panicked, offset) (parse_name_list_body buf offset)
