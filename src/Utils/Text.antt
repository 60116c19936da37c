-- ===== src/Utils/Text.antt =====
-- Trim and StrToBool of utils/utils.h, and what they use of the C library.
pub mod Trimmed
pub mod Numbers
use my_ycsb_cpp.Prelude.{
  ℕ, ◌+◌, ◌≤◌, Bool, true, false, ◌&&◌, ◌||◌, List, [], ◌∷◌, ◌++◌, map, reverse, leb, ◌==◌,
  if◌then◌else◌,
}
use my_ycsb_cpp.Prelude.Bytes.{Bytes, lit, bytes_eq}
use my_ycsb_cpp.Prelude.Result.{Result, ok, err, exception}

-- std::isspace in the C locale: the space and the bytes from tab to carriage return.
unfoldable pub is_space : ℕ → Bool
is_space c = (c == 32) || (leb 9 c && leb c 13)

unfoldable pub skip_spaces : Bytes → Bytes
unfolding is_space
skip_spaces [] = []
skip_spaces (c ∷ s) = if is_space c then skip_spaces s else c ∷ s

-- The reverse search stops at `front`, so it runs on what the first search left.
unfoldable pub trim : Bytes → Bytes
unfolding skip_spaces
trim str = reverse (skip_spaces (reverse (skip_spaces str)))

-- ::tolower in the C locale
unfoldable pub tolower : ℕ → ℕ
tolower c = if leb b'A' c && leb c b'Z' then c + 32 else c

unfoldable pub str_to_bool : Bytes → Result Bool
unfolding tolower bytes_eq
str_to_bool str =
    let low = map tolower str in
    if bytes_eq low (lit "true") || bytes_eq low (lit "1")
    then ok true
    else if bytes_eq low (lit "false") || bytes_eq low (lit "0")
    then ok false
    else err (exception (lit "Invalid bool string: " ++ low))
