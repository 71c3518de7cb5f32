-- ===== src/Sandbox/Paths.antt =====
-- Which names of files a sandbox accepts: `filePath` of
-- services/src/workspace/docker-workspace.manager.ts and `staticPath` of
-- services/src/workspace/static-policy.ts. The parameter `lower` is `toLowerCase`, whose table for
-- all of Unicode belongs to the runtime.
pub mod Safe
use ryvix.Common.{
  ℕ, ◌+◌, ◌≡◌, Bool, true, false, not, ◌&&◌, ◌||◌, Option, none, some, List, [], ◌∷◌, ◌++◌, ◌==◌,
  ltb, leb, if◌then◌else◌, length, any, all, map,
}
use ryvix.Common.Text.{Text, text, same_text, starts_with, has_char, split}

abbrev pub is_letter : ℕ → Bool
is_letter c = (leb b'a' c && leb c b'z') || (leb b'A' c && leb c b'Z')

abbrev pub is_digit : ℕ → Bool
is_digit c = leb b'0' c && leb c b'9'

-- `/^[A-Za-z]:/`
unfoldable pub has_drive : Text → Bool
has_drive (c ∷ d ∷ cs) = is_letter c && d == b':'
has_drive _ = false

module _ (lower : Text → Text) where
  -- `!part || part === '..' || part === '.' || part.toLowerCase() === '.git'`
  unfoldable pub is_bad_part : Text → Bool
  unfolding same_text
  is_bad_part part =
      same_text part []
      || same_text part (text "..")
      || same_text part (text ".")
      || same_text (lower part) (text ".git")

  unfoldable pub is_bad_path : Text → Bool
  unfolding is_bad_part has_drive starts_with split
  is_bad_path value =
      same_text value []
      || starts_with value (text "/")
      || has_char b'\\' value
      || has_char 0 value
      || any is_bad_part (split b'/' value)
      || has_drive value

  -- `filePath`, which throws at a bad path
  unfoldable pub file_path : Text → Option Text
  unfolding is_bad_path
  file_path value = if is_bad_path value then none else some (text "/workspace/" ++ value)

-- `[a-zA-Z0-9_.-]`
abbrev pub is_name_char : ℕ → Bool
is_name_char c = is_letter c || is_digit c || c == b'_' || c == b'.' || c == b'-'

-- `/^[a-zA-Z0-9][a-zA-Z0-9_.-]*$/`
unfoldable pub is_static_part : Text → Bool
is_static_part [] = false
is_static_part (c ∷ cs) = (is_letter c || is_digit c) && all is_name_char cs

abbrev pub ascii_lower : ℕ → ℕ
ascii_lower c = if leb b'A' c && leb c b'Z' then c + 32 else c

-- A suffix of the text, in any case: the end of a pattern with the flag `i`.
unfoldable pub ends_with : Text → Text → Bool
unfolding same_text
ends_with [] p = same_text [] p
ends_with (c ∷ cs) p = same_text (map ascii_lower (c ∷ cs)) p || ends_with cs p

-- `/\.(html|css|js|txt|md)$/i`
abbrev pub has_extension : Text → Bool
has_extension s =
    ends_with s (text ".html")
    || ends_with s (text ".css")
    || ends_with s (text ".js")
    || ends_with s (text ".txt")
    || ends_with s (text ".md")

-- `staticPath`
unfoldable pub static_path : Text → Bool
unfolding is_static_part ends_with split same_text
static_path path =
    leb (length path) 180
    && leb (length (split b'/' path)) 13
    && all is_static_part (split b'/' path)
    && (has_extension path || same_text path (text "LICENSE"))
