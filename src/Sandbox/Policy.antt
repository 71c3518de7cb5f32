-- ===== src/Sandbox/Policy.antt =====
-- The policy of the static mode: `validateStaticTree` and `validateStaticChanges` of
-- services/src/workspace/static-policy.ts. A size is `none` where it is missing, fractional or
-- negative, which the code refuses alike; content is `none` where it is no string.
use ryvix.Common.{
  ℕ, ◌+◌, ◌≤◌, ◌≡◌, Bool, true, false, not, ◌&&◌, ◌||◌, Option, none, some, List, [], ◌∷◌, ◌==◌,
  ltb, leb, if◌then◌else◌, length, any, all, keep, holds, All, arith, Option-cases, inl, inr,
}
use ryvix.Common.Text.{Text, text, same_text, has_char}
use ryvix.Sandbox.Paths.{static_path}

pub record Entry : Type 0 where
  pub path : Text
  pub type : Text
  pub mode : Text
  pub size : Option ℕ

-- `entry.type !== 'tree'`
abbrev pub is_file : Entry → Bool
is_file e = not (same_text e.type (text "tree"))

abbrev pub max_size : ℕ
max_size = 32768

-- The negation of the guard in the loop.
unfoldable pub is_small_file : Entry → Bool
unfolding same_text static_path
is_small_file e =
    same_text e.type (text "blob")
    && same_text e.mode (text "100644")
    && static_path e.path
    && holds (λ n. leb n max_size) e.size

abbrev pub bytes : Option ℕ → ℕ
bytes none = 0
bytes (some n) = n

unfoldable pub total : List Entry → ℕ
total [] = 0
total (e ∷ es) = bytes e.size + total es

unfoldable pub has_index : List Entry → Bool
unfolding same_text
has_index = any (λ e. same_text e.path (text "index.html"))

-- `validateStaticTree`: whether it returns. The first test that fails throws.
unfoldable pub valid_tree : List Entry → Bool
unfolding is_small_file total has_index
valid_tree entries =
    let files = keep is_file entries in
    if length files == 0 || ltb 64 (length files) || not (has_index files)
    then false
    else if all is_small_file files
    then not (ltb 262144 (total files))
    else false

pub data Action : Type 0 where
  create modify delete : Action

abbrev pub is_delete : Action → Bool
is_delete delete = true
is_delete _ = false

pub record Change : Type 0 where
  pub path : Text
  pub action : Action
  pub content : Option Text

-- `Buffer.byteLength` in UTF-8: a pair of surrogates takes four bytes, any other unit that is not
-- ASCII two or three.
unfoldable pub byte_length : Text → ℕ
byte_length [] = 0
byte_length (c ∷ []) = if ltb c 128 then 1 else if ltb c 2048 then 2 else 3
byte_length (c ∷ d ∷ cs) =
    let rest = byte_length cs in
    let next = byte_length (d ∷ cs) in
    if leb 55296 c && ltb c 56320 && leb 56320 d && ltb d 57344
    then 4 + rest
    else (if ltb c 128 then 1 else if ltb c 2048 then 2 else 3) + next

-- The negation of the guard in the loop.
unfoldable pub allowed_change : Change → Bool
unfolding same_text static_path byte_length
allowed_change c =
    static_path c.path
    && not (same_text c.path (text "index.html") && is_delete c.action)
    && (is_delete c.action
        || holds (λ s. leb (byte_length s) max_size && not (has_char 0 s)) c.content)

-- `validateStaticChanges`: whether it returns.
unfoldable pub valid_changes : List Change → Bool
unfolding allowed_change
valid_changes = all allowed_change

-- What a checked tree holds to: its files are few and small together, and each is small and has a
-- name that the policy accepts.
abbrev pub IsSmall : Entry → Type 0
IsSmall e = (static_path e.path ≡ true) × ((n : ℕ) × (e.size ≡ some n) × (n ≤ max_size))

is_small_file-IsSmall : (e : Entry) → is_small_file e ≡ true → IsSmall e
unfolding is_small_file
is_small_file-IsSmall e h = elim (Option-cases e.size) [
  | inl none_eq ↦
      let fits : holds (λ n. leb n max_size) e.size ≡ true = ground arith in
      absurd (cc (rw (none_eq, holds) at fits))
  | inr (n, some_eq) ↦
      let fits : holds (λ n. leb n max_size) e.size ≡ true = ground arith in
      let small : leb n max_size ≡ true = rw (some_eq, holds) at fits in
      (ground arith, (n, some_eq, ground arith))
]

IsSmall-files : (es : List Entry) → all is_small_file es ≡ true → All IsSmall es
IsSmall-files [] h = tt
IsSmall-files (e ∷ es) h = (is_small_file-IsSmall e (ground arith), IsSmall-files es (ground arith))

-- A tree that is accepted has at most 64 files, of at most 256 KiB together, with an index page
-- among them; each has a name of the static policy and at most 32 KiB.
pub valid_tree-All :
    (entries : List Entry)
    → valid_tree entries ≡ true
    → (length (keep is_file entries) ≤ 64)
      × (total (keep is_file entries) ≤ 262144)
      × (has_index (keep is_file entries) ≡ true)
      × All IsSmall (keep is_file entries)
unfolding valid_tree
valid_tree-All entries h =
    let few : length (keep is_file entries) ≤ 64 = ground arith in
    let small : total (keep is_file entries) ≤ 262144 = ground arith in
    let index : has_index (keep is_file entries) ≡ true = ground arith in
    let files : all is_small_file (keep is_file entries) ≡ true = ground arith in
    (few, small, index, IsSmall-files (keep is_file entries) files)
