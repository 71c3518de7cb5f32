-- ===== src/Sandbox/Paths/Safe.antt =====
-- Where the paths lead that `filePath` accepts (services/src/workspace/docker-workspace.manager.ts),
-- and how it relates to `staticPath` (services/src/workspace/static-policy.ts).
use ryvix.Common.{
  ℕ, ◌≡◌, refl, sym, ◌∙◌, Bool, true, false, ◌||◌, some, List, [], ◌∷◌, ◌++◌, ◌==◌, if◌then◌else◌,
  any, all, All, ◌≢◌, map, append-nil, append_assoc, arith, Bool-cases, inl, inr, ltb,
}
use ryvix.Common.Text.{Text, text, same_text, starts_with, split, prepend}
use ryvix.Sandbox.Paths.{
  has_drive, is_bad_part, is_bad_path, file_path, is_name_char, is_static_part, ascii_lower,
  static_path,
}

abbrev parent : List Text → List Text
parent [] = []
parent (x ∷ []) = []
parent (x ∷ y ∷ ys) = x ∷ parent (y ∷ ys)

-- The walk of a path from the root: `..` goes up, and `.` and the empty name stay.
unfoldable pub walk : List Text → List Text → List Text
unfolding same_text
walk at [] = at
walk at (name ∷ names) =
    if same_text name [] || same_text name (text ".")
    then walk at names
    else if same_text name (text "..")
    then walk (parent at) names
    else walk (at ++ (name ∷ [])) names

module _ (lower : Text → Text) where
  walk_down :
      (at parts : List Text) → any (is_bad_part lower) parts ≡ false → walk at parts ≡ at ++ parts
  unfolding walk is_bad_part
  walk_down at [] h = sym (append-nil at)
  walk_down at (name ∷ names) h =
      let empty : same_text name [] ≡ false = ground arith in
      let dot : same_text name (text ".") ≡ false = ground arith in
      let dots : same_text name (text "..") ≡ false = ground arith in
      rw (empty, dot, dots)
        (walk_down (at ++ (name ∷ [])) names (ground arith) ∙ append_assoc at (name ∷ []) names)

  not_git :
      (parts : List Text)
      → any (is_bad_part lower) parts ≡ false
      → All (λ part. lower part ≢ text ".git") parts
  unfolding is_bad_part
  not_git [] h = tt
  not_git (name ∷ names) h = (
    λ same.
        let git : same_text (lower name) (text ".git") ≡ true =
          rw (same) (unfold same_text in refl) in
        absurd (ground arith),
    not_git names (ground arith),
  )

  -- The target of an accepted path, walked from the root, is the workspace and then the path's own
  -- parts, none of which is `.git` in lower case.
  pub file_path-walk :
      (value target : Text)
      → file_path lower value ≡ some target
      → (walk [] (split b'/' target) ≡ text "workspace" ∷ split b'/' value)
        × All (λ part. lower part ≢ text ".git") (split b'/' value)
  unfolding file_path is_bad_path split walk
  file_path-walk value target h = elim (Bool-cases (is_bad_path lower value)) [
    | inl e ↦ absurd (cc (rw (e, file_path) at h))
    | inr e ↦
        let t : text "/workspace/" ++ value ≡ target = cc (rw (e, file_path) at h) in
        (
          rw (← t) (walk_down (text "workspace" ∷ []) (split b'/' value) (ground arith)),
          not_git (split b'/' value) (ground arith),
        )
  ]

-- The characters of a path whose parts are names.
abbrev is_path_char : ℕ → Bool
is_path_char c = c == b'/' || is_name_char c

names-all : (part : Text) → is_static_part part ≡ true → all is_name_char part ≡ true
unfolding is_static_part
names-all [] h = refl
names-all (c ∷ cs) h = ground arith

chars-prepend :
    (c : ℕ) (parts : List Text)
    → all (all is_name_char) (prepend c parts) ≡ true
    → (is_name_char c ≡ true) × (all (all is_name_char) parts ≡ true)
chars-prepend c [] h = (ground arith, refl)
chars-prepend c (part ∷ parts) h = (ground arith, ground arith)

chars-split : (s : Text) → all (all is_name_char) (split b'/' s) ≡ true → all is_path_char s ≡ true
unfolding split
chars-split [] h = refl
chars-split (c ∷ cs) h = elim (Bool-cases (c == b'/')) [
  | inl e ↦ let rest = chars-split cs (ground arith) in ground arith
  | inr e ↦
      let (first, later) = chars-prepend c (split b'/' cs) (rw (e) at h) in
      let rest = chars-split cs later in ground arith
]

static_names :
    (parts : List Text) → all is_static_part parts ≡ true → all (all is_name_char) parts ≡ true
static_names [] h = refl
static_names (p ∷ ps) h =
    let first = names-all p (ground arith) in
    let rest = static_names ps (ground arith) in ground arith

-- Lower case as the runtime does it on ASCII text.
abbrev pub LowersAscii : (Text → Text) → Type 0
LowersAscii lower = (s : Text) → all (λ c. ltb c 128) s ≡ true → lower s ≡ map ascii_lower s

any-is_false :
    (p q : ℕ → Bool) (s : Text)
    → ((c : ℕ) → p c ≡ true → q c ≡ false)
    → all p s ≡ true
    → any q s ≡ false
any-is_false p q [] h k = refl
any-is_false p q (c ∷ s) h k = ground (arith, any-is_false p q s h, h c)

names-ascii : (s : Text) → all is_name_char s ≡ true → all (λ c. ltb c 128) s ≡ true
names-ascii [] h = refl
names-ascii (c ∷ s) h = let rest = names-ascii s (ground arith) in ground arith

module _ (lower : Text → Text) (lowers : LowersAscii lower) where
  static_part-good : (part : Text) → is_static_part part ≡ true → is_bad_part lower part ≡ false
  unfolding is_static_part is_bad_part same_text
  static_part-good [] h = absurd (ground arith)
  static_part-good (c ∷ cs) h =
      let names = names-all (c ∷ cs) h in
      rw (lowers (c ∷ cs) (names-ascii (c ∷ cs) names)) (ground arith)

  static_parts-good :
      (parts : List Text) → all is_static_part parts ≡ true → any (is_bad_part lower) parts ≡ false
  static_parts-good [] h = refl
  static_parts-good (part ∷ parts) h =
      let first = static_part-good part (ground arith) in
      let rest = static_parts-good parts (ground arith) in rw (first, rest) refl

no_root : (p : Text) → all is_static_part (split b'/' p) ≡ true → starts_with p (text "/") ≡ false
unfolding split starts_with is_static_part
no_root [] h = refl
no_root (c ∷ cs) h = elim (Bool-cases (c == b'/')) [
  | inl e ↦ absurd (cc (rw (e) at h))
  | inr e ↦ rw (e) refl
]

no_drive : (p : Text) → all is_path_char p ≡ true → has_drive p ≡ false
unfolding has_drive
no_drive [] h = refl
no_drive (c ∷ []) h = refl
no_drive (c ∷ d ∷ cs) h = ground arith

not_empty : (p : Text) → all is_static_part (split b'/' p) ≡ true → same_text p [] ≡ false
unfolding split same_text is_static_part
not_empty [] h = absurd (cc h)
not_empty (c ∷ cs) h = refl

-- A sandbox whose `toLowerCase` is right on ASCII accepts every path that the static policy
-- accepts, and places it below /workspace.
pub static_path-file_path :
    (lower : Text → Text)
    → LowersAscii lower
    → (path : Text) → static_path path ≡ true
    → file_path lower path ≡ some (text "/workspace/" ++ path)
unfolding static_path file_path is_bad_path
static_path-file_path lower lowers path h =
    let parts : all is_static_part (split b'/' path) ≡ true = ground arith in
    let chars = chars-split path (static_names (split b'/' path) parts) in
    let slash = any-is_false is_path_char (λ d. d == b'\\') path (λ c k. ground arith) chars in
    let nul = any-is_false is_path_char (λ d. d == 0) path (λ c k. ground arith) chars in
    rw
      (
        not_empty path parts,
        no_root path parts,
        slash,
        nul,
        no_drive path chars,
        static_parts-good lower lowers (split b'/' path) parts,
      )
      refl
