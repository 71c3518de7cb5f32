-- ===== src/Sandbox/Diff.antt =====
-- Which lines of a patch count: `measuredFileDiff` of services/src/workspace/task-artifacts.ts. The
-- parameter `lower` is `toLowerCase`.
use ryvix.Common.{
  ℕ, suc, ◌+◌, ◌≡◌, refl, Bool, true, false, not, ◌&&◌, ◌||◌, Option, none, some, List, [], ◌∷◌,
  ltb, if◌then◌else◌, any, is_some, arith, Bool-cases, inl, inr,
}
use ryvix.Common.Text.{Text, text, same_text, starts_with, includes, has_char, split}
use ryvix.Sandbox.Paths.{is_bad_part}
use ryvix.Sandbox.Policy.{Action, is_delete}

pub record ChangedFile : Type 0 where
  pub filename : Text
  pub action : Action
  pub content : Option Text
  pub diff : Text
  pub additions : ℕ
  pub deletions : ℕ

-- The loop over the lines: the state is whether a hunk was entered, and both counters.
unfoldable pub measure : Bool → ℕ → ℕ → List Text → ℕ × ℕ
unfolding starts_with
measure in_hunk additions deletions [] = (additions, deletions)
measure in_hunk additions deletions (line ∷ lines) =
    if starts_with line (text "@@ ")
    then measure true additions deletions lines
    else if in_hunk
    then measure in_hunk (if starts_with line (text "+") then suc additions else additions)
        (if starts_with line (text "-") then suc deletions else deletions) lines
    else measure in_hunk additions deletions lines

module _ (lower : Text → Text) where
  unfoldable pub is_bad_filename : Text → Bool
  unfolding same_text starts_with split is_bad_part
  is_bad_filename filename =
      same_text filename []
      || starts_with filename (text "/")
      || has_char b'\\' filename
      || any (λ c. ltb c 32) filename
      || any (is_bad_part lower) (split b'/' filename)

  -- `measuredFileDiff`, which throws where there is no value.
  unfoldable pub measured_file_diff : Text → Text → Option Text → Action → Option ChangedFile
  unfolding is_bad_filename starts_with includes split measure
  measured_file_diff filename diff content action =
      if is_bad_filename filename
      then none
      else if not (starts_with diff (text "diff --git ") && includes diff (10 ∷ text "@@ "))
      then none
      else if not (is_delete action) && not (is_some content)
      then none
      else let (additions, deletions) = measure false 0 0 (split 10 diff) in
        some (record {
          filename = filename;
          action = action;
          content = if is_delete action then none else content;
          diff = diff;
          additions = additions;
          deletions = deletions;
        })

-- The lines behind the first header of a hunk.
unfoldable pub after_hunk : List Text → List Text
unfolding starts_with
after_hunk [] = []
after_hunk (line ∷ lines) = if starts_with line (text "@@ ") then lines else after_hunk lines

-- How many lines start with a sign.
unfoldable pub marked : Text → List Text → ℕ
unfolding starts_with
marked sign [] = 0
marked sign (line ∷ lines) =
    let rest = marked sign lines in if starts_with line sign then suc rest else rest

hunk_line :
    (line : Text)
    → starts_with line (text "@@ ") ≡ true
    → (starts_with line (text "+") ≡ false) × (starts_with line (text "-") ≡ false)
unfolding starts_with
hunk_line [] h = absurd (ground arith)
hunk_line (c ∷ cs) h = (ground arith, ground arith)

bump : (b : Bool) (a n : ℕ) → (if b then suc a else a) + n ≡ a + (if b then suc n else n)
bump b a n = ground arith

plus_zero : (a : ℕ) → a + 0 ≡ a
plus_zero a = omega arith

measure-hunk :
    (a d : ℕ) (lines : List Text)
    → measure true a d lines ≡ (a + marked (text "+") lines, d + marked (text "-") lines)
unfolding measure marked
measure-hunk a d [] = rw (plus_zero a, plus_zero d) refl
measure-hunk a d (line ∷ lines) =
    let plus = starts_with line (text "+") in
    let minus = starts_with line (text "-") in
    elim (Bool-cases (starts_with line (text "@@ "))) [
      | inl e ↦ let signs = hunk_line line e in rw (e, signs.0, signs.1) (measure-hunk a d lines)
      | inr e ↦
          rw (e, ← bump plus a (marked (text "+") lines), ← bump minus d (marked (text "-") lines))
            (measure-hunk (if plus then suc a else a) (if minus then suc d else d) lines)
    ]

measure-marked :
    (lines : List Text)
    → measure false 0 0 lines
      ≡ (marked (text "+") (after_hunk lines), marked (text "-") (after_hunk lines))
unfolding measure after_hunk marked
measure-marked [] = refl
measure-marked (line ∷ lines) = elim (Bool-cases (starts_with line (text "@@ "))) [
  | inl e ↦
      let plus : 0 + marked (text "+") lines ≡ marked (text "+") lines = omega arith in
      let minus : 0 + marked (text "-") lines ≡ marked (text "-") lines = omega arith in
      rw (e) (rw (plus, minus) at (measure-hunk 0 0 lines))
  | inr e ↦ rw (e) (measure-marked lines)
]

-- The additions and deletions of an accepted patch are the lines with either sign behind the first
-- header of a hunk.
pub measured_file_diff-marked :
    (lower : Text → Text) (filename diff : Text) (content : Option Text) (action : Action)
    (file : ChangedFile)
    → measured_file_diff lower filename diff content action ≡ some file
    → (file.additions ≡ marked (text "+") (after_hunk (split 10 diff)))
      × (file.deletions ≡ marked (text "-") (after_hunk (split 10 diff)))
unfolding measured_file_diff
measured_file_diff-marked lower filename diff content action file h =
    let lines = measure-marked (split 10 diff) in
    let patch = starts_with diff (text "diff --git ") && includes diff (10 ∷ text "@@ ") in
    let missing = not (is_delete action) && not (is_some content) in
    elim (Bool-cases (is_bad_filename lower filename)) [
      | inl e ↦ absurd (cc (rw (e) at h))
      | inr e ↦ elim (Bool-cases (not patch)) [
        | inl p ↦ absurd (cc (rw (e, p) at h))
        | inr p ↦ elim (Bool-cases missing) [
          | inl m ↦ absurd (cc (rw (e, p, m) at h))
          | inr m ↦ let k = rw (e, p, m, lines) at h in (cc k, cc k)
        ]
      ]
    ]
