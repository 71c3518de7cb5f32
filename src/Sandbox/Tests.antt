-- ===== src/Sandbox/Tests.antt =====
-- A site of two files, one patch, and paths that a sandbox refuses.
use ryvix.Common.{
  ℕ, ◌≤◌, ◌≡◌, ◌≢◌, refl, true, false, none, some, List, [], ◌∷◌, ◌++◌, length, keep, map, All,
}
use ryvix.Common.Text.{Text, text, split}
use ryvix.Sandbox.Paths.{ascii_lower, file_path, static_path}
use ryvix.Sandbox.Paths.Safe.{walk, file_path-walk, static_path-file_path}
use ryvix.Sandbox.Policy.{
  Entry, modify, delete, is_file, total, has_index, valid_tree, valid_changes, IsSmall,
  valid_tree-All, byte_length,
}
use ryvix.Sandbox.Diff.{
  ChangedFile, measured_file_diff, marked, after_hunk, measured_file_diff-marked,
}

abbrev lower : Text → Text
lower = map ascii_lower

escapes_refused : file_path lower (text "src/../../etc/passwd") ≡ none
unfolding file_path
escapes_refused = refl

git_refused : file_path lower (text "docs/.GIT/config") ≡ none
unfolding file_path
git_refused = refl

no_extension : static_path (text "site/build.sh") ≡ false
unfolding static_path
no_extension = refl

file_path-walk_example :
    (walk [] (split b'/' (text "/workspace/src/a.ts"))
      ≡ text "workspace" ∷ split b'/' (text "src/a.ts"))
    × All (λ part. lower part ≢ text ".git") (split b'/' (text "src/a.ts"))
file_path-walk_example =
    file_path-walk lower (text "src/a.ts") (text "/workspace/src/a.ts") (unfold file_path in refl)

static_path-file_path_example :
    file_path lower (text "css/Main.CSS") ≡ some (text "/workspace/" ++ text "css/Main.CSS")
static_path-file_path_example =
    static_path-file_path lower (λ s h. refl) (text "css/Main.CSS") (unfold static_path in refl)

abbrev blob : Text → ℕ → Entry
blob path size = record { path = path; type = text "blob"; mode = text "100644"; size = some size }

abbrev site : List Entry
site =
    record { path = text "css"; type = text "tree"; mode = text "040000"; size = none }
    ∷ blob (text "index.html") 120
    ∷ blob (text "css/main.css") 32768
    ∷ []

valid_tree-All_example :
    (length (keep is_file site) ≤ 64)
    × (total (keep is_file site) ≤ 262144)
    × (has_index (keep is_file site) ≡ true)
    × All IsSmall (keep is_file site)
valid_tree-All_example = valid_tree-All site (unfold valid_tree in refl)

index_stays :
    valid_changes (record { path = text "index.html"; action = delete; content = none } ∷ [])
    ≡ false
unfolding valid_changes
index_stays = refl

surrogates : byte_length (55357 ∷ 56832 ∷ 233 ∷ []) ≡ 6
unfolding byte_length
surrogates = refl

abbrev patch : Text
patch =
    text "diff --git a/x b/x"
    ++ (10 ∷ text "--- a/x")
    ++ (10 ∷ text "+++ b/x")
    ++ (10 ∷ text "@@ -1 +1,2 @@")
    ++ (10 ∷ text "-old")
    ++ (10 ∷ text "+new")
    ++ (10 ∷ text "+more")

abbrev measured : ChangedFile
measured = record {
  filename = text "x";
  action = modify;
  content = some (text "new");
  diff = patch;
  additions = 2;
  deletions = 1;
}

measured_file_diff-marked_example :
    (2 ≡ marked (text "+") (after_hunk (split 10 patch)))
    × (1 ≡ marked (text "-") (after_hunk (split 10 patch)))
measured_file_diff-marked_example =
    measured_file_diff-marked lower (text "x") patch (some (text "new")) modify measured
      (unfold measured_file_diff in refl)
