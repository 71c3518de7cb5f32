-- ===== src/Workspace/Files.antt =====
-- Files of a workspace: applyDiff, mountFiles, deleteFile, readFile and prepareStaticSnapshot of
-- services/src/workspace/docker-workspace.manager.ts. The parameter `lower` is `toLowerCase`; a
-- write is given its path and its text, and the files of one call are written at one time.
use ryvix.Common.{
  ℕ, ◌+◌, String, Bool, not, ◌||◌, Option, none, some, List, [], ◌∷◌, ◌==◌, ltb, if◌then◌else◌,
  length, map,
}
use ryvix.Common.Text.{Text, text, starts_with}
use ryvix.Common.Effect.{M, return, throw, ◌>>=◌, ◌>>◌}
use ryvix.Sandbox.Paths.{file_path}
use ryvix.Sandbox.Policy.{Change, Action, create, modify, delete, byte_length, valid_changes}
use ryvix.Workspace.Model.{
  WorkspaceSession, write_file, delete_file_at, read_file_at, commit_snapshot, Reply, Config, World,
  Docker, has, add, modify as change_manager, run, checked,
}
use ryvix.Workspace.Commands.{usable_session}

abbrev pub change_of : Text → Action → Option Text → Change
change_of path action content = record { path = path; action = action; content = content }

-- `if (staticWorkspaceMode()) validateStaticChanges([…])`: whether it returns.
abbrev pub passes_policy : Config → Change → Bool
unfolding valid_changes
passes_policy config change = not config.static_mode || valid_changes (change ∷ [])

-- A patch, which is not the full text of a file.
abbrev pub is_patch : Text → Bool
unfolding starts_with
is_patch content = starts_with content (text "diff --git ") || starts_with content (text "--- ")

unfoldable pub sum_bytes : List (Text × Text) → ℕ
unfolding byte_length
sum_bytes [] = 0
sum_bytes ((path, content) ∷ files) = byte_length content + sum_bytes files

module _ (docker : Docker) (lower : Text → Text) (config : Config) where
  -- The write of `applyDiff`, to a path that was accepted.
  unfoldable pub write_at : ℕ → Option Text → Text → M String World ℕ
  unfolding checked byte_length
  write_at id none content = throw "Invalid workspace-relative path"
  write_at id (some target) content =
      checked docker (write_file id target content) >> return (byte_length content)

  -- `applyDiff` in a session that can be used: how many bytes it wrote.
  unfoldable pub apply_in : ℕ → Text → Option Text → M String World ℕ
  unfolding file_path write_at valid_changes starts_with
  apply_in id path content =
      if not (passes_policy config (change_of path modify content))
      then throw "Change exceeds the static-only workspace boundary"
      else elim content [
        | none ↦ throw "Full file content is required"
        | some body ↦
            if is_patch body
            then throw "Unified patches must be resolved to full file contents before writing"
            else write_at id (file_path lower path) body
      ]

  -- `applyDiff`
  unfoldable pub apply_diff : ℕ → ℕ → Text → Option Text → M String World ℕ
  unfolding usable_session apply_in
  apply_diff id now path content =
      usable_session id now >>= (λ (s : WorkspaceSession). apply_in id path content)

  -- `mountFiles`
  unfoldable pub mount_each : ℕ → ℕ → List (Text × Text) → M String World Unit
  unfolding apply_diff
  mount_each id now [] = return tt
  mount_each id now ((path, content) ∷ files) =
      apply_diff id now path (some content) >> mount_each id now files

  unfoldable pub mount_files : ℕ → ℕ → List (Text × Text) → M String World ℕ
  unfolding mount_each
  mount_files id now files = mount_each id now files >> return (length files)

  -- `deleteFile`
  unfoldable pub delete_file : ℕ → ℕ → Text → M String World Unit
  unfolding usable_session file_path checked valid_changes
  delete_file id now path =
      if not (passes_policy config (change_of path delete none))
      then throw "Change exceeds the static-only workspace boundary"
      else usable_session id now >>= (λ (s : WorkspaceSession). elim (file_path lower path) [
        | none ↦ throw "Invalid workspace-relative path"
        | some target ↦ checked docker (delete_file_at id target) >> return tt
      ])

  -- `readFile`
  unfoldable pub read_file : ℕ → ℕ → Text → M String World Text
  unfolding usable_session file_path run
  read_file id now path = usable_session id now >>= (λ (s : WorkspaceSession).
      elim (file_path lower path) [
        | none ↦ throw "Invalid workspace-relative path"
        | some target ↦ run docker (read_file_at id target) >>= (λ (r : Reply).
            if not (r.exit_code == 0)
            then throw "Unable to read workspace file"
            else return r.stdout)
      ])

  -- `prepareStaticSnapshot`
  unfoldable pub prepare_static_snapshot : ℕ → ℕ → List (Text × Text) → M String World Unit
  unfolding mount_files usable_session checked valid_changes byte_length
  prepare_static_snapshot id now files w =
      (if not config.static_mode || has id w.manager.prepared
          then throw "Static snapshot unavailable"
          else if ltb 64 (length files) || ltb 262144 (sum_bytes files)
          then throw "Static snapshot exceeds bounds"
          else if not (valid_changes (map (λ f. change_of f.0 create (some f.1)) files))
          then throw "Change exceeds the static-only workspace boundary"
          else mount_files id now files
            >> usable_session id now
            >> checked docker (commit_snapshot id)
            >> change_manager (λ m. record m { prepared = add id m.prepared }))
        w
