-- ===== src/Workspace/Writes.antt =====
-- What a write into a workspace has passed.
use ryvix.Common.{
  ℕ, ◌≡◌, refl, subst, String, Bool, true, false, not, ◌||◌, Option, none, some, [], ◌∷◌, ◌++◌,
  ◌==◌, if◌then◌else◌, Bool-cases, inl, inr,
}
use ryvix.Common.Text.{Text, text, split}
use ryvix.Common.Effect.{ok, M, return, throw, bind-ok}
use ryvix.Sandbox.Paths.{file_path}
use ryvix.Sandbox.Paths.Safe.{walk, file_path-walk}
use ryvix.Sandbox.Policy.{modify, byte_length}
use ryvix.Workspace.Model.{
  WorkspaceSession, write_file, Call, Reply, Config, World, Docker, run, checked,
}
use ryvix.Workspace.Commands.{usable_session}
use ryvix.Workspace.Files.{change_of, passes_policy, is_patch, write_at, apply_in, apply_diff}
use ryvix.Workspace.Capacity.{run-ok}
use ryvix.Workspace.Execution.{usable_session-ok}

checked-ok :
    (docker : Docker) (c : Call) (w w' : World) (r : Reply)
    → checked docker c w ≡ ok r w'
    → w'.calls ≡ w.calls ++ (c ∷ [])
unfolding checked
checked-ok docker c w w' r h =
    let k : Reply → M String World Reply =
      λ r. if not (r.exit_code == 0) || r.timed_out then throw "Docker failed" else return r in
    let (s, d, ran, rest) = bind-ok (run docker c) k w w' r h in
    let asked = run-ok docker c w d s ran in
    elim (Bool-cases (not (s.exit_code == 0) || s.timed_out)) [
      | inl e ↦ absurd (cc (rw (e) at rest))
      | inr e ↦
          let same : d ≡ w' = cc (rw (e) at rest) in
          subst (λ (x : World). x.calls ≡ w.calls ++ (c ∷ [])) same asked.1
    ]

-- A write of a full text to a target of an accepted path, which the static mode's policy allows.
abbrev pub Wrote : (Text → Text) → Config → ℕ → Text → Option Text → World → World → Type 0
Wrote lower config id path content w w' =
    (body target : Text) × (content ≡ some body)
    × (is_patch body ≡ false)
    × (passes_policy config (change_of path modify content) ≡ true)
    × (file_path lower path ≡ some target)
    × (walk [] (split b'/' target) ≡ text "workspace" ∷ split b'/' path)
    × (w'.calls ≡ w.calls ++ (write_file id target body ∷ []))

not-is_true : (b : Bool) → not b ≡ false → b ≡ true
not-is_true true h = refl
not-is_true false h = absurd (cc h)

module _ (docker : Docker) (lower : Text → Text) (config : Config) where
  write_at-ok :
      (id : ℕ) (target : Option Text) (body : Text) (n : ℕ) (w w' : World)
      → write_at docker lower config id target body w ≡ ok n w'
      → (t : Text) × (target ≡ some t) × (w'.calls ≡ w.calls ++ (write_file id t body ∷ []))
  unfolding write_at
  write_at-ok id none body n w w' h = absurd (cc h)
  write_at-ok id (some t) body n w w' h =
      let k : Reply → M String World ℕ = λ r. return (byte_length body) in
      let (r, d, ran, rest) = bind-ok (checked docker (write_file id t body)) k w w' n h in
      let same : d ≡ w' = cc rest in
      (
        t,
        refl,
        subst (λ (x : World). x.calls ≡ w.calls ++ (write_file id t body ∷ [])) same
            (checked-ok docker (write_file id t body) w d r ran),
      )

  apply_in-ok :
      (id : ℕ) (path : Text) (content : Option Text) (n : ℕ) (w w' : World)
      → apply_in docker lower config id path content w ≡ ok n w'
      → Wrote lower config id path content w w'
  unfolding apply_in
  apply_in-ok id path none n w w' h =
      elim (Bool-cases (not (passes_policy config (change_of path modify none)))) [
        | inl e ↦ absurd (cc (rw (e, apply_in) at h))
        | inr e ↦ absurd (cc (rw (e, apply_in) at h))
      ]
  apply_in-ok id path (some body) n w w' h =
      elim (Bool-cases (not (passes_policy config (change_of path modify (some body))))) [
        | inl e ↦ absurd (cc (rw (e, apply_in) at h))
        | inr e ↦ elim (Bool-cases (is_patch body)) [
          | inl p ↦ absurd (cc (rw (e, p, apply_in) at h))
          | inr p ↦
              let (t, found, calls) =
                write_at-ok id (file_path lower path) body n w w' (rw (e, p, apply_in) at h) in
              (
                body,
                t,
                refl,
                p,
                not-is_true (passes_policy config (change_of path modify (some body))) e,
                found,
                (file_path-walk lower path t found).0,
                calls,
              )
        ]
      ]

  -- A write that returns has made one call of Docker: it writes the full text, which is no patch,
  -- to the target of an accepted path, which, walked from the root, lies below the workspace; in the
  -- static mode the change has passed its policy.
  pub apply_diff-Wrote :
      (id now : ℕ) (path : Text) (content : Option Text) (n : ℕ) (w w' : World)
      → apply_diff docker lower config id now path content w ≡ ok n w'
      → Wrote lower config id path content w w'
  unfolding apply_diff
  apply_diff-Wrote id now path content n w w' h =
      let k : WorkspaceSession → M String World ℕ =
        λ s. apply_in docker lower config id path content in
      let (s, d, used, rest) = bind-ok (usable_session id now) k w w' n h in
      let (same, found, live) = usable_session-ok id now w d s used in
      subst (λ x. Wrote lower config id path content x w') same
        (apply_in-ok id path content n d w' rest)
