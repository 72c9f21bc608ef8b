-- ===== src/Cli/Diff.antt =====
-- `runDiff` and `runCompletion` of internal/cli/cli.go, behind their flags. Opening files and encoding
-- JSON are arguments, and so is the error of a write to the standard output, which is not looked at.
use ctscan.Base.{
  ℕ, Bool, true, ◌&&◌, ◌||◌, List, [], ◌∷◌, ◌++◌, Outcome, ok, err, if◌then◌else◌, ◌==◌, text_eq,
  texts_eq, nat_eq, Bytes, codes, map, length, ltb, ◌≡◌, ◌≢◌, ◌↔◌, refl, arith,
}
use ctscan.Base.Text.{to_upper}
use ctscan.Snapshot.Changes.{Change, Snapshot, diff}

-- `[%s] %s %s: %s`
unfoldable pub change_line : Change → Bytes
unfolding to_upper
change_line c =
    codes "["
    ++ (to_upper c.severity
        ++ (codes "] " ++ (c.identity ++ (codes " " ++ (c.kind ++ (codes ": " ++ c.detail))))))

-- The code that the command ends with, and the lines before it.
encoded : Outcome Bytes Bytes → ℕ × List Bytes → ℕ × List Bytes
encoded (err e) later = (1, [])
encoded (ok line) (code, lines) = (code, line ∷ lines)

unfoldable pub exit_for : Bool → List Change → ℕ
exit_for fail_on_change changes = if fail_on_change && ltb 0 (length changes) then 3 else 0

module _ (encode : Change → Outcome Bytes Bytes) where
  unfoldable pub print_changes : Bytes → ℕ → List Change → ℕ × List Bytes
  unfolding encoded change_line
  print_changes format code [] = (code, [])
  print_changes format code (c ∷ cs) =
      let rest = print_changes format code cs in
      if format == codes "json" || format == codes "jsonl"
      then encoded (encode c) rest
      else if format == codes "text"
      then (rest.0, change_line c ∷ rest.1)
      else (2, [])

  -- The two snapshots that were read.
  unfoldable pub run_diff : Bool → Bytes → Snapshot → Snapshot → ℕ × List Bytes
  unfolding print_changes exit_for diff
  run_diff fail_on_change format before after =
      let changes = diff before after in
      print_changes format (exit_for fail_on_change changes) changes

  print_changes-text :
      (code : ℕ) (cs : List Change)
      → print_changes (codes "text") code cs ≡ (code, map change_line cs)
  unfolding print_changes text_eq
  print_changes-text code [] = refl
  print_changes-text code (c ∷ cs) = rw (print_changes-text code cs) refl

  -- With the format `text` a line is printed for each change, in their order, and the exit code is 3
  -- if changes are to fail the command and there is one, else 0.
  pub run_diff-text :
      (fail_on_change : Bool) (before after : Snapshot)
      → (run_diff fail_on_change (codes "text") before after
          ≡ (exit_for fail_on_change (diff before after), map change_line (diff before after)))
        × ((exit_for fail_on_change (diff before after) ≡ 3)
            ↔ ((fail_on_change ≡ true) × (diff before after ≢ [])))
  unfolding run_diff exit_for
  run_diff-text fail_on_change before after = (
    print_changes-text (exit_for fail_on_change (diff before after)) (diff before after),
    by_changes (diff before after),
  )
    where
      by_changes :
          (cs : List Change)
          → (exit_for fail_on_change cs ≡ 3) ↔ ((fail_on_change ≡ true) × (cs ≢ []))
      by_changes [] = (λ h. ground arith, λ (f, some_change). absurd (some_change refl))
      by_changes (c ∷ cs) = (λ h. (ground arith, λ e. cc), λ (f, some_change). ground arith)
