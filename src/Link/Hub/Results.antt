-- ===== src/Link/Hub/Results.antt =====
-- How the backend ends a run, `applyResult` of backend/lib/runnerhub/connection.go.
use asgard.Prelude.{
  ℕ, ◌≡◌, ◌≢◌, refl, sym, ◌∙◌, ap, true, false, ◌⊎◌, inl, inr, [], ◌∷◌, ◌++◌, append-nil, Text,
  text_eq_complete, Option, none, some, length, length-append, ◌==◌, if◌then◌else◌, arith,
  Bool-cases,
}
use asgard.Link.{RunResult}
use asgard.Link.Runs.{Run, RunError, Result, output_size_mismatch, output_size, wait, finish}
use asgard.Link.Runs.Output.{Starts}
use asgard.Link.Hub.{
  Connection, Hub, end_run, mark_finalized, deliver, result_for, apply_result, find_run,
}

-- A beginning that is as long as the whole is the whole.
whole_of : (start whole : Text) → Starts start whole → length start ≡ length whole → start ≡ whole
whole_of start whole ([], e) n = sym (e ∙ append-nil start)
whole_of start whole (b ∷ rest, e) n =
    let m = ap length e ∙ length-append start (b ∷ rest) in absurd (omega arith)

-- What `Wait` returns for the handle that a call has ended.
abbrev pub outcome : RunResult → Run → Option Result × Option RunError
outcome res r =
    if length r.output == res.output_size
    then (some (record { run_result = res; output = r.output }), none)
    else (r.result, some (output_size_mismatch (length r.output) res.output_size))

deliver-ended :
    (res : RunResult) (r : Run) (h : Hub)
    → r.finished ≡ false
    → (done : Run) × ((deliver res r h).ended ≡ h.ended ++ done ∷ [])
      × (wait done ≡ some (outcome res r))
unfolding deliver end_run finish wait output_size
deliver-ended res r h live = elim (Bool-cases (length r.output == res.output_size)) [
  | inl complete ↦
      (finish (some res) none r, rw (complete, deliver, output_size) refl, rw (live, complete) refl)
  | inr short ↦ (
    finish none (some (output_size_mismatch (length r.output) res.output_size)) r,
    rw (short, deliver, output_size) refl,
    rw (live, short) refl,
  )
]

tracked-result :
    (c : Connection) (res : RunResult) (r : Run) (h : Hub)
    → find_run res.ref.run_id h.runs ≡ some r
    → r.node_id ≡ c.node_id
    → apply_result false c res h ≡ (
      none,
      deliver res r (record h { finalized = (mark_finalized res.ref.run_id h.finalized).1 }),
    )
unfolding apply_result result_for
tracked-result c res r h f own =
    let t = text_eq_complete r.node_id c.node_id own in rw (f, t, apply_result, result_for) refl

outcome-whole :
    (res : RunResult) (r : Run) (whole : Text)
    → (length r.output == res.output_size) ≡ true
    → r.output ≡ whole
    → outcome res r ≡ (some (record { run_result = res; output = whole }), none)
outcome-whole res r whole complete same =
    rw complete (ap (λ (o : Text). (some (record { run_result = res; output = o }), none)) same)

outcome-part :
    (res : RunResult) (r : Run) (n : ℕ)
    → (length r.output == res.output_size) ≡ false
    → res.output_size ≡ n
    → outcome res r ≡ (r.result, some (output_size_mismatch (length r.output) n))
outcome-part res r n short size =
    rw short (ap (λ (k : ℕ). (r.result, some (output_size_mismatch (length r.output) k))) size)

-- A result that a runner reports for a run that it executes, that is tracked and not done, when the store of
-- finalized runs does not fail and what has been received is a beginning of the run's output, whose length the
-- result names: the run's handle is ended, and what `Wait` returns for it is the result with the whole output if
-- all of it has been received, and otherwise an error and no output of this result, never a part of the output
-- as if it were the whole.
pub apply_result-wait :
    (c : Connection) (res : RunResult) (r : Run) (h : Hub) (whole : Text)
    → find_run res.ref.run_id h.runs ≡ some r
    → r.node_id ≡ c.node_id
    → r.finished ≡ false
    → Starts r.output whole
    → res.output_size ≡ length whole
    → let (err, after) = apply_result false c res h in
      (err ≡ none)
      × ((done : Run) × (after.ended ≡ h.ended ++ done ∷ [])
          × ((wait done ≡ some (some (record { run_result = res; output = whole }), none))
              ⊎ ((length r.output ≢ length whole)
                  × (wait done
                      ≡ some (
                        r.result,
                        some (output_size_mismatch (length r.output) (length whole)),
                      )))))
apply_result-wait c res r h whole f own live start size =
    rw (tracked-result c res r h f own)
      (refl, (done, ended, ending (Bool-cases (length r.output == res.output_size))))
  where
    now : Hub
    now = record h { finalized = (mark_finalized res.ref.run_id h.finalized).1 }

    parts :
        (done : Run) × ((deliver res r now).ended ≡ now.ended ++ done ∷ [])
        × (wait done ≡ some (outcome res r))
    parts = deliver-ended res r now live

    done : Run
    done = parts.0

    ended : (deliver res r now).ended ≡ h.ended ++ done ∷ []
    ended = parts.1

    ending :
        ((length r.output == res.output_size) ≡ true)
          ⊎ ((length r.output == res.output_size) ≡ false)
        → (wait done ≡ some (some (record { run_result = res; output = whole }), none))
          ⊎ ((length r.output ≢ length whole)
              × (wait done
                  ≡ some (r.result, some (output_size_mismatch (length r.output) (length whole)))))
    ending (inl complete) =
        let same = whole_of r.output whole start (ground (arith, size)) in
        inl (
          parts.2
          ∙ ap (λ (o : Option Result × Option RunError). some o)
              (outcome-whole res r whole complete same))
    ending (inr short) = inr (
      (λ e. ground (arith, size)),
      parts.2
          ∙ ap (λ (o : Option Result × Option RunError). some o)
              (outcome-part res r (length whole) short size),
    )
