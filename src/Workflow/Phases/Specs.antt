-- ===== src/Workflow/Phases/Specs.antt =====
-- The phase of the specs with a file in a directory below the first (src/phases/specs.ts).
use Prim.Native.Char.{code}
use agentic_mcp_teaming.Common.{
  ℕ, String, ◌≡◌, ◌≢◌, refl, sym, ◌∙◌, ap, subst, get_or, inl, inr, Bool, true, false, not, Option,
  none, some, List, [], ◌∷◌, ◌==◌, arith, last?, eq_iff, Bool-cases,
}
use agentic_mcp_teaming.Dict
use agentic_mcp_teaming.Dict.{get-set}
use agentic_mcp_teaming.Session.{SessionState}
use agentic_mcp_teaming.Text.{every, ◌+++◌}
use agentic_mcp_teaming.Consensus.{ArtifactOutcome}
use agentic_mcp_teaming.Machine.{Error, LogEntry, log, or_throw, emit, listed, Outside, Machine, ok}
use agentic_mcp_teaming.Machine.Keeps.{
  Holds, Safe, Safe->>=, Safe->>, Safe-ok, Safe-pure, >>=-eq-ok,
}
use agentic_mcp_teaming.Workflow.Frame.{Frames, run_artifact_consensus-Safe}
use agentic_mcp_teaming.Workflow.Phases.{
  list_markdown_files, throw_if_aborted, review_specs, run_specs_phase, colons, spec_artifact_id,
  last_spec,
}
use agentic_mcp_teaming.Workflow.Phases.Laws.{open_file-Safe, transition_phase-ok}

abbrev no_slash : ℕ → Bool
no_slash c = not (c == b'/')

every-colons : (s : String) → every no_slash (colons s) ≡ true
unfolding every colons
every-colons String.[] = refl
every-colons (String.◌∷◌ c s) = elim (Bool-cases (code c == b'/')) [
  | inl e ↦ rw e (every-colons s)
  | inr e ↦ ground (arith, e, every-colons s)
]

every_skips_prefix : (s : String) → every no_slash ("spec:" +++ s) ≡ every no_slash s
unfolding every ◌+++◌
every_skips_prefix s = refl

-- No id under which a spec is reviewed has a slash.
artifact_id-ne :
    (file last : String) → every no_slash last ≡ false → spec_artifact_id file ≢ "spec:" +++ last
unfolding spec_artifact_id
artifact_id-ne file last h e =
    let same : every no_slash ("spec:" +++ colons file) ≡ every no_slash ("spec:" +++ last) =
      ap (every no_slash) e in
    ground
      (arith, same, every_skips_prefix (colons file), every_skips_prefix last, every-colons file)

-- The outcomes have no entry for a name.
abbrev Lacks : String → SessionState → Type 0
Lacks name s = Dict.get s.artifact_outcomes name ≡ none

Lacks-Frames : (artifact_id name : String) → artifact_id ≢ name → Frames artifact_id (Lacks name)
Lacks-Frames artifact_id name other = record {
  rounds = λ s now q. q;
  outcome = λ s now outcome q.
      rw (get-set s.artifact_outcomes artifact_id outcome name)
        (ground (arith, q, other, eq_iff artifact_id name));
}

log-Safe : (Q : SessionState → Type 0) (entry : LogEntry) → Safe (λ m. Q m.state) (log entry)
log-Safe Q entry = record { keeps = λ s q. q }

throw_if_aborted-Safe :
    (subject : String) (outcome : ArtifactOutcome) (Q : SessionState → Type 0)
    → Safe (λ m. Q m.state) (throw_if_aborted subject outcome)
throw_if_aborted-Safe subject outcome Q = record { keeps = go outcome }
  where
    go :
        (outcome : ArtifactOutcome) (s : Machine)
        → Q s.state
        → Holds (λ m. Q m.state) (throw_if_aborted subject outcome s)
    go ArtifactOutcome.consensus s q = q
    go ArtifactOutcome.aborted s q = q
    go ArtifactOutcome.human_approved s q = q
    go ArtifactOutcome.pending s q = q

module _ (o : Outside) (last : String) (slash : every no_slash last ≡ false) where
  abbrev name : String
  name = "spec:" +++ last

  review_specs-Lacks :
      (directory : String) (files : List String)
      → Safe (λ m. Lacks name m.state) (review_specs o directory files)
  unfolding review_specs
  review_specs-Lacks directory [] = Safe-pure
  review_specs-Lacks directory (file ∷ files) =
      Safe->>= (open_file-Safe o _ (Lacks name)) λ content.
        Safe->>=
          (run_artifact_consensus-Safe o (spec_artifact_id file) (Lacks name)
            (Lacks-Frames (spec_artifact_id file) name (artifact_id-ne file last slash)) content)
          λ outcome. Safe->> (log-Safe (Lacks name) _) (
            Safe->> (throw_if_aborted-Safe file outcome (Lacks name))
              (review_specs-Lacks directory files))

list_markdown_files-ok :
    (o : Outside) (directory : String) (s s' : Machine) (files files' : List String)
    → o.list_markdown_files s.trace directory ≡ some files
    → list_markdown_files o directory s ≡ ok files' s'
    → (files' ≡ files) × (s'.state ≡ s.state)
unfolding list_markdown_files
list_markdown_files-ok o directory s s' files files' listing h =
    go (o.list_markdown_files s.trace directory) listing h
  where
    go :
        (answer : Option (List String))
        → answer ≡ some files
        → or_throw Error.unreadable_file answer (emit (listed directory answer) s) ≡ ok files' s'
        → (files' ≡ files) × (s'.state ≡ s.state)
    go none e h = cc
    go (some fs) e h = (ground (arith, e, h), ground (arith, h))

-- With a last file whose path has a slash, and no outcome stored under its unchanged path, the phase
-- never returns, whatever the reviewers and the human answer: it asks for the outcome of an artifact
-- under an id that no spec is reviewed under.
pub run_specs_phase_never_returns :
    (o : Outside) (directory : String) (s s' : Machine) (u : Unit {0}) (files : List String)
    (last : String)
    → o.list_markdown_files s.trace directory ≡ some files
    → last? files ≡ some last
    → every no_slash last ≡ false
    → Dict.get s.state.artifact_outcomes (last_spec files) ≡ none
    → run_specs_phase o directory s ≢ ok u s'
unfolding run_specs_phase
run_specs_phase_never_returns o directory s s' u files last listing is_last slash lacks h =
    let (files', s1, e1, h1) = >>=-eq-ok (list_markdown_files o directory s) _ h in
    let (v, s2, e2, h2) = >>=-eq-ok (review_specs o directory files' s1) _ h1 in
    let (same, kept) = list_markdown_files-ok o directory s s1 files files' listing e1 in
    let spelled : last_spec files ≡ "spec:" +++ last =
      ap (λ l. "spec:" +++ get_or l "all") is_last in
    let respelled : last_spec files' ≡ "spec:" +++ last = ap last_spec same ∙ spelled in
    let before : Lacks ("spec:" +++ last) s1.state =
      subst (λ st. Lacks ("spec:" +++ last) st) (sym kept)
        (subst (λ n. Dict.get s.state.artifact_outcomes n ≡ none) spelled lacks) in
    let after =
      Safe-ok (λ m. Lacks ("spec:" +++ last) m.state)
        (review_specs-Lacks o last slash directory files') before e2 in
    let cleared = (transition_phase-ok o (last_spec files') _ s' u h2).0 in
    absurd (ground (arith, cleared, after, respelled))
