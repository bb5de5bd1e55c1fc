-- ===== src/StewardVerifier.antt =====
-- The verifier of candidate commits (src/core/steward-verifier.ts). What git, the provider and the
-- authorizer answer are arguments; so is the reading of the provider's output, `JSON.parse` and the schema.
pub mod Laws
use agentic_mcp_teaming.Common.{
  String, Bool, ◌&&◌, not, Option, none, some, List, if◌then◌else◌, str_eq, map,
}
use agentic_mcp_teaming.Text.{is_empty, trim}
use agentic_mcp_teaming.Platform.{Platform, Json}
use agentic_mcp_teaming.Session.{commit_regex, GateVerdict, pass, fail, not_verifiable}

-- The parts of `CommandOutcome` that are passed on; the numbers are kept as their text.
pub record CommandOutcome : Type 0 where
  pub command : String
  pub exit : Option String
  pub outcome : String
  pub duration_seconds : String
  pub output : Json

pub record CommandEvidence : Type 0 where
  pub command_digest : String
  pub exit : Option String
  pub outcome : String
  pub duration_seconds : String
  pub output : Json

pub record VerificationResult : Type 0 where
  pub verdict : GateVerdict
  pub reason : String
  pub commit : String
  pub tree : String
  pub provider : String
  pub digest : String
  pub approved_digest : String
  pub attestation : Json
  pub commands : List CommandOutcome

pub record StewardVerificationEvidence : Type 0 where
  pub candidate_commit : String
  pub candidate_tree : String
  pub approved_declaration_digest : String
  pub gate_result_digest : String
  pub gate_verdict : GateVerdict
  pub gate_provider : String
  pub attestation : Json
  pub command_outcomes : List CommandEvidence

-- How the provider's process ended. One that fails may have written its result all the same.
pub data ProviderRun : Type 0 where
  exited : (stdout : String) → ProviderRun
  failed : (stdout : Option String) → ProviderRun

pub data VerificationError : Type 0 where
  unknown_commit provider_unavailable malformed_result stale_result : VerificationError
  transition_blocked : VerificationError
  verdict_blocks : GateVerdict → VerificationError

pub data Verification : Type 0 where
  accepted : StewardVerificationEvidence → Verification
  rejected : VerificationError → Verification

-- The constructor throws for a digest that is none.
unfoldable pub from_environment : Option String → Option String
from_environment none = none
from_environment (some digest) = if commit_regex digest then some digest else none

abbrev pub raw_result : ProviderRun → Option String
raw_result (exited stdout) = some stdout
raw_result (failed none) = none
raw_result (failed (some stdout)) = if is_empty (trim stdout) then none else some stdout

-- Bound to the same inputs, in the container
unfoldable pub is_bound : String → String → String → VerificationResult → Bool
is_bound approved commit tree r =
    str_eq r.commit commit
    && str_eq r.tree tree
    && str_eq r.approved_digest approved
    && str_eq r.digest approved
    && str_eq r.provider "container"

abbrev command_evidence : Platform → CommandOutcome → CommandEvidence
command_evidence p c = record {
  command_digest = p.to_hex (p.sha256 c.command);
  exit = c.exit;
  outcome = c.outcome;
  duration_seconds = c.duration_seconds;
  output = c.output;
}

abbrev pub evidence_of :
    Platform → String → String → String → String → VerificationResult → StewardVerificationEvidence
evidence_of p approved commit tree raw r = record {
  candidate_commit = commit;
  candidate_tree = tree;
  approved_declaration_digest = approved;
  gate_result_digest = p.to_hex (p.sha256 raw);
  gate_verdict = r.verdict;
  gate_provider = r.provider;
  attestation = r.attestation;
  command_outcomes = map (command_evidence p) r.commands;
}

abbrev pub by_verdict : StewardVerificationEvidence → GateVerdict → Verification
by_verdict e pass = accepted e
by_verdict e fail = rejected (verdict_blocks fail)
by_verdict e not_verifiable = rejected (verdict_blocks not_verifiable)

abbrev pub checked :
    Platform
    → String
    → String
    → String
    → String
    → (authorize : String → Bool) → Option VerificationResult
    → Verification
checked p approved commit tree raw authorize none = rejected malformed_result
checked p approved commit tree raw authorize (some r) =
    if not (is_bound approved commit tree r)
    then rejected stale_result
    else if not (authorize raw)
    then rejected transition_blocked
    else by_verdict (evidence_of p approved commit tree raw r) r.verdict

abbrev pub read_result :
    Platform
    → String
    → String
    → String
    → (String → Option VerificationResult)
    → (String → Bool)
    → Option String
    → Verification
read_result p approved commit tree parse authorize none = rejected provider_unavailable
read_result p approved commit tree parse authorize (some raw) =
    checked p approved commit tree raw authorize (parse raw)

-- `tree` is what `git rev-parse <commit>^{tree}` wrote, and `run` what the provider did.
unfoldable pub verify_implementation :
    Platform
    → String
    → String
    → (tree : Option String) → ProviderRun
    → (parse : String → Option VerificationResult) → (authorize : String → Bool) → Verification
unfolding trim is_bound
verify_implementation p approved commit none run parse authorize = rejected unknown_commit
verify_implementation p approved commit (some tree) run parse authorize =
    read_result p approved commit (trim tree) parse authorize (raw_result run)
