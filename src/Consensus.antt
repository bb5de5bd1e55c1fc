-- ===== src/Consensus.antt =====
-- The consensus loop (src/core/consensus.ts). Reviewers, the reviser and the human are oracles of the
-- round; the loop runs on fuel, which `max_rounds` bounds. Prompts and log entries are left out.
pub mod Laws
use Prim.Native.String.{◌++◌ as str_append}
use agentic_mcp_teaming.Common.{
  ℕ, zero, suc, ◌+◌, String, Bool, true, false, Option, none, some, List, [], ◌∷◌, ◌++◌, any, all,
  leb, if◌then◌else◌,
}

pub data Action : Type 0 where
  submit approve request_changes block implement comment : Action

pub record AgentMessage : Type 0 where
  pub role : String
  pub action : Action
  pub content : String

abbrev pub is_block : AgentMessage → Bool
is_block m = elim m.action [ block ↦ true | _ ↦ false ]

abbrev pub is_approve : AgentMessage → Bool
is_approve m = elim m.action [ approve ↦ true | _ ↦ false ]

pub data EvaluationResult : Type 0 where
  consensus_reached needs_revision blocked : EvaluationResult

unfoldable pub evaluate_consensus : List AgentMessage → EvaluationResult
unfolding any all
evaluate_consensus msgs =
    if any is_block msgs
    then blocked
    else if all is_approve msgs
    then consensus_reached
    else needs_revision

pub data ArtifactOutcome : Type 0 where
  consensus aborted human_approved pending : ArtifactOutcome

pub record ConsensusResult : Type 0 where
  pub outcome : ArtifactOutcome
  pub rounds : ℕ

pub data Decision : Type 0 where
  proceed abort : Decision

-- What the agents and the human answer. A reviewer that fails is `none`; a failing reviser makes the
-- loop throw.
pub record Agents : Type 0 where
  pub reviewer_agent_ids : List String
  pub review :
      (agent_id content : String) (history : List AgentMessage) (round : ℕ) → Option AgentMessage
  pub revise : (content : String) (msgs : List AgentMessage) (round : ℕ) → Option String
  pub decide : (msgs : List AgentMessage) → Decision

-- A reviewer that fails to respond counts as one that blocks.
abbrev or_block : String → Option AgentMessage → AgentMessage
or_block agent_id none = record {
  role = agent_id;
  action = block;
  content = str_append "Agent " (str_append agent_id " failed to respond (CLI error or timeout).");
}
or_block agent_id (some m) = m

unfoldable pub round_msgs :
    Agents → List String → String → List AgentMessage → ℕ → List AgentMessage
round_msgs a [] content history round = []
round_msgs a (id ∷ ids) content history round =
    or_block id (a.review id content history round) ∷ round_msgs a ids content history round

abbrev by_human : Decision → ℕ → ConsensusResult
by_human abort rounds = record { outcome = aborted; rounds = rounds }
by_human proceed rounds = record { outcome = human_approved; rounds = rounds }

-- The state that one round leaves: the loop is over, or it goes on with a revised text, or the cap is
-- reached, or the reviser threw.
pub data Next : Type 0 where
  finished : ConsensusResult → Next
  capped : Next
  revised : String → Next
  thrown : Next

abbrev next_content : Option String → Next
next_content none = thrown
next_content (some content) = revised content

-- `round` counts from 0; `round + 1` is the number of rounds that were held.
abbrev settle_round :
    Agents → ℕ → String → ℕ → List AgentMessage → List AgentMessage → EvaluationResult → Next
settle_round a max_rounds content round msgs history blocked =
    finished (by_human (a.decide history) (round + 1))
settle_round a max_rounds content round msgs history consensus_reached =
    finished (record { outcome = consensus; rounds = round + 1 })
settle_round a max_rounds content round msgs history needs_revision =
    if leb max_rounds (round + 1) then capped else next_content (a.revise content msgs (round + 1))

unfoldable pub hold_round : Agents → ℕ → String → ℕ → List AgentMessage → Next
unfolding round_msgs evaluate_consensus
hold_round a max_rounds content round history =
    let msgs = round_msgs a a.reviewer_agent_ids content history round in
    settle_round a max_rounds content round msgs (history ++ msgs) (evaluate_consensus msgs)

pub data Run : Type 0 where
  returned : ConsensusResult → Run
  reviser_failed : Run
  out_of_fuel : Run

abbrev cap_reached : Agents → ℕ → List AgentMessage → Run
cap_reached a max_rounds history = returned (by_human (a.decide history) max_rounds)

abbrev after_round : Agents → ℕ → List AgentMessage → (String → Run) → Next → Run
after_round a max_rounds history again (finished result) = returned result
after_round a max_rounds history again capped = cap_reached a max_rounds history
after_round a max_rounds history again (revised content) = again content
after_round a max_rounds history again thrown = reviser_failed

-- The `while` loop and what follows it; `history` is the messages of the rounds before.
unfoldable pub run_from : Agents → ℕ → ℕ → String → ℕ → List AgentMessage → Run
unfolding hold_round
run_from a max_rounds zero content round history = out_of_fuel
run_from a max_rounds (suc fuel) content round history =
    let history' = history ++ round_msgs a a.reviewer_agent_ids content history round in
    let again : String → Run =
      λ content'. run_from a max_rounds fuel content' (round + 1) history' in
    if leb max_rounds round
    then cap_reached a max_rounds history
    else after_round a max_rounds history' again (hold_round a max_rounds content round history)

unfoldable pub run : Agents → ℕ → String → Run
unfolding run_from
run a max_rounds content = run_from a max_rounds (suc max_rounds) content 0 []
