-- ===== src/Tests/Reviews.antt =====
-- The theorems on the consensus loop (src/core/consensus.ts) with two reviewers.
use agentic_mcp_teaming.Common.{String, ◌≡◌, refl, some, List, [], ◌∷◌, str_eq, if◌then◌else◌}
use agentic_mcp_teaming.Consensus.{
  Action, approve, block, request_changes, AgentMessage, Agents, proceed, run, returned,
}
use agentic_mcp_teaming.Consensus

abbrev says : String → Action → AgentMessage
says role action = record { role = role; action = action; content = "text" }

-- Both reviewers approve the second draft.
abbrev agents : Agents
agents = record {
  reviewer_agent_ids = "ann" ∷ "robert" ∷ [];
  review = λ id content history round.
      some (says id (if str_eq content "second" then approve else request_changes));
  revise = λ content msgs round. some "second";
  decide = λ msgs. proceed;
}

abbrev mixed : List AgentMessage
mixed = says "ann" approve ∷ says "robert" block ∷ []

-- The second draft is accepted in the second round.
run_of_two_rounds :
    run agents 3 "first" ≡ returned (record { outcome = Consensus.consensus; rounds = 2 })
unfolding run
run_of_two_rounds = refl
