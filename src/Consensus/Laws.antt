-- ===== src/Consensus/Laws.antt =====
-- How the consensus loop ends (src/core/consensus.ts).
use agentic_mcp_teaming.Common.{
  ℕ, ◌+◌, ◌<◌, String, ◌≡◌, ◌↔◌, refl, ◌⊎◌, inl, inr, true, false, some, none, List, [], ◌∷◌, ◌++◌,
  arith, any, all,
}
use agentic_mcp_teaming.Consensus.{
  Action, submit, approve, request_changes, block, implement, comment, AgentMessage, is_block,
  is_approve, EvaluationResult, consensus_reached, needs_revision, blocked, evaluate_consensus,
  consensus, aborted, human_approved, ConsensusResult, proceed, abort, Agents, round_msgs, Run,
  returned, reviser_failed, out_of_fuel,
}

approve-not-block : (m : AgentMessage) → is_approve m ≡ true → is_block m ≡ false
approve-not-block m h = go m.action refl
  where
    go : (a : Action) → m.action ≡ a → is_block m ≡ false
    go submit e = rw e refl
    go approve e = rw e refl
    go request_changes e = rw e refl
    go implement e = rw e refl
    go comment e = rw e refl
    go block e = absurd (ground (arith, e, h))

all-no-block : (msgs : List AgentMessage) → all is_approve msgs ≡ true → any is_block msgs ≡ false
unfolding any all
all-no-block [] h = refl
all-no-block (m ∷ msgs) h = ground (arith, h, approve-not-block m, all-no-block msgs)

-- A round reaches consensus exactly if every message approves; one message that blocks is enough for a
-- block, whatever the others are.
pub evaluate_consensus_lem :
    (msgs : List AgentMessage)
    → ((evaluate_consensus msgs ≡ consensus_reached) ↔ (all is_approve msgs ≡ true))
      × ((evaluate_consensus msgs ≡ blocked) ↔ (any is_block msgs ≡ true))
unfolding evaluate_consensus
evaluate_consensus_lem msgs = (
  (λ h. ground (arith, h), λ h. ground (arith, h, all-no-block msgs h)),
  (λ h. ground (arith, h), λ h. ground (arith, h)),
)

EvaluationResult-cases :
    (e : EvaluationResult) → (e ≡ blocked) ⊎ ((e ≡ consensus_reached) ⊎ (e ≡ needs_revision))
EvaluationResult-cases blocked = inl refl
EvaluationResult-cases consensus_reached = inr (inl refl)
EvaluationResult-cases needs_revision = inr (inr refl)

module _ (a : Agents) (max_rounds : ℕ) where
  abbrev pub answers : String → ℕ → List AgentMessage → List AgentMessage
  answers content round history = round_msgs a a.reviewer_agent_ids content history round

  -- The rounds of a run: the text that is up for review, the number of the rounds before, and their
  -- messages. A round is left for the next one if no reviewer blocks and not all approve, with the text
  -- that the reviser makes of the round's messages.
  pub data Held (first : String) : String → ℕ → List AgentMessage → Type 0 where
    opening : Held first first 0 []
    after_revision :
        {content content' : String} {round : ℕ} {history : List AgentMessage}
        → Held first content round history
        → any is_block (answers content round history) ≡ false
        → all is_approve (answers content round history) ≡ false
        → a.revise content (answers content round history) (round + 1) ≡ some content'
        → Held first content' (round + 1) (history ++ answers content round history)

  -- The human decides on the messages so far.
  abbrev pub Decided : List AgentMessage → ConsensusResult → Type 0
  Decided history result =
      result.outcome ≡ elim (a.decide history) [ proceed ↦ human_approved | abort ↦ aborted ]

  -- How a round ends the run: all reviewers approve its text; or one blocks, and the human decides on the
  -- messages of all rounds, this one's included; or it is the last one, and the human decides.
  abbrev pub EndsAt : String → ℕ → List AgentMessage → ConsensusResult → Type 0
  EndsAt content round history result =
      ((result.rounds ≡ round + 1)
        × (result.outcome ≡ consensus)
        × (all is_approve (answers content round history) ≡ true))
      ⊎ (((result.rounds ≡ round + 1)
            × (any is_block (answers content round history) ≡ true)
            × Decided (history ++ answers content round history) result)
          ⊎ ((result.rounds ≡ max_rounds)
              × (max_rounds ≡ round + 1)
              × (any is_block (answers content round history) ≡ false)
              × (all is_approve (answers content round history) ≡ false)
              × Decided (history ++ answers content round history) result))

  -- Without a round the human decides on nothing.
  abbrev pub Ends : String → ConsensusResult → Type 0
  Ends first result =
      ((max_rounds ≡ 0) × (result.rounds ≡ 0) × Decided [] result)
      ⊎ ((content : String) × (round : ℕ) × (history : List AgentMessage) × (round < max_rounds)
          × Held first content round history
          × EndsAt content round history result)

  -- The reviser is given the messages of a round that was held, and fails.
  abbrev pub Breaks : String → Type 0
  Breaks first =
      (content : String) × (round : ℕ) × (history : List AgentMessage) × Held first content round
        history
      × (a.revise content (answers content round history) (round + 1) ≡ none)

  abbrev Good : String → Run → Type 0
  Good first (returned result) = Ends first result
  Good first reviser_failed = Breaks first
  Good first out_of_fuel = ⊥

  -- The result of a round that is held while rounds are left.
  module _ (first content : String) (round : ℕ) (history : List AgentMessage)
      (held : Held first content round history) where
    abbrev msgs : List AgentMessage
    msgs = answers content round history
