-- ===== src/SessionRegistry/Drain/Budget.antt =====
-- What the loop of `drainUnread` (src/core/session-registry.ts) takes into one response.
use mathlib.Core.List.{append-nil, append_assoc}
use agentic_mcp_teaming.Common.{
  ℕ, ◌+◌, ◌≤◌, String, ◌≡◌, ◌≢◌, refl, sym, ap, ◌∙◌, ◌⊎◌, inl, inr, false, ◌&&◌, not, List, [], ◌∷◌,
  ◌++◌, map, arith, len, ltb, length, Bool-cases,
}
use agentic_mcp_teaming.Message.{PeerMessage}
use agentic_mcp_teaming.SessionRegistry.Drain.{Candidate, Drained, Taken, take_messages, is_nil}

module _ (wrap_envelope : PeerMessage → String) (max_bytes : ℕ) where
  abbrev pub drain_one : Candidate → Drained
  drain_one c = record { message_id = c.id; wrapped = wrap_envelope c.msg }

  -- The bytes of a response.
  abbrev pub total_bytes : List Drained → ℕ
  total_bytes [] = 0
  total_bytes (d ∷ ds) = len d.wrapped + total_bytes ds

  total_bytes-append :
      (xs ys : List Drained) → total_bytes (xs ++ ys) ≡ total_bytes xs + total_bytes ys
  total_bytes-append [] ys = omega arith
  total_bytes-append (x ∷ xs) ys = omega (arith, total_bytes-append xs ys)

  -- What a run of the loop over `cs` took, after `drained`.
  pub record IsPrefixOf (drained : List Drained) (cs : List Candidate) (t : Taken) : Type 0 where
    pub front : List Candidate
    pub back : List Candidate
    pub split : cs ≡ front ++ back
    pub taken : t.drained ≡ drained ++ map drain_one front
    pub complete : t.stopped_early ≡ false → back ≡ []
    pub progress : drained ≡ [] → cs ≢ [] → front ≢ []

  pub take_messages-IsPrefixOf :
      (drained : List Drained) (cumulative : ℕ) (cs : List Candidate)
      → IsPrefixOf drained cs (take_messages wrap_envelope max_bytes drained cumulative cs)
  unfolding take_messages
  take_messages-IsPrefixOf drained cumulative [] = record {
    front = [];
    back = [];
    split = refl;
    taken = sym (append-nil drained);
    complete = λ _. refl;
    progress = λ _ h. absurd (h refl);
  }
  take_messages-IsPrefixOf drained cumulative (c ∷ cs) =
      let total = cumulative + len (wrap_envelope c.msg) in
      elim (Bool-cases (not (is_nil drained) && ltb max_bytes total)) [
        | inl full ↦
            rw (full, take_messages)
              (record {
                front = [];
                back = c ∷ cs;
                split = refl;
                taken = sym (append-nil drained);
                complete = λ h. cc;
                progress = λ e _. ground arith;
              })
        | inr room ↦ elim (Bool-cases (ltb max_bytes total)) [
          | inl large ↦
              rw (room, take_messages)
                (rw large (record {
                  front = c ∷ [];
                  back = cs;
                  split = refl;
                  taken = refl;
                  complete = λ h. cc;
                  progress = λ _ _ h. cc;
                }))
          | inr small ↦
              let rest = take_messages-IsPrefixOf (drained ++ drain_one c ∷ []) total cs in
              rw (room, take_messages)
                (rw small (record {
                  front = c ∷ rest.front;
                  back = rest.back;
                  split = ap (◌∷◌ c) rest.split;
                  taken = rest.taken ∙ append_assoc drained (drain_one c ∷ []) _;
                  complete = rest.complete;
                  progress = λ _ _ h. cc;
                }))
        ]
      ]

  -- A response is within the limit, or it is one message that is too large by itself.
  pub take_messages_bound :
      (drained : List Drained) (cumulative : ℕ) (cs : List Candidate)
      → cumulative ≡ total_bytes drained
      → total_bytes drained ≤ max_bytes
      → let t = take_messages wrap_envelope max_bytes drained cumulative cs in
        (total_bytes t.drained ≤ max_bytes) ⊎ (length t.drained ≡ 1)
  unfolding take_messages
  take_messages_bound drained cumulative [] e h = inl h
  take_messages_bound [] cumulative (c ∷ cs) e h =
      ground
        (arith, take_messages_bound (drain_one c ∷ []) (cumulative + len (wrap_envelope c.msg)) cs)
  take_messages_bound (d ∷ ds) cumulative (c ∷ cs) e h = ground (
    arith,
    take_messages_bound (d ∷ ds ++ drain_one c ∷ []) (cumulative + len (wrap_envelope c.msg)) cs,
    total_bytes-append (d ∷ ds) (drain_one c ∷ []),
  )
