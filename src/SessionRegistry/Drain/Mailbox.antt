-- ===== src/SessionRegistry/Drain/Mailbox.antt =====
-- `drainUnread` (src/core/session-registry.ts) on the mailbox of a registered session.
use mathlib.Core.Option.{some-injective}
use agentic_mcp_teaming.Common.{
  ℕ, zero, suc, ◌≤◌, ◌<◌, String, ◌≡◌, ◌≢◌, ◌↔◌, refl, sym, ◌∙◌, ◌⊎◌, Bool, true, false, ◌&&◌, ◌||◌,
  not, some, subst, List, [], ◌∷◌, arith, length, length-keep-le, contains,
}
use agentic_mcp_teaming.Dict.{Dict}
use agentic_mcp_teaming.Dict
use agentic_mcp_teaming.Platform.{Platform}
use agentic_mcp_teaming.Message.{PeerMessage}
use agentic_mcp_teaming.SessionRegistry.{SessionEntry, SessionRegistry}
use agentic_mcp_teaming.SessionRegistry.Drain.{
  candidates, sort, taken_of, remaining, drained_ids, drain_unread, result_of, DrainResult, is_nil,
  stays,
}
use agentic_mcp_teaming.SessionRegistry.Drain.Budget.{total_bytes, take_messages_bound}
use agentic_mcp_teaming.SessionRegistry.Drain.Exact

module _ (p : Platform) (r : SessionRegistry) (name : String) (lookup : Dict PeerMessage)
    (wrap_envelope : PeerMessage → String) (max_bytes : ℕ) (e : SessionEntry)
    (there : Dict.get r.sessions name ≡ some e) where
  abbrev out : DrainResult × SessionRegistry
  out = drain_unread p r name lookup wrap_envelope max_bytes

  abbrev left : List String
  left = Exact.left p lookup wrap_envelope max_bytes e.unread_message_ids

  -- A call returns what the loop took, and sets the mailbox to what is left.
  pub drain_unread_lem : out ≡ (
    result_of (taken_of p lookup wrap_envelope max_bytes e.unread_message_ids) left,
    record r { sessions = Dict.set r.sessions name (record e { unread_message_ids = left }) },
  )
  unfolding drain_unread
  drain_unread_lem = rw (there, drain_unread)

  -- The mailbox after the call.
  abbrev pub drained_entry : SessionEntry
  drained_entry = record e { unread_message_ids = left }

  pub get-drain_unread : Dict.get out.1.sessions name ≡ some drained_entry
  get-drain_unread = rw drain_unread_lem (Dict.get-set_self r.sessions name drained_entry)

  -- A call never makes the mailbox longer.
  length_left :
      (e' : SessionEntry)
      → Dict.get out.1.sessions name ≡ some e'
      → length e'.unread_message_ids ≤ length e.unread_message_ids
  length_left e' there' =
      let same : drained_entry ≡ e' = some-injective _ _ (sym get-drain_unread ∙ there') in
      subst (λ x. length x.unread_message_ids ≤ length e.unread_message_ids) same
        (unfold remaining in length-keep-le (stays lookup _) e.unread_message_ids)

  -- `hasMore` is true exactly when the mailbox is not empty after the call.
  pub has_more_exact :
      (e' : SessionEntry) × (Dict.get out.1.sessions name ≡ some e')
      × ((out.0.has_more ≡ true) ↔ (e'.unread_message_ids ≢ []))
  has_more_exact = (drained_entry, get-drain_unread, rw drain_unread_lem exact)
    where
      early : Bool
      early = (taken_of p lookup wrap_envelope max_bytes e.unread_message_ids).stopped_early

      decide :
          (xs : List String) (stop : Bool)
          → (stop ≡ false → xs ≡ [])
          → ((stop && not (is_nil xs)) ≡ true) ↔ (xs ≢ [])
      decide [] stop h = (λ x. ground arith, λ x. absurd (x refl))
      decide (x ∷ xs) true h = (λ _ q. cc, λ _. refl)
      decide (x ∷ xs) false h = (λ q. cc, λ _. cc (h refl))

      exact :
          ((result_of
              (taken_of p lookup wrap_envelope max_bytes e.unread_message_ids)
              left).has_more
            ≡ true)
          ↔ (left ≢ [])
      exact =
          unfold result_of in
          decide left early
            (Exact.complete-left p lookup wrap_envelope max_bytes e.unread_message_ids)

  -- A call on a mailbox that is not empty makes it shorter, whatever the log holds.
  pub drain_shrinks :
      (e' : SessionEntry) × (Dict.get out.1.sessions name ≡ some e')
      × (e.unread_message_ids ≢ [] → length e'.unread_message_ids < length e.unread_message_ids)
  drain_shrinks = (
    drained_entry,
    get-drain_unread,
    Exact.shrinks p lookup wrap_envelope max_bytes e.unread_message_ids e.unread_message_ids refl,
  )

  -- An unread id that the log knows is returned or stays unread, and not both; nothing else is
  -- returned or stays.
  pub drain_conserves :
      (e' : SessionEntry) × (Dict.get out.1.sessions name ≡ some e')
      × ((id : String)
          → ((contains (drained_ids out.0.messages) id || contains e'.unread_message_ids id)
              ≡ (contains e.unread_message_ids id && Dict.has lookup id))
            × ((contains (drained_ids out.0.messages) id && contains e'.unread_message_ids id)
                ≡ false))
  unfolding result_of taken_of
  drain_conserves = (drained_entry, get-drain_unread, λ id. rw drain_unread_lem (split id))
    where
      ids : List String
      ids = e.unread_message_ids

      gone : List String
      gone = drained_ids (taken_of p lookup wrap_envelope max_bytes ids).drained

      split :
          (id : String)
          → ((contains gone id || contains left id) ≡ (contains ids id && Dict.has lookup id))
            × ((contains gone id && contains left id) ≡ false)
      split id = ground (
        arith,
        Exact.contains-left p lookup wrap_envelope max_bytes ids id,
        Exact.drained_unread p lookup wrap_envelope max_bytes ids id,
      )

  -- A response holds at most `max_bytes` bytes of envelopes, or one envelope.
  pub drain_bound :
      (total_bytes wrap_envelope max_bytes out.0.messages ≤ max_bytes) ⊎ (length out.0.messages ≡ 1)
  unfolding result_of taken_of
  drain_bound = rw drain_unread_lem (
      take_messages_bound wrap_envelope max_bytes [] 0
        (sort p (candidates lookup 0 e.unread_message_ids)) refl (omega arith))

-- `n` calls one after the other.
module _ (p : Platform) (name : String) (lookup : Dict PeerMessage)
    (wrap_envelope : PeerMessage → String) (max_bytes : ℕ) where
  abbrev pub drain_times : ℕ → SessionRegistry → SessionRegistry
  drain_times zero r = r
  drain_times (suc n) r = drain_times n (drain_unread p r name lookup wrap_envelope max_bytes).1

  -- As many calls as there are unread messages leave the mailbox empty.
  pub drain_empties :
      (n : ℕ) (r : SessionRegistry) (e : SessionEntry)
      → Dict.get r.sessions name ≡ some e
      → length e.unread_message_ids ≤ n
      → (e' : SessionEntry) × (Dict.get (drain_times n r).sessions name ≡ some e')
        × (e'.unread_message_ids ≡ [])
  drain_empties zero r e there fits = (e, there, nil_of_length e.unread_message_ids fits)
    where
      nil_of_length : (xs : List String) → length xs ≤ 0 → xs ≡ []
      nil_of_length [] h = refl
      nil_of_length (x ∷ xs) h = absurd (omega arith)
  drain_empties (suc n) r e there fits =
      let (e', there', shorter) = drain_shrinks p r name lookup wrap_envelope max_bytes e there in
      drain_empties n (drain_unread p r name lookup wrap_envelope max_bytes).1 e' there' (
        within e.unread_message_ids e'.unread_message_ids fits
          (length_left p r name lookup wrap_envelope max_bytes e there e' there') shorter)
    where
      within :
          (xs ys : List String)
          → length xs ≤ suc n
          → length ys ≤ length xs
          → (xs ≢ [] → length ys < length xs)
          → length ys ≤ n
      within [] ys h le lt = omega arith
      within (x ∷ xs) ys h le lt = omega (arith, lt (λ q. cc))
