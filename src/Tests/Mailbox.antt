-- ===== src/Tests/Mailbox.antt =====
-- The theorems on `drainUnread` (src/core/session-registry.ts) on a mailbox of three ids, two of which
-- the log knows, with room for one envelope in a response.
use agentic_mcp_teaming.Common.{
  String, ◌≡◌, ◌≢◌, ◌<◌, refl, false, ◌&&◌, ◌||◌, List, [], ◌∷◌, length, contains, some, arith,
}
use agentic_mcp_teaming.Dict.{Dict}
use agentic_mcp_teaming.Dict
use agentic_mcp_teaming.Message.{PeerMessage}
use agentic_mcp_teaming.SessionRegistry.{SessionEntry, SessionRegistry}
use agentic_mcp_teaming.SessionRegistry.Drain.{DrainResult, drained_ids, drain_unread}
use agentic_mcp_teaming.SessionRegistry.Drain.Mailbox.{
  drain_shrinks, drain_conserves, drain_times, drain_empties,
}
use agentic_mcp_teaming.Tests.{toy, two_sessions, owned_by, note_to}

abbrev unread : List String
unread = "m1" ∷ "m2" ∷ "lost" ∷ []

abbrev ann : SessionEntry
ann = owned_by "ann" "secret" unread

abbrev known : Dict PeerMessage
known = ("m1", note_to "m1" "ann" 8) ∷ ("m2", note_to "m2" "ann" 6) ∷ []

abbrev wrap : PeerMessage → String
wrap m = m.message_id

abbrev drained : DrainResult × SessionRegistry
drained = drain_unread toy two_sessions "ann" known wrap 3

drain_conserves_example :
    (e' : SessionEntry) × (Dict.get drained.1.sessions "ann" ≡ some e')
    × ((id : String)
        → ((contains (drained_ids drained.0.messages) id || contains e'.unread_message_ids id)
            ≡ (contains unread id && Dict.has known id))
          × ((contains (drained_ids drained.0.messages) id && contains e'.unread_message_ids id)
              ≡ false))
unfolding Dict.get
drain_conserves_example = drain_conserves toy two_sessions "ann" known wrap 3 ann refl

drain_shrinks_example :
    (e' : SessionEntry) × (Dict.get drained.1.sessions "ann" ≡ some e')
    × (unread ≢ [] → length e'.unread_message_ids < 3)
unfolding Dict.get
drain_shrinks_example = drain_shrinks toy two_sessions "ann" known wrap 3 ann refl

drain_empties_example :
    (e' : SessionEntry) × (Dict.get
        (drain_times toy "ann" known wrap 3 3 two_sessions).sessions
        "ann"
      ≡ some e')
    × (e'.unread_message_ids ≡ [])
unfolding Dict.get
drain_empties_example = drain_empties toy "ann" known wrap 3 3 two_sessions ann refl (omega arith)
