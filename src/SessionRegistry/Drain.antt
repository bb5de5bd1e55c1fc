-- ===== src/SessionRegistry/Drain.antt =====
-- `drainUnread` of SessionRegistry (src/core/session-registry.ts). The source sorts with
-- `Array.prototype.sort`, which is stable; here a stable insertion sort by the same comparison.
pub mod Sorted
pub mod Budget
pub mod Exact
pub mod Mailbox
use agentic_mcp_teaming.Common.{
  ℕ, ◌+◌, String, Bool, true, false, ◌&&◌, not, Option, none, some, List, [], ◌∷◌, ◌++◌, map, len,
  ltb, ◌==◌, if◌then◌else◌, contains, keep,
}
use agentic_mcp_teaming.Dict.{Dict}
use agentic_mcp_teaming.Dict
use agentic_mcp_teaming.Platform.{Platform}
use agentic_mcp_teaming.Message.{PeerMessage}
use agentic_mcp_teaming.SessionRegistry.{SessionEntry, SessionRegistry}

pub record Candidate : Type 0 where
  pub idx : ℕ
  pub msg : PeerMessage
  pub id : String

pub record Drained : Type 0 where
  pub message_id : String
  pub wrapped : String

pub record DrainResult : Type 0 where
  pub messages : List Drained
  pub has_more : Bool

abbrev candidate_of : ℕ → String → Option PeerMessage → List Candidate → List Candidate
candidate_of i id none rest = rest
candidate_of i id (some m) rest = record { idx = i; msg = m; id = id } ∷ rest

-- The unread ids that the log knows, in append order.
unfoldable pub candidates : Dict PeerMessage → ℕ → List String → List Candidate
candidates lookup i [] = []
candidates lookup i (id ∷ ids) =
    candidate_of i id (Dict.get lookup id) (candidates lookup (i + 1) ids)

-- Whether the comparison of the source is positive. A date that does not parse makes it NaN, which
-- `sort` takes for 0.
abbrev pub later : Option ℕ → ℕ → Option ℕ → ℕ → Bool
later (some ta) ia (some tb) ib = if ta == tb then ltb ib ia else ltb tb ta
later _ ia _ ib = false

abbrev pub comes_after : Platform → Candidate → Candidate → Bool
comes_after p a b = later (p.date_parse a.msg.timestamp) a.idx (p.date_parse b.msg.timestamp) b.idx

unfoldable pub insert : Platform → Candidate → List Candidate → List Candidate
insert p c [] = c ∷ []
insert p c (x ∷ xs) = let rest = insert p c xs in if comes_after p c x then x ∷ rest else c ∷ x ∷ xs

unfoldable pub sort : Platform → List Candidate → List Candidate
unfolding insert
sort p [] = []
sort p (c ∷ cs) = insert p c (sort p cs)

pub record Taken : Type 0 where
  pub drained : List Drained
  pub stopped_early : Bool

abbrev is_nil {ℓ} : {A : Type ℓ} → List A → Bool
is_nil [] = true
is_nil (x ∷ xs) = false

-- The loop that fills one response: it stops before a message that does not fit, unless it is the
-- first, and after a first message that is too large by itself.
unfoldable pub take_messages :
    (PeerMessage → String) → ℕ → List Drained → ℕ → List Candidate → Taken
take_messages wrap_envelope max_bytes drained cumulative [] = record {
  drained = drained;
  stopped_early = false;
}
take_messages wrap_envelope max_bytes drained cumulative (c ∷ cs) =
    let wrapped = wrap_envelope c.msg in
    let total = cumulative + len wrapped in
    let drained' = drained ++ record { message_id = c.id; wrapped = wrapped } ∷ [] in
    let rest = take_messages wrap_envelope max_bytes drained' total cs in
    if not (is_nil drained) && ltb max_bytes total
    then record { drained = drained; stopped_early = true }
    else if ltb max_bytes total
    then record { drained = drained'; stopped_early = true }
    else rest

abbrev pub drained_ids : List Drained → List String
drained_ids = map (λ d. d.message_id)

-- Drained ids go, and so do orphans: ids that are in no log entry.
abbrev pub stays : Dict PeerMessage → List Drained → String → Bool
stays lookup drained id = not (contains (drained_ids drained) id) && Dict.has lookup id

unfoldable pub remaining : Dict PeerMessage → List Drained → List String → List String
unfolding keep contains Dict.has
remaining lookup drained ids = keep (stays lookup drained) ids

unfoldable pub taken_of :
    Platform → Dict PeerMessage → (PeerMessage → String) → ℕ → List String → Taken
unfolding candidates sort take_messages
taken_of p lookup wrap_envelope max_bytes ids =
    take_messages wrap_envelope max_bytes [] 0 (sort p (candidates lookup 0 ids))

unfoldable pub result_of : Taken → List String → DrainResult
result_of t left = record { messages = t.drained; has_more = t.stopped_early && not (is_nil left) }

abbrev drain_entry :
    Platform
    → SessionRegistry
    → String
    → Dict PeerMessage
    → (PeerMessage → String)
    → ℕ
    → Option SessionEntry
    → DrainResult × SessionRegistry
drain_entry p r name lookup wrap_envelope max_bytes none =
    (record { messages = []; has_more = false }, r)
drain_entry p r name lookup wrap_envelope max_bytes (some e) =
    let t = taken_of p lookup wrap_envelope max_bytes e.unread_message_ids in
    let left = remaining lookup t.drained e.unread_message_ids in
    (
      result_of t left,
      record r { sessions = Dict.set r.sessions name (record e { unread_message_ids = left }) },
    )

unfoldable pub drain_unread :
    Platform
    → SessionRegistry
    → String
    → Dict PeerMessage
    → (PeerMessage → String)
    → ℕ
    → DrainResult × SessionRegistry
unfolding taken_of remaining result_of
drain_unread p r name lookup wrap_envelope max_bytes =
    drain_entry p r name lookup wrap_envelope max_bytes (Dict.get r.sessions name)
