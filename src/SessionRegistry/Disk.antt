-- ===== src/SessionRegistry/Disk.antt =====
-- `persist`, `load` and `reconcile` of SessionRegistry (src/core/session-registry.ts). The file is
-- the text that `JSON.stringify` prints. `sessions` given as an array is read as empty here, and an object
-- that was read has each key once, as `JSON.parse` keeps the last value of a key.
pub mod RoundTrip
pub mod Reconciled
pub mod Loaded
use agentic_mcp_teaming.Common.{
  ℕ, ◌+◌, String, Bool, true, false, not, Option, none, some, List, [], ◌∷◌, ◌++◌, str_eq, ltb,
  length, if◌then◌else◌,
}
use agentic_mcp_teaming.Dict.{Dict}
use agentic_mcp_teaming.Dict
use agentic_mcp_teaming.Platform.{
  Platform, Json, text, number, array, object, Elements, nil, cons, Members, end, member,
}
use agentic_mcp_teaming.Message.{PeerMessage, get_member, as_text}
use agentic_mcp_teaming.Patterns.{
  session_name_regex, auto_wake_key_regex, cmux_surface_id_regex, cmux_workspace_id_regex,
}
use agentic_mcp_teaming.SessionRegistry.{SessionEntry, SessionRegistry}

unfoldable pub text_elements : List String → Elements
text_elements [] = nil
text_elements (s ∷ ss) = cons (text s) (text_elements ss)

abbrev pub optional : String → Option String → Members → Members
optional k none rest = rest
optional k (some s) rest = member k (text s) rest

-- An entry without its `wakeTarget`.
unfoldable pub entry_json : SessionEntry → Json
unfolding text_elements
entry_json e = object (
    member "name" (text e.name) (
      member "tokenHash" (text e.token_hash) (
        optional "paneTokenHash" e.pane_token_hash (
          member "registeredAt" (text e.registered_at) (
            member "lastSeenAt" (text e.last_seen_at) (
              member "unreadMessageIds" (array (text_elements e.unread_message_ids)) (
                optional "autoWakeKey" e.auto_wake_key (
                  optional "cmuxSurfaceId" e.cmux_surface_id
                    (optional "cmuxWorkspaceId" e.cmux_workspace_id end)))))))))

unfoldable pub session_members : Dict SessionEntry → Members
unfolding entry_json
session_members [] = end
session_members ((key, e) ∷ d) = member key (entry_json e) (session_members d)

unfoldable pub registry_json : SessionRegistry → Json
unfolding session_members
registry_json r =
    object
      (member "version" (number "1") (member "sessions" (object (session_members r.sessions)) end))

infixl 5 ◌>>=◌ ◌>>◌
abbrev ◌>>=◌ {ℓ κ} : {A : Type ℓ} {B : Type κ} → Option A → (A → Option B) → Option B
none >>= k = none
some a >>= k = k a

abbrev ◌>>◌ {ℓ} : {B : Type ℓ} → Option (Unit {0}) → Option B → Option B
m >> k = m >>= λ _. k

abbrev guard : Bool → Option (Unit {0})
guard true = some tt
guard false = none

abbrev as_array : Option Json → Option Elements
as_array (some (array es)) = some es
as_array _ = none

-- The elements that are strings.
unfoldable pub texts : Elements → List String
texts nil = []
texts (cons (text s) es) = s ∷ texts es
texts (cons j es) = texts es

abbrev pub when_valid : (String → Bool) → Option String → Option String
when_valid valid none = none
when_valid valid (some s) = if valid s then some s else none

abbrev pub is_nonempty : String → Bool
is_nonempty s = not (str_eq s "")

-- The rotating token is wiped, and optional fields that are malformed are dropped.
abbrev pub cleaned : String → String → String → Elements → Members → SessionEntry
cleaned name registered_at last_seen_at unread ms = record {
  name = name;
  token_hash = "";
  pane_token_hash = when_valid is_nonempty (as_text (get_member ms "paneTokenHash"));
  registered_at = registered_at;
  last_seen_at = last_seen_at;
  unread_message_ids = texts unread;
  auto_wake_key = when_valid auto_wake_key_regex (as_text (get_member ms "autoWakeKey"));
  cmux_surface_id = when_valid cmux_surface_id_regex (as_text (get_member ms "cmuxSurfaceId"));
  cmux_workspace_id =
      when_valid cmux_workspace_id_regex (as_text (get_member ms "cmuxWorkspaceId"));
  wake_target = when_valid cmux_surface_id_regex (as_text (get_member ms "cmuxSurfaceId"));
}

-- One round of the loop of `load`: `none` is a `continue`.
unfoldable pub load_entry : String → Json → Option SessionEntry
unfolding get_member texts
load_entry key (object ms) = do
  guard (session_name_regex key)
  name ← as_text (get_member ms "name")
  registered_at ← as_text (get_member ms "registeredAt")
  last_seen_at ← as_text (get_member ms "lastSeenAt")
  unread ← as_array (get_member ms "unreadMessageIds")
  guard (str_eq name key)
  some (cleaned name registered_at last_seen_at unread ms)
load_entry key _ = none

abbrev add_loaded : Dict SessionEntry → String → Option SessionEntry → Dict SessionEntry
add_loaded d key none = d
add_loaded d key (some e) = Dict.set d key e

unfoldable pub load_members : Dict SessionEntry → Members → Dict SessionEntry
unfolding load_entry
load_members d end = d
load_members d (member key j ms) = load_members (add_loaded d key (load_entry key j)) ms

abbrev members_of : Json → Option Members
members_of (object ms) = some ms
members_of (array es) = some end
members_of _ = none

abbrev sessions_of : Option Json → Option Members
sessions_of none = none
sessions_of (some j) = members_of j

-- `this.sessions.clear()` comes after the checks on the whole file.
abbrev with_sessions : SessionRegistry → Option Members → SessionRegistry
with_sessions r none = r
with_sessions r (some entries) = record r { sessions = load_members [] entries }

abbrev load_parsed : SessionRegistry → Option Json → SessionRegistry
load_parsed r (some (object ms)) = with_sessions r (sessions_of (get_member ms "sessions"))
load_parsed r _ = r

unfoldable pub load : Platform → Option String → SessionRegistry → SessionRegistry
unfolding load_members get_member
load p none r = r
load p (some raw) r = load_parsed r (p.json_parse raw)

pub record Summary : Type 0 where
  pub orphaned_count : ℕ
  pub misrouted_count : ℕ
  pub first_few_ids : List String

pub data Verdict : Type 0 where
  delivered orphaned misrouted : Verdict

abbrev pub verdict_of : String → Option PeerMessage → Verdict
verdict_of name none = orphaned
verdict_of name (some m) = if str_eq m.to name then delivered else misrouted

abbrev first_few : String → List String → List String
first_few id ids = if ltb (length ids) 5 then ids ++ id ∷ [] else ids

abbrev pub note : Verdict → String → Summary → Summary
note delivered id s = s
note orphaned id s = record s {
  orphaned_count = s.orphaned_count + 1;
  first_few_ids = first_few id s.first_few_ids;
}
note misrouted id s = record s {
  misrouted_count = s.misrouted_count + 1;
  first_few_ids = first_few id s.first_few_ids;
}

abbrev pub is_delivered : Verdict → Bool
is_delivered delivered = true
is_delivered _ = false

-- The filter over one mailbox, with the counters that its callback updates.
unfoldable pub reconcile_ids :
    Dict PeerMessage → String → List String → Summary → List String × Summary
reconcile_ids lookup name [] s = ([], s)
reconcile_ids lookup name (id ∷ ids) s =
    let v = verdict_of name (Dict.get lookup id) in
    let (kept, s') = reconcile_ids lookup name ids (note v id s) in
    (if is_delivered v then id ∷ kept else kept, s')

unfoldable pub reconcile_entries :
    Dict PeerMessage → Dict SessionEntry → Summary → Dict SessionEntry × Summary
unfolding reconcile_ids
reconcile_entries lookup [] s = ([], s)
reconcile_entries lookup ((key, e) ∷ d) s =
    let (kept, s') = reconcile_ids lookup e.name e.unread_message_ids s in
    let (d', s'') = reconcile_entries lookup d s' in
    ((key, record e { unread_message_ids = kept }) ∷ d', s'')

abbrev pub no_drops : Summary
no_drops = record { orphaned_count = 0; misrouted_count = 0; first_few_ids = [] }

unfoldable pub reconcile : SessionRegistry → Dict PeerMessage → Summary × SessionRegistry
unfolding reconcile_entries
reconcile r lookup =
    let (d, s) = reconcile_entries lookup r.sessions no_drops in (s, record r { sessions = d })
