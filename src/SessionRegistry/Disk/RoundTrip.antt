-- ===== src/SessionRegistry/Disk/RoundTrip.antt =====
-- A restart: what `load` reads of a file that `persist` wrote (src/core/session-registry.ts).
use mathlib.Core.Option
use agentic_mcp_teaming.Common.{
  String, ◌≡◌, refl, sym, ap, ◌∙◌, inl, inr, true, Option, none, some, List, [], ◌∷◌, arith, str_eq,
  str_eq_refl, eq_iff, All, Bool-cases, subst,
}
use agentic_mcp_teaming.Dict.{Dict}
use agentic_mcp_teaming.Dict
use agentic_mcp_teaming.Platform.{Platform}
use agentic_mcp_teaming.Message.{get_member}
use agentic_mcp_teaming.Message.Log.{JsonLaws}
use agentic_mcp_teaming.Patterns.{
  session_name_regex, auto_wake_key_regex, cmux_surface_id_regex, cmux_workspace_id_regex,
}
use agentic_mcp_teaming.SessionRegistry.{SessionEntry, SessionRegistry, clear_token_hashes}
use agentic_mcp_teaming.SessionRegistry.Disk.{
  text_elements, texts, entry_json, session_members, registry_json, load_entry, load_members, load,
  when_valid, is_nonempty, add_loaded,
}

-- The optional fields of an entry have the form that `load` accepts.
pub record Storable (key : String) (e : SessionEntry) : Type 0 where
  pub key_eq : e.name ≡ key
  pub named : session_name_regex key ≡ true
  pub pane_ok : when_valid is_nonempty e.pane_token_hash ≡ e.pane_token_hash
  pub wake_ok : when_valid auto_wake_key_regex e.auto_wake_key ≡ e.auto_wake_key
  pub surface_ok : when_valid cmux_surface_id_regex e.cmux_surface_id ≡ e.cmux_surface_id
  pub workspace_ok : when_valid cmux_workspace_id_regex e.cmux_workspace_id ≡ e.cmux_workspace_id
  pub target : e.wake_target ≡ e.cmux_surface_id

texts-text_elements : (ids : List String) → texts (text_elements ids) ≡ ids
unfolding texts text_elements
texts-text_elements [] = refl
texts-text_elements (id ∷ ids) = ap (λ l. id ∷ l) (texts-text_elements ids)

abbrev pub wiped : SessionEntry → SessionEntry
wiped e = record e { token_hash = "" }

load_entry-fields :
    (key token_hash registered_at last_seen_at : String) (ids : List String)
    (pane wake surface workspace : Option String)
    → session_name_regex key ≡ true
    → when_valid is_nonempty pane ≡ pane
    → when_valid auto_wake_key_regex wake ≡ wake
    → when_valid cmux_surface_id_regex surface ≡ surface
    → when_valid cmux_workspace_id_regex workspace ≡ workspace
    → let e : SessionEntry = record {
      name = key;
      token_hash = token_hash;
      pane_token_hash = pane;
      registered_at = registered_at;
      last_seen_at = last_seen_at;
      unread_message_ids = ids;
      auto_wake_key = wake;
      cmux_surface_id = surface;
      cmux_workspace_id = workspace;
      wake_target = surface;
    } in
      load_entry key (entry_json e) ≡ some (wiped e)
unfolding load_entry entry_json get_member
load_entry-fields k t r l ids none none none none v a b c d =
    rw (v, str_eq_refl k, texts-text_elements ids) refl
load_entry-fields k t r l ids none none none (some w) v a b c d =
    rw (v, str_eq_refl k, texts-text_elements ids, d) refl
load_entry-fields k t r l ids none none (some z) none v a b c d =
    rw (v, str_eq_refl k, texts-text_elements ids, c) refl
load_entry-fields k t r l ids none none (some z) (some w) v a b c d =
    rw (v, str_eq_refl k, texts-text_elements ids, c, d) refl
load_entry-fields k t r l ids none (some y) none none v a b c d =
    rw (v, str_eq_refl k, texts-text_elements ids, b) refl
load_entry-fields k t r l ids none (some y) none (some w) v a b c d =
    rw (v, str_eq_refl k, texts-text_elements ids, b, d) refl
load_entry-fields k t r l ids none (some y) (some z) none v a b c d =
    rw (v, str_eq_refl k, texts-text_elements ids, b, c) refl
load_entry-fields k t r l ids none (some y) (some z) (some w) v a b c d =
    rw (v, str_eq_refl k, texts-text_elements ids, b, c, d) refl
load_entry-fields k t r l ids (some x) none none none v a b c d =
    rw (v, str_eq_refl k, texts-text_elements ids, a) refl
load_entry-fields k t r l ids (some x) none none (some w) v a b c d =
    rw (v, str_eq_refl k, texts-text_elements ids, a, d) refl
load_entry-fields k t r l ids (some x) none (some z) none v a b c d =
    rw (v, str_eq_refl k, texts-text_elements ids, a, c) refl
load_entry-fields k t r l ids (some x) none (some z) (some w) v a b c d =
    rw (v, str_eq_refl k, texts-text_elements ids, a, c, d) refl
load_entry-fields k t r l ids (some x) (some y) none none v a b c d =
    rw (v, str_eq_refl k, texts-text_elements ids, a, b) refl
load_entry-fields k t r l ids (some x) (some y) none (some w) v a b c d =
    rw (v, str_eq_refl k, texts-text_elements ids, a, b, d) refl
load_entry-fields k t r l ids (some x) (some y) (some z) none v a b c d =
    rw (v, str_eq_refl k, texts-text_elements ids, a, b, c) refl
load_entry-fields k t r l ids (some x) (some y) (some z) (some w) v a b c d =
    rw (v, str_eq_refl k, texts-text_elements ids, a, b, c, d) refl

load_entry-entry_json :
    (key : String) (e : SessionEntry)
    → Storable key e
    → load_entry key (entry_json e) ≡ some (wiped e)
load_entry-entry_json key e s =
    let same : e ≡ record e { name = key; wake_target = e.cmux_surface_id } =
      ap (λ n. record e { name = n }) s.key_eq
      ∙ ap (λ t. record e { name = key; wake_target = t }) s.target in
    subst (λ x. load_entry key (entry_json x) ≡ some (wiped x)) (sym same)
      (load_entry-fields key e.token_hash e.registered_at e.last_seen_at e.unread_message_ids
        e.pane_token_hash e.auto_wake_key e.cmux_surface_id e.cmux_workspace_id s.named s.pane_ok
        s.wake_ok s.surface_ok s.workspace_ok)

-- A `Map` has one entry for a key.
abbrev pub Distinct {ℓ} : {V : Type ℓ} → Dict V → Type ℓ
Distinct [] = Unit
Distinct ((k, v) ∷ d) = (Dict.get d k ≡ none) × Distinct d

abbrev or_else : Option SessionEntry → Option SessionEntry → Option SessionEntry
or_else none o = o
or_else (some e) o = some e

or_else-none : (o : Option SessionEntry) → or_else o (Dict.get [] "") ≡ o
unfolding Dict.get
or_else-none none = refl
or_else-none (some e) = refl

load_members-session_members :
    (acc d : Dict SessionEntry) (j : String)
    → All (λ x. Storable x.0 x.1) d
    → Distinct d
    → Dict.get (load_members acc (session_members d)) j
      ≡ or_else (Option.map wiped (Dict.get d j)) (Dict.get acc j)
unfolding load_members session_members Dict.get
load_members-session_members acc [] j h distinct = refl
load_members-session_members acc ((k, e) ∷ d) j h distinct =
    ap (λ o. Dict.get (load_members (add_loaded acc k o) (session_members d)) j)
      (load_entry-entry_json k e h.0)
    ∙ load_members-session_members (Dict.set acc k (wiped e)) d j h.1 distinct.1
    ∙ elim (Bool-cases (str_eq k j)) [
      | inl same ↦ ground (arith, distinct.0, eq_iff k j, Dict.get-set acc k (wiped e) j, same)
      | inr other ↦ ground (arith, Dict.get-set acc k (wiped e) j, other)
    ]

-- A registry whose entries have the form that `register` and the tools accept.
pub record IsStorable (r : SessionRegistry) : Type 0 where
  pub entries : All (λ x. Storable x.0 x.1) r.sessions
  pub distinct : Distinct r.sessions

-- If the entries of a registry have the form that `load` accepts, then after a restart each session is
-- there as it was, with its mailbox, its credential and its wake
-- settings; only its token is wiped. Whatever the memory held before is replaced.
pub load-persist :
    (p : Platform) (r r' : SessionRegistry) (name : String)
    → JsonLaws p (registry_json r)
    → IsStorable r
    → Dict.get (load p (some (p.stringify (registry_json r))) r').sessions name
      ≡ Dict.get (clear_token_hashes r).sessions name
unfolding load registry_json clear_token_hashes get_member Dict.get
load-persist p r r' name laws s = rw laws.parse-stringify (
    load_members-session_members [] r.sessions name s.entries s.distinct
    ∙ or_else-none (Option.map wiped (Dict.get r.sessions name))
    ∙ sym (Dict.get-map_values wiped r.sessions name))
