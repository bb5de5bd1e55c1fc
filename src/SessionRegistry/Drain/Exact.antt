-- ===== src/SessionRegistry/Drain/Exact.antt =====
-- What `drainUnread` (src/core/session-registry.ts) returns and what it leaves in the mailbox.
use mathlib.Core.List.{map-append}
use agentic_mcp_teaming.Common.{
  ℕ, suc, ◌+◌, ◌<◌, String, ◌≡◌, ◌≢◌, refl, ap, ◌∙◌, Bool, true, false, ◌&&◌, List, [], ◌∷◌, map,
  arith, length, length-keep-le, All, Option-cases, contains, contains-append, keep, keep_none,
  eq_iff, str_eq_refl,
}
use agentic_mcp_teaming.Dict.{Dict}
use agentic_mcp_teaming.Dict
use agentic_mcp_teaming.Platform.{Platform}
use agentic_mcp_teaming.Message.{PeerMessage}
use agentic_mcp_teaming.SessionRegistry.Drain.{
  Candidate, Taken, candidates, sort, taken_of, remaining, drained_ids, stays,
}
use agentic_mcp_teaming.SessionRegistry.Drain.Sorted.{ids_of, contains-sort}
use agentic_mcp_teaming.SessionRegistry.Drain.Budget.{
  drain_one, IsPrefixOf, take_messages-IsPrefixOf,
}

-- The candidates are the unread ids that the log knows.
contains-candidates :
    (lookup : Dict PeerMessage) (i : ℕ) (ids : List String) (s : String)
    → contains (ids_of (candidates lookup i ids)) s ≡ (contains ids s && Dict.has lookup s)
unfolding candidates contains Dict.has
contains-candidates lookup i [] s = refl
contains-candidates lookup i (id ∷ ids) s = ground (
  arith,
  contains-candidates lookup (suc i) ids s,
  contains-candidates lookup (i + 1) ids s,
  eq_iff id s,
  Option-cases (Dict.get lookup id),
)

contains_nil : (s : String) → contains [] s ≡ false
unfolding contains
contains_nil s = refl

ids-drain_one :
    (w : PeerMessage → String) (max_bytes : ℕ) (cs : List Candidate)
    → drained_ids (map (drain_one w max_bytes) cs) ≡ ids_of cs
ids-drain_one w max_bytes [] = refl
ids-drain_one w max_bytes (c ∷ cs) = ap (◌∷◌ c.id) (ids-drain_one w max_bytes cs)

length-keep-lt :
    (keeps : String → Bool) (ids : List String) (id : String)
    → contains ids id ≡ true
    → keeps id ≡ false
    → length (keep keeps ids) < length ids
unfolding contains keep
length-keep-lt keeps [] id h k = cc
length-keep-lt keeps (x ∷ xs) id h k =
    ground (arith, eq_iff x id, length-keep-lt keeps xs id, length-keep-le keeps xs)

contains-keep :
    (keeps : String → Bool) (ids : List String) (s : String)
    → contains (keep keeps ids) s ≡ (contains ids s && keeps s)
unfolding contains keep
contains-keep keeps [] s = refl
contains-keep keeps (x ∷ xs) s = ground (arith, eq_iff x s, contains-keep keeps xs s)

All-of_contains :
    (P : String → Bool) (ids : List String)
    → ((id : String) → contains ids id ≡ true → P id ≡ false)
    → All (λ id. P id ≡ false) ids
unfolding contains
All-of_contains P [] h = tt
All-of_contains P (x ∷ xs) h =
    (h x (ground (arith, str_eq_refl x)), All-of_contains P xs (λ id m. h id (ground (arith, m))))

module _ (p : Platform) (lookup : Dict PeerMessage) (wrap_envelope : PeerMessage → String)
    (max_bytes : ℕ) (ids : List String) where
  abbrev pub visited : List Candidate
  visited = sort p (candidates lookup 0 ids)

  abbrev pub taken : Taken
  taken = taken_of p lookup wrap_envelope max_bytes ids

  abbrev pub left : List String
  left = remaining lookup taken.drained ids

  pub taken-IsPrefixOf : IsPrefixOf wrap_envelope max_bytes [] visited taken
  unfolding taken_of
  taken-IsPrefixOf = take_messages-IsPrefixOf wrap_envelope max_bytes [] 0 visited

  contains-visited :
      (s : String) → contains (ids_of visited) s ≡ (contains ids s && Dict.has lookup s)
  contains-visited s =
      contains-sort p (candidates lookup 0 ids) s ∙ contains-candidates lookup 0 ids s

  contains-drained :
      (s : String)
      → contains (drained_ids taken.drained) s ≡ contains (ids_of taken-IsPrefixOf.front) s
  contains-drained s =
      rw (taken-IsPrefixOf.taken, ids-drain_one wrap_envelope max_bytes taken-IsPrefixOf.front)

  -- Only messages that were unread and are in the log are returned.
  pub drained_unread :
      (s : String)
      → contains (drained_ids taken.drained) s ≡ true
      → (contains ids s ≡ true) × (Dict.has lookup s ≡ true)
  drained_unread s h =
      let f = taken-IsPrefixOf in
      ground (
        arith,
        contains-drained s,
        contains-visited s,
        ap (λ cs. contains (ids_of cs) s) f.split,
        ap (λ (l : List String). contains l s)
            (map-append (λ (c : Candidate). c.id) f.front f.back),
        contains-append (ids_of f.front) (ids_of f.back) s,
      )

  -- If the loop did not stop early, nothing stays.
  pub complete-left : taken.stopped_early ≡ false → left ≡ []
  unfolding remaining
  complete-left h = keep_none _ ids (All-of_contains _ ids gone)
    where
      gone : (id : String) → contains ids id ≡ true → stays lookup taken.drained id ≡ false
      gone id m =
          let f = taken-IsPrefixOf in
          ground (
            arith,
            contains-drained id,
            contains-visited id,
            ap (λ cs. contains (ids_of cs) id) f.split,
            ap (λ (l : List String). contains l id)
                (map-append (λ (c : Candidate). c.id) f.front f.back),
            contains-append (ids_of f.front) (ids_of f.back) id,
            ap (λ cs. contains (ids_of cs) id) (f.complete h),
          )

  lost-left :
      (id : String)
      → contains ids id ≡ true
      → stays lookup taken.drained id ≡ false
      → length left < length ids
  unfolding remaining
  lost-left id m gone = length-keep-lt (stays lookup taken.drained) ids id m gone

  first_gone :
      (front : List Candidate)
      → taken-IsPrefixOf.front ≡ front
      → front ≢ []
      → length left < length ids
  first_gone [] e h = absurd (h refl)
  first_gone (c ∷ cs) e h =
      let there : contains (drained_ids taken.drained) c.id ≡ true =
        contains-drained c.id ∙ ap (λ l. contains (ids_of l) c.id) e ∙ contains_head in
      lost-left c.id (drained_unread c.id there).0 (ground (arith, there))
    where
      contains_head : contains (c.id ∷ ids_of cs) c.id ≡ true
      contains_head = unfold contains in ground (arith, str_eq_refl c.id)

  -- Every call on a mailbox that is not empty makes it shorter.
  pub shrinks : (unread : List String) → ids ≡ unread → unread ≢ [] → length left < length ids
  shrinks [] e h = absurd (h refl)
  shrinks (x ∷ xs) e h = go visited refl
    where
      present : contains ids x ≡ true
      present = rw e (unfold contains in ground (arith, str_eq_refl x))

      go : (cs : List Candidate) → visited ≡ cs → length left < length ids
      go [] none_visited = lost-left x present (
          ground (
            arith,
            contains-visited x,
            ap (λ l. contains (ids_of l) x) none_visited,
            contains_nil x,
            present,
          ))
      go (c ∷ cs) some_visited =
          first_gone taken-IsPrefixOf.front refl
            (taken-IsPrefixOf.progress refl (λ none_visited. cc))

  pub contains-left :
      (s : String) → contains left s ≡ (contains ids s && stays lookup taken.drained s)
  unfolding remaining
  contains-left s = contains-keep (stays lookup taken.drained) ids s
