-- ===== src/StewardVerifier/Laws.antt =====
-- What a verification that is accepted stands for (src/core/steward-verifier.ts).
use agentic_mcp_teaming.Common.{
  String, ◌≡◌, refl, Bool, true, Option, none, some, arith, eq_iff, Bool-cases, inl, inr,
}
use agentic_mcp_teaming.Text.{trim}
use agentic_mcp_teaming.Platform.{Platform}
use agentic_mcp_teaming.Session.{GateVerdict, pass, fail, not_verifiable}
use agentic_mcp_teaming.StewardVerifier.{
  VerificationResult, StewardVerificationEvidence, ProviderRun, accepted, raw_result, is_bound,
  evidence_of, by_verdict, checked, read_result, verify_implementation,
}

-- The output that was read, and what it says.
pub record Vouches (p : Platform) (approved commit tree : String) (run : ProviderRun)
    (parse : String → Option VerificationResult) (authorize : String → Bool)
    (e : StewardVerificationEvidence) : Type 0 where
  pub raw : String
  pub result : VerificationResult
  pub written : raw_result run ≡ some raw
  pub parsed : parse raw ≡ some result
  pub authorized : authorize raw ≡ true
  pub passes : result.verdict ≡ pass
  pub same_commit : result.commit ≡ commit
  pub same_tree : result.tree ≡ trim tree
  pub same_approval : result.approved_digest ≡ approved
  pub same_declaration : result.digest ≡ approved
  pub in_container : result.provider ≡ "container"
  pub evidence : e ≡ evidence_of p approved commit (trim tree) raw result

module _ (p : Platform) (approved commit tree : String) (run : ProviderRun)
    (parse : String → Option VerificationResult) (authorize : String → Bool) where
  by_verdict-accepted :
      (e e' : StewardVerificationEvidence) (v : GateVerdict)
      → by_verdict e v ≡ accepted e'
      → (v ≡ pass) × (e' ≡ e)
  by_verdict-accepted e e' pass h = (refl, ground (arith, h))
  by_verdict-accepted e e' fail h = cc
  by_verdict-accepted e e' not_verifiable h = cc

  checked-Vouches :
      (e : StewardVerificationEvidence) (raw : String) (answer : Option VerificationResult)
      → raw_result run ≡ some raw
      → parse raw ≡ answer
      → checked p approved commit (trim tree) raw authorize answer ≡ accepted e
      → Vouches p approved commit tree run parse authorize e
  unfolding is_bound
  checked-Vouches e raw none written parsed h = cc
  checked-Vouches e raw (some r) written parsed h =
      let settled = conditions h in
      record {
        raw = raw;
        result = r;
        written = written;
        parsed = parsed;
        authorized = settled.1;
        passes = (by_verdict-accepted _ e r.verdict settled.2).0;
        same_commit = ground (arith, settled.0, eq_iff r.commit commit);
        same_tree = ground (arith, settled.0, eq_iff r.tree (trim tree));
        same_approval = ground (arith, settled.0, eq_iff r.approved_digest approved);
        same_declaration = ground (arith, settled.0, eq_iff r.digest approved);
        in_container = ground (arith, settled.0, eq_iff r.provider "container");
        evidence = (by_verdict-accepted _ e r.verdict settled.2).1;
      }
    where
      conditions :
          checked p approved commit (trim tree) raw authorize (some r) ≡ accepted e
          → (is_bound approved commit (trim tree) r ≡ true)
            × (authorize raw ≡ true)
            × (by_verdict (evidence_of p approved commit (trim tree) raw r) r.verdict ≡ accepted e)
      conditions h = elim (Bool-cases (is_bound approved commit (trim tree) r)) [
        | inr e ↦ absurd (ground (arith, h, e))
        | inl e ↦ elim (Bool-cases (authorize raw)) [
          | inr f ↦ absurd (ground (arith, h, e, f))
          | inl f ↦ (e, f, ground (arith, h, e, f))
        ]
      ]

-- A verification that is accepted rests on an output of the provider that was authorized for the
-- transition and whose result passes, for the commit that was asked for, its tree, the approved
-- declaration as the one found, and the container; the evidence is made of these and of the output's hash.
-- The result that is accepted names its tree, so git found the commit.
pub verify_implementation-Vouches :
    (p : Platform) (approved commit : String) (tree : Option String) (run : ProviderRun)
    (parse : String → Option VerificationResult) (authorize : String → Bool)
    (e : StewardVerificationEvidence)
    → verify_implementation p approved commit tree run parse authorize ≡ accepted e
    → (t : String) × (tree ≡ some t) × Vouches p approved commit t run parse authorize e
unfolding verify_implementation
verify_implementation-Vouches p approved commit none run parse authorize e h = cc
verify_implementation-Vouches p approved commit (some t) run parse authorize e h =
    (t, refl, go (raw_result run) refl h)
  where
    go :
        (written : Option String)
        → raw_result run ≡ written
        → read_result p approved commit (trim t) parse authorize written ≡ accepted e
        → Vouches p approved commit t run parse authorize e
    go none w h = cc
    go (some raw) w h =
        checked-Vouches p approved commit t run parse authorize e raw (parse raw) w refl h
