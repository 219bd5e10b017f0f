-- ===== src/Replacement/Safety/Identity.antt =====
-- What the identity checks of `_stage_temp_cleanup` establish.
use mathlib.Core.Path.{subst}
use aso_node_recovery.Prelude.{
  Bool, Option, String, ap, arith, false, get, inl, inr, none, not, opt_text_eq, refl, some,
  string_eq, true, truthy, ℕ, ◌&&◌, ◌||◌, ◌∙◌, ◌≡◌, ◌⊎◌,
}
use aso_node_recovery.Errors.{Result, err, ok}
use aso_node_recovery.Models.Rows.{Node, ReplacementJob}
use aso_node_recovery.Outside.{Outside, ProviderServer}
use aso_node_recovery.Replacement.Safety.Leftover.{IsConfirmed}
use aso_node_recovery.Replacement.Safety.Reads.{
  Returns, Returns-pure, Returns-require_job, Returns-require_node,
}
use aso_node_recovery.Replacement.Stages.Cleanup.{Leftover, expected_name, identity_matches}
use aso_node_recovery.Replacement.Stages.Ready.{found_answer}
use aso_node_recovery.Runtime.{World}
use aso_node_recovery.Runtime.Wp.{Post, Wp-session}
use aso_node_recovery.Settings.{Settings}

opt_text_lem : (a b : Option String) → opt_text_eq a b ≡ true → a ≡ b
opt_text_lem none none h = refl
opt_text_lem none (some t) h = absurd (ground arith)
opt_text_lem (some s) none h = absurd (ground arith)
opt_text_lem (some s) (some t) h = ap some ((string_eq.agree_iff s t).0 h)

host_lem :
    (recorded : Bool) (P : Bool) → (not recorded || P) ≡ true → (recorded ≡ false) ⊎ (P ≡ true)
host_lem true P h = inr h
host_lem false P h = inl refl

and_all : (a b c : Bool) → (a && b && c) ≡ true → (a ≡ true) × (b ≡ true) × (c ≡ true)
and_all a b c h = ground arith

module _ (out : Outside) (settings : Settings) where
  -- The name is the one of the stored job and its stored node.
  abbrev Named : World → ℕ → String → Type 0
  Named at id name =
      (job : ReplacementJob) × (node : Node) × (get at.db.jobs id ≡ some job)
      × (get at.db.nodes job.node_id ≡ some node)
      × (name ≡ out.replacement_server_name node.name job.id job.attempt_count)

  expected_name-Named :
      (at : World) (id : ℕ)
      → Returns (expected_name out settings id) (λ name _. Named at id name) at
  unfolding expected_name
  expected_name-Named at id =
      let Q : String → World → Type 0 = λ name _. Named at id name in
      Wp-session _ Q (λ _. Unit {0}) at
        (Returns-require_job id _ Q at λ job found.
          Returns-require_node job.node_id _ Q at
            λ node stored. Returns-pure _ Q at (job, node, found, stored, refl))

  expected_name-stored :
      (at : World) (id : ℕ) (name : String) (r : Result String × World)
      → Post (λ n _. Named at id n) (λ _. Unit {0}) r
      → r.0 ≡ ok name
      → Named at id name
  expected_name-stored at id name (ok n, w) known e = subst (Named at id) (cc) known
  expected_name-stored at id name (err x, w) known e = absurd (ground arith)

  pub identity_matches-IsConfirmed :
      (at : World) (id : ℕ) (leftover : Leftover out settings) (asked : ℕ) (name : String)
      (server : ProviderServer)
      → found_answer (out.get_server asked leftover.adapter leftover.vps.provider_server_id)
        ≡ ok (some server)
      → (expected_name out settings id at).0 ≡ ok name
      → identity_matches out settings leftover name server ≡ true
      → IsConfirmed out settings at id leftover
  identity_matches-IsConfirmed at id leftover asked name server answered named same =
      let (job, node, found, stored, called) =
        expected_name-stored at id name (expected_name out settings id at)
          (expected_name-Named at id) named in
      let (same_id, same_name, same_host) = and_all _ _ _ same in
      record {
        asked = asked;
        server = server;
        job = job;
        node = node;
        job_stored = found;
        node_stored = stored;
        answered = answered;
        same_id = (string_eq.agree_iff _ _).0 same_id;
        same_name = (string_eq.agree_iff server.name name).0 same_name ∙ called;
        same_host = elim (host_lem (truthy leftover.vps.host) _ same_host) [
          | inl empty ↦ inl empty
          | inr equal ↦ inr (opt_text_lem server.ipv4 leftover.vps.host equal)
        ];
      }
