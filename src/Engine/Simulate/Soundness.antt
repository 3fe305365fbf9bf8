-- ===== src/Engine/Simulate/Soundness.antt =====
-- storage-engine/src/effects.rs and storage-engine/src/simulate.rs: what a simulated action and the
-- replay of a plan keep.
use pdisks.Base.{
  ◌≡◌, inl, inr, ap, ◌∙◌, List, [], ◌∷◌, ◌++◌, false, ok, arith, any, Bool-cases, Result-cases,
  >>=-eq-ok,
}
use pdisks.Core.Graph.Structure.{validate_structure}
use pdisks.Core.Graph.Sets.{IsSetLike, edits-IsSetLike}
use pdisks.Provider.Action.{ProviderAction}
use pdisks.Provider.Contract.{ActionContract, ActionOutput, PredictedEffect, FactInvalidation}
use pdisks.Engine.Plan.{PlannedAction}
use pdisks.Engine.Simulate.Data.{is_violated, PrerequisiteCheck, SimulatedAction}
use pdisks.Engine.Simulate.Evidence.{apply_output, apply_outputs}
use pdisks.Engine.Simulate.Checks.{evaluate_prerequisites}
use pdisks.Engine.Simulate.Effects.{Projection, apply_effect_with_invalidations, project}
use pdisks.Engine.Simulate.Effects.Known.{IsKnown, project-Known}
use pdisks.Engine.Simulate.Effects.Mounts.{IsVisible, project-Visible, project-graph}
use pdisks.Engine.Simulate.Effects.Steps.{Steps, project-Steps, start}
use pdisks.Engine.Simulate.Effects.Untouched.{apply_graph_effects-Calls}
use pdisks.Engine.Simulate.Replay.{
  Provider, Replayed, is_error, replay_action, replay_actions, simulate_action,
}

-- What the simulation keeps: the graph is a set of nodes and edges that the validation accepts, no
-- runtime mount is hidden by a later one, and the evidence is about nodes of the graph.
pub record IsSound (p : Projection) : Type 0 where
  pub valid : validate_structure p.desired.graph ≡ ok tt
  pub set_like : IsSetLike p.desired.graph
  pub visible : IsVisible p.desired.mounts.runtime
  pub known : IsKnown p

project-Sound :
    (p q : Projection) (effect : PredictedEffect) (is : List FactInvalidation)
    → Steps p effect is q
    → IsSound p
    → IsSound q
project-Sound p q effect is s w =
    let (es, made, beside) =
      apply_graph_effects-Calls effect.graph (start p is) s.built s.graph_step in
    record {
      valid = rw s.published s.valid;
      set_like =
          rw (project-graph p q effect is s ∙ made) (edits-IsSetLike es p.desired.graph w.set_like);
      visible = project-Visible p q effect is s w.visible;
      known = project-Known p q effect is s w.known;
    }

-- What a published effect gives.
published :
    (p q : Projection) (effect : PredictedEffect) (is js : List FactInvalidation)
    → apply_effect_with_invalidations p effect is ≡ (q, ok js)
    → Steps p effect is q
unfolding apply_effect_with_invalidations
published p q effect is js h = elim (Result-cases (project p effect is)) [
  | inl ((m, ks), e) ↦ project-Steps p q effect is js (ground arith)
  | inr (x, e) ↦ absurd (ground arith)
]

-- The contract by which the provider describes an action, and its checks.
abbrev pub contract_of : Provider → ProviderAction → Projection → ActionContract
contract_of provider operation p = provider.describe_action operation p.desired.graph

abbrev pub checks_of : Provider → ProviderAction → Projection → List PrerequisiteCheck
checks_of provider operation p =
    evaluate_prerequisites p.desired p.evidence (contract_of provider operation p).prerequisites

-- What stands behind a simulated action: its effect was published, and then its outputs.
pub record Admitted (provider : Provider) (operation : ProviderAction) (p q : Projection)
    (s : SimulatedAction) : Type 0 where
  pub no_error : any is_error (provider.validate_provider_action operation p.desired.graph) ≡ false
  pub contract : s.contract ≡ contract_of provider operation p
  pub checks : s.checks ≡ checks_of provider operation p
  pub no_violation : any (λ check. is_violated check.status) s.checks ≡ false
  pub next : Projection
  pub steps : Steps p s.contract.predicted_effect s.contract.invalidated_facts next
  pub outputs :
      q ≡ record next { evidence = apply_outputs s.contract.provided_outputs next.evidence }

pub simulate_action-Admitted :
    (provider : Provider) (operation : ProviderAction) (p q : Projection) (s : SimulatedAction)
    → simulate_action provider operation p ≡ (q, ok s)
    → Admitted provider operation p q s
unfolding simulate_action
simulate_action-Admitted provider operation p q s h =
    let c = contract_of provider operation p in
    elim (Bool-cases (any is_error (provider.validate_provider_action operation p.desired.graph))) [
      | inl d ↦ absurd (ground arith)
      | inr d ↦
          elim (Bool-cases
            (any (λ check. is_violated check.status) (checks_of provider operation p))) [
              | inl v ↦ absurd (ground arith)
              | inr v ↦
                  let result =
                    apply_effect_with_invalidations p c.predicted_effect c.invalidated_facts in
                  elim (Result-cases result.1) [
                    | inl (js, e) ↦
                        let same : s.contract ≡ c = ground arith in
                        record {
                          no_error = d;
                          contract = same;
                          checks = ground arith;
                          no_violation = ground arith;
                          next = result.0;
                          steps = rw same (
                              published p result.0 c.predicted_effect c.invalidated_facts js
                                (ap (λ r. (result.0, r)) e));
                          outputs = ground arith;
                        }
                    | inr (x, e) ↦ absurd (ground arith)
                  ]
            ]
    ]

output-Sound :
    (output : ActionOutput) (p : Projection)
    → IsSound p
    → IsSound (record p { evidence = apply_output output p.evidence })
unfolding apply_output
output-Sound (ActionOutput.node _ _) p w = w
output-Sound (ActionOutput.block_interface _ _) p w = record {
  valid = w.valid;
  set_like = w.set_like;
  visible = w.visible;
  known = w.known;
}
output-Sound (ActionOutput.mount _ _ _) p w = w
output-Sound (ActionOutput.persistent_mount _) p w = w
output-Sound (ActionOutput.check_passed _) p w = record {
  valid = w.valid;
  set_like = w.set_like;
  visible = w.visible;
  known = w.known;
}

-- Outputs make no projected node and no activation.
outputs-Sound :
    (outputs : List ActionOutput) (p : Projection)
    → IsSound p
    → IsSound (record p { evidence = apply_outputs outputs p.evidence })
unfolding apply_outputs apply_output
outputs-Sound [] p w = w
outputs-Sound (output ∷ outputs) p w =
    outputs-Sound outputs (record p { evidence = apply_output output p.evidence })
      (output-Sound output p w)

simulate_action-Sound :
    (provider : Provider) (operation : ProviderAction) (p q : Projection) (s : SimulatedAction)
    → simulate_action provider operation p ≡ (q, ok s)
    → IsSound p
    → IsSound q
simulate_action-Sound provider operation p q s h w =
    let a = simulate_action-Admitted provider operation p q s h in
    rw a.outputs (
      outputs-Sound s.contract.provided_outputs a.next
        (project-Sound p a.next s.contract.predicted_effect s.contract.invalidated_facts a.steps w))

-- What one round of a replay does.
pub record Round (provider : Provider) (planned : PlannedAction) (r r' : Replayed) : Type 0 where
  pub simulated : SimulatedAction
  pub success :
      simulate_action provider planned.operation r.projection ≡ (r'.projection, ok simulated)
  pub actions :
      r'.actions ≡ r.actions ++ record planned { informational_contract = simulated.contract } ∷ []
  pub steps :
      r'.steps
      ≡ r.steps
        ++ record {
          action = planned.id;
          checks = simulated.checks;
          invalidated_facts = simulated.invalidated_facts;
        }
          ∷ []

pub replay_action-Round :
    (provider : Provider) (planned : PlannedAction) (r r' : Replayed)
    → replay_action provider planned r ≡ ok r'
    → Round provider planned r r'
unfolding replay_action
replay_action-Round provider planned r r' h =
    let accepted =
      provider.accepts_contract planned.operation planned.informational_contract
        r.projection.desired.graph in
    let result = simulate_action provider planned.operation r.projection in
    elim (Bool-cases accepted) [
      | inl k ↦ elim (Result-cases result.1) [
        | inl (s, e) ↦
            let next : r'.projection ≡ result.0 = ground arith in
            record {
              simulated = s;
              success = rw next (ap (λ x. (result.0, x)) e);
              actions = ground arith;
              steps = ground arith;
            }
        | inr (x, e) ↦ absurd (ground arith)
      ]
      | inr k ↦ absurd (ground arith)
    ]

-- In a replay of any sequence of actions from a sound configuration, the predicted configuration
-- stays sound: its graph passes validation and has no double node or edge, no runtime mount is hidden
-- by a later one, and a node that is not in the graph is neither projected nor given an activation.
pub replay_actions-Sound :
    (provider : Provider) (actions : List PlannedAction) (r r' : Replayed)
    → replay_actions provider actions r ≡ ok r'
    → IsSound r.projection
    → IsSound r'.projection
unfolding replay_actions
replay_actions-Sound provider [] r r' h w =
    let same : r'.projection ≡ r.projection = ground arith in rw same w
replay_actions-Sound provider (planned ∷ actions) r r' h w =
    let (m, first, rest) = >>=-eq-ok (replay_action provider planned r) _ h in
    let round = replay_action-Round provider planned r m first in
    replay_actions-Sound provider actions m r' rest (
      simulate_action-Sound provider planned.operation r.projection m.projection round.simulated
        round.success w)
