-- ===== src/Engine/Simulate/Effects/Steps.antt =====
-- storage-engine/src/effects.rs: the steps of an effect that is published, and the evidence with which
-- its graph effects start.
use pdisks.Base.{◌≡◌, List, ok, arith, >>=-eq-ok}
use pdisks.Core.Graph.Structure.{validate_structure}
use pdisks.Provider.Contract.{PredictedEffect, FactInvalidation}
use pdisks.Engine.Simulate.Data.{SimulationEvidence}
use pdisks.Engine.Simulate.Evidence.{
  apply_allocation_effects, invalidate_filesystem_checks, invalidate_observations,
}
use pdisks.Engine.Simulate.Effects.{
  Projection, apply_graph_effects, apply_mount_effects, lift, project,
}

-- The projection behind the two invalidations.
abbrev pub start : Projection → List FactInvalidation → Projection
start p invalidations = record p {
  evidence =
      invalidate_filesystem_checks p.desired invalidations
        (invalidate_observations p.desired invalidations p.evidence).1;
}

pub record Steps (p : Projection) (effect : PredictedEffect) (invalidations : List FactInvalidation)
    (q : Projection) : Type 0 where
  pub built : Projection
  pub mounted : Projection
  pub charged : SimulationEvidence
  pub graph_step : apply_graph_effects effect.graph (start p invalidations) ≡ ok built
  pub mount_step : apply_mount_effects effect.mounts built ≡ ok mounted
  pub allocation_step : apply_allocation_effects effect.allocations mounted.evidence ≡ ok charged
  pub valid : validate_structure mounted.desired.graph ≡ ok tt
  pub published : q ≡ record { desired = mounted.desired; evidence = charged }

pub project-Steps :
    (p q : Projection) (effect : PredictedEffect) (is js : List FactInvalidation)
    → project p effect is ≡ ok (q, js)
    → Steps p effect is q
unfolding project
project-Steps p q effect is js h =
    let (built, g, h1) = >>=-eq-ok (apply_graph_effects effect.graph (start p is)) _ h in
    let (mounted, m, h2) = >>=-eq-ok (apply_mount_effects effect.mounts built) _ h1 in
    let (charged, a, h3) =
      >>=-eq-ok (apply_allocation_effects effect.allocations mounted.evidence) _ h2 in
    let (done, v, h4) = >>=-eq-ok (lift (validate_structure mounted.desired.graph)) _ h3 in
    record {
      built = built;
      mounted = mounted;
      charged = charged;
      graph_step = g;
      mount_step = m;
      allocation_step = a;
      valid = ground arith;
      published = ground arith;
    }
