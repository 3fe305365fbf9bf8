-- ===== src/Engine/Simulate/Protect/Laws.antt =====
-- storage-engine/src/validate.rs: a replay without violations leaves the protected nodes and mounts
-- alone.
use mathlib.Core.List.{Memᴰ}
use pdisks.Base.{
  ◌≡◌, inl, inr, refl, ap, ◌∙◌, List, [], ◌∷◌, ◌++◌, Bool, false, ok, arith, any, any-mem,
  append_single, append_nil, contains, put_member, Bool-cases, >>=-eq-ok,
}
use pdisks.Core.Node.{NodeId}
use pdisks.Engine.Simulate.Data.{SimulatedAction, path_eq, context_eq}
use pdisks.Engine.Simulate.Effects.{Projection}
use pdisks.Engine.Plan.{ActionId, PlannedAction}
use pdisks.Engine.Simulate.Effects.Mounts.{project-graph}
use pdisks.Engine.Simulate.Effects.Steps.{start}
use pdisks.Engine.Simulate.Effects.Untouched.{
  IsUntouched, IsUntouched-refl, IsUntouched-trans, apply_graph_effects-Calls, edit_all-Untouched,
}
use pdisks.Engine.Simulate.Protect.{
  ProtectedScope, ProtectedAspect, ProtectionViolation, check_step, check_steps, push_violations,
  ProtectedMount, touches_runtime, touches_node, graph_effect_touches, violation_eq,
}
use pdisks.Engine.Simulate.Protect.Mounts.{mounts_near, project-near}
use pdisks.Engine.Simulate.Replay.{Provider, Replayed, SimulatedStep, replay_action, replay_actions}
use pdisks.Engine.Simulate.Soundness.{Round, replay_action-Round, simulate_action-Admitted}

put_member-nil :
    (vs : List ProtectionViolation) (v : ProtectionViolation) → put_member vs v ≡ [] → ⊥
put_member-nil [] v h = cc
put_member-nil (x ∷ vs) v h = elim (Bool-cases (contains (x ∷ vs) v)) [
  | inl q ↦ ground arith
  | inr q ↦ ground arith
]

-- Violations are never taken back, and each object that the test finds is one.
push-nil {ℓ} :
    {A : Type ℓ} (test : A → Bool) (aspect : A → ProtectedAspect) (id : ActionId) (xs : List A)
    (vs : List ProtectionViolation)
    → push_violations test aspect id xs vs ≡ []
    → (vs ≡ []) × (any test xs ≡ false)
unfolding push_violations
push-nil test aspect id [] vs h = (h, refl)
push-nil test aspect id (x ∷ xs) vs h =
    let (none_yet, rest) = push-nil test aspect id xs _ h in
    elim (Bool-cases (test x)) [
      | inl q ↦
          absurd (put_member-nil vs (record { action = id; aspect = aspect x }) (ground arith))
      | inr q ↦ (ground arith, ground arith)
    ]

check_step-nil :
    (protected : ProtectedScope) (action : PlannedAction) (step : SimulatedStep)
    (vs : List ProtectionViolation)
    → check_step protected action step vs ≡ []
    → (vs ≡ [])
      × (any (touches_node action.informational_contract step) protected.nodes ≡ false)
      × (any (touches_runtime action.informational_contract) protected.runtime_mounts ≡ false)
unfolding check_step
check_step-nil protected action step vs h =
    let (a, _) =
      push-nil _ ProtectedAspect.persistent_mount action.id protected.persistent_mounts _ h in
    let (b, mounts) =
      push-nil (touches_runtime action.informational_contract) ProtectedAspect.runtime_mount
        action.id protected.runtime_mounts _ a in
    let (c, nodes) = push-nil _ ProtectedAspect.node action.id protected.nodes vs b in
    (c, nodes, mounts)

check_steps-nil :
    (protected : ProtectedScope) (actions : List PlannedAction) (steps : List SimulatedStep)
    (vs : List ProtectionViolation)
    → check_steps protected actions steps vs ≡ []
    → vs ≡ []
unfolding check_steps
check_steps-nil protected (action ∷ actions) (step ∷ steps) vs h =
    (check_step-nil protected action step vs
      (check_steps-nil protected actions steps (check_step protected action step vs) h)).0
check_steps-nil protected [] (step ∷ steps) vs h = h
check_steps-nil protected [] [] vs h = h
check_steps-nil protected (action ∷ actions) [] vs h = h

any-false {ℓ} :
    {A : Type ℓ} (p : A → Bool) (xs : List A) (a : A) → any p xs ≡ false → Memᴰ a xs → p a ≡ false
any-false p xs a h m = elim (Bool-cases (p a)) [
  | inl q ↦ let found = any-mem p xs a q m in absurd (ground arith)
  | inr q ↦ q
]

-- An action that does not touch a node leaves it alone.
action-Untouched :
    (provider : Provider) (planned : PlannedAction) (r r' : Replayed) (n : NodeId)
    (round : Round provider planned r r')
    → any (graph_effect_touches n) round.simulated.contract.predicted_effect.graph ≡ false
    → IsUntouched n r.projection.desired.graph r'.projection.desired.graph
action-Untouched provider planned r r' n round h =
    let p = r.projection in
    let s = round.simulated in
    let a = simulate_action-Admitted provider planned.operation p r'.projection s round.success in
    let effect = s.contract.predicted_effect in
    let is = s.contract.invalidated_facts in
    let (es, made, beside) =
      apply_graph_effects-Calls effect.graph (start p is) a.steps.built a.steps.graph_step in
    rw (ap (λ x. x.desired.graph) a.outputs) (
      rw (project-graph p a.next effect is a.steps ∙ made)
        (edit_all-Untouched es p.desired.graph n (beside n h)))

-- The action and the step that a round adds.
abbrev trusted : (planned : PlannedAction) → SimulatedAction → PlannedAction
trusted planned simulated = record planned { informational_contract = simulated.contract }

abbrev step_of : (planned : PlannedAction) → SimulatedAction → SimulatedStep
step_of planned simulated = record {
  action = planned.id;
  checks = simulated.checks;
  invalidated_facts = simulated.invalidated_facts;
}

-- A relation between configurations that each round without violations keeps.
module _ (protected : ProtectedScope) (provider : Provider)
    (Kept : Projection → Projection → Type 0) (kept_refl : (p : Projection) → Kept p p)
    (kept_trans : (p q r : Projection) → Kept p q → Kept q r → Kept p r)
    (each : (planned : PlannedAction) (r r' : Replayed) (round : Round provider planned r r')
      → any
          (touches_node round.simulated.contract (step_of planned round.simulated))
          protected.nodes
        ≡ false
      → any (touches_runtime round.simulated.contract) protected.runtime_mounts ≡ false
      → Kept r.projection r'.projection) where
  -- What a replay appends to its actions and its steps, and what the check of these says.
  Watched : (r r' : Replayed) → Type 0
  Watched r r' =
      (actions : List PlannedAction) × (steps : List SimulatedStep) × (r'.actions
        ≡ r.actions ++ actions)
      × (r'.steps ≡ r.steps ++ steps)
      × ((vs : List ProtectionViolation)
          → check_steps protected actions steps vs ≡ []
          → Kept r.projection r'.projection)

  replay-Watched :
      (actions : List PlannedAction) (r r' : Replayed)
      → replay_actions provider actions r ≡ ok r'
      → Watched r r'
  unfolding replay_actions check_steps Watched
  replay-Watched [] r r' h = (
    [],
    [],
    ground (arith, append_nil r.actions),
    ground (arith, append_nil r.steps),
    λ vs k. let same : r'.projection ≡ r.projection = ground arith in rw same (kept_refl _),
  )
  replay-Watched (planned ∷ actions) r r' h =
      let (mid, first, rest) = >>=-eq-ok (replay_action provider planned r) _ h in
      let round = replay_action-Round provider planned r mid first in
      let (later, later_steps, made, made_steps, watched) = replay-Watched actions mid r' rest in
      let action = trusted planned round.simulated in
      let step = step_of planned round.simulated in
      (
        action ∷ later,
        step ∷ later_steps,
        made ∙ ap (λ x. x ++ later) round.actions ∙ append_single r.actions action later,
        made_steps
            ∙ ap (λ x. x ++ later_steps) round.steps
            ∙ append_single r.steps step later_steps,
        λ vs k.
            let found = check_step protected action step vs in
            let (_, nodes, mounts) =
              check_step-nil protected action step vs
                (check_steps-nil protected later later_steps found k) in
            kept_trans _ _ _ (each planned r mid round nodes mounts) (watched found k),
      )

  checked_replay :
      (actions : List PlannedAction) (r r' : Replayed)
      → r.actions ≡ []
      → r.steps ≡ []
      → replay_actions provider actions r ≡ ok r'
      → check_steps protected r'.actions r'.steps [] ≡ []
      → Kept r.projection r'.projection
  unfolding Watched
  checked_replay actions r r' a s h k =
      let (later, later_steps, made, made_steps, watched) = replay-Watched actions r r' h in
      watched [] (ground arith)

-- When the check of a replay from the beginning finds no violation, each protected node keeps its
-- value, its dependencies and its relations.
pub check_steps-Untouched :
    (provider : Provider) (protected : ProtectedScope) (n : NodeId)
    → Memᴰ n protected.nodes
    → (actions : List PlannedAction) (r r' : Replayed) → r.actions ≡ []
    → r.steps ≡ []
    → replay_actions provider actions r ≡ ok r'
    → check_steps protected r'.actions r'.steps [] ≡ []
    → IsUntouched n r.projection.desired.graph r'.projection.desired.graph
check_steps-Untouched provider protected n m =
    checked_replay protected provider (λ p q. IsUntouched n p.desired.graph q.desired.graph)
      (λ p. IsUntouched-refl n _) (λ p q r. IsUntouched-trans n _ _ _)
      λ planned r r' round nodes mounts.
        let contract = round.simulated.contract in
        let alone =
          any-false (touches_node contract (step_of planned round.simulated)) protected.nodes n
            nodes m in
        action-Untouched provider planned r r' n round (ground arith)

-- When the check of a replay from the beginning finds no violation, the runtime mounts at, above and
-- below a protected mount stay as they are.
pub check_steps-near :
    (provider : Provider) (protected : ProtectedScope) (mount : ProtectedMount)
    → Memᴰ mount protected.runtime_mounts
    → (actions : List PlannedAction) (r r' : Replayed) → r.actions ≡ []
    → r.steps ≡ []
    → replay_actions provider actions r ≡ ok r'
    → check_steps protected r'.actions r'.steps [] ≡ []
    → mounts_near mount r'.projection.desired.mounts.runtime
      ≡ mounts_near mount r.projection.desired.mounts.runtime
check_steps-near provider protected mount m =
    checked_replay protected provider
      (λ p q.
        mounts_near mount q.desired.mounts.runtime ≡ mounts_near mount p.desired.mounts.runtime)
      (λ p. refl) (λ p q r a b. b ∙ a)
      λ planned r r' round nodes mounts.
        let s = round.simulated in
        let a =
          simulate_action-Admitted provider planned.operation r.projection r'.projection s
            round.success in
        let alone =
          any-false (touches_runtime s.contract) protected.runtime_mounts mount mounts m in
        ap (λ x. mounts_near mount x.desired.mounts.runtime) a.outputs
        ∙ project-near mount r.projection a.next s.contract.predicted_effect
            s.contract.invalidated_facts a.steps alone
