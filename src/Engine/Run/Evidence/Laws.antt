-- ===== src/Engine/Run/Evidence/Laws.antt =====
-- storage-engine/src/execution.rs: what complete and sufficient evidence means.
use mathlib.Core.List.{Memᴰ}
use mathlib.Core.List.Memᴰ
use pdisks.Base.{
  Unrepeated, ◌≡◌, ◌↔◌, ◌⊎◌, inl, inr, refl, List, [], ◌∷◌, ◌++◌, Bool, true, false, Eq, ◌==◌,
  arith, all, any, contains_iff, subst, all_of_mem, &&-eq-true, &&-of-true, Memᴰ-cons, Bool-cases,
  all-mem,
}
use pdisks.Engine.Run.Defs.{
  ActionRunState, failed, LiveCheck, LiveCheckStatus, satisfied, violated, unknown, is_satisfied,
}
use pdisks.Engine.Run.Evidence.{conditions, no_extra, checks_cover, evidence_state}

abbrev pub is_violated : LiveCheckStatus → Bool
is_violated (violated _) = true
is_violated _ = false

-- The loop over the evidence gives `failed` where some status is a violation, the satisfied state
-- where all are satisfied, and the unknown state in every other case.
pub evidence_state_correct :
    (xs : List LiveCheckStatus) (x u : ActionRunState)
    → (any is_violated xs ≡ true → evidence_state xs x u ≡ failed)
      × (all is_satisfied xs ≡ true → evidence_state xs x u ≡ x)
      × (any is_violated xs ≡ false → all is_satisfied xs ≡ false → evidence_state xs x u ≡ u)
unfolding evidence_state
evidence_state_correct [] x u = ((λ h. cc), (λ h. refl), λ h k. cc)
evidence_state_correct (satisfied ∷ xs) x u = evidence_state_correct xs x u
evidence_state_correct (violated _ ∷ xs) x u = ((λ h. refl), (λ h. cc), λ h k. cc)
evidence_state_correct (unknown _ ∷ xs) x u = (
  (λ h. (evidence_state_correct xs u u).0 h),
  (λ h. cc),
  λ h k. elim (Bool-cases (all is_satisfied xs)) [
    | inl e ↦ (evidence_state_correct xs u u).1 e
    | inr e ↦ (evidence_state_correct xs u u).2 h e
  ],
)

module _ {T : Type 0} ⦃e : Eq T⦄ where
  attested_iff :
      (checks : List (LiveCheck T)) (c : T)
      → (any (λ check. check.condition == c) checks ≡ true) ↔ Memᴰ c (conditions checks)
  attested_iff [] c = (λ h. cc, λ h. absurd (Memᴰ.not-nil h))
  attested_iff (x ∷ xs) c =
      ground (
        arith,
        e.same_iff x.condition c,
        attested_iff xs c,
        Memᴰ-cons c x.condition (conditions xs),
      )

  conditions-concat :
      (earlier : List (LiveCheck T)) (x : LiveCheck T) (c : T)
      → Memᴰ c (conditions (earlier ++ x ∷ [])) ↔ (Memᴰ c (conditions earlier) ⊎ (c ≡ x.condition))
  conditions-concat [] x c =
      ground (arith, Memᴰ-cons c x.condition [], λ (h : Memᴰ c []). Memᴰ.not-nil h)
  conditions-concat (y ∷ ys) x c = ground (
    arith,
    conditions-concat ys x c,
    Memᴰ-cons c y.condition (conditions ys),
    Memᴰ-cons c y.condition (conditions (ys ++ x ∷ [])),
  )

  -- What `no_extra` finds: required conditions, new ones, none twice.
  abbrev Sound : List T → (earlier checks : List (LiveCheck T)) → Type 0
  Sound required earlier checks =
      ((c : T) → Memᴰ c (conditions checks) → Memᴰ c required × (Memᴰ c (conditions earlier) → ⊥))
      × Unrepeated (conditions checks)

  no_extra-Sound :
      (required : List T) (earlier checks : List (LiveCheck T))
      → no_extra required earlier checks ≡ true
      → Sound required earlier checks
  unfolding no_extra
  no_extra-Sound required earlier [] h = (λ c m. absurd (Memᴰ.not-nil m), tt)
  no_extra-Sound required earlier (x ∷ xs) h =
      let (later, once) = no_extra-Sound required (earlier ++ x ∷ []) xs (ground arith) in
      (
        λ c m. elim (Memᴰ.cases_cons m) [
          | inl q ↦
              ground (arith, q, contains_iff required x.condition, attested_iff earlier x.condition)
          | inr t ↦ ground (arith, later c t, conditions-concat earlier x c)
        ],
        (
          λ m. (later x.condition m).1 ((conditions-concat earlier x x.condition).1 (inr refl)),
          once,
        ),
      )

  no_extra_full :
      (required : List T) (earlier checks : List (LiveCheck T))
      → Sound required earlier checks
      → no_extra required earlier checks ≡ true
  unfolding no_extra
  no_extra_full required earlier [] h = refl
  no_extra_full required earlier (x ∷ xs) (all_new, (new, once)) =
      let (req, fresh) = all_new x.condition (Memᴰ.head refl) in
      let rest = no_extra_full required (earlier ++ x ∷ []) xs (
        λ c m. (
          (all_new c (Memᴰ.tail m)).0,
          λ k. elim ((conditions-concat earlier x c).0 k) [
            | inl old ↦ (all_new c (Memᴰ.tail m)).1 old
            | inr q ↦ new (subst (λ z. Memᴰ z (conditions xs)) q m)
          ],
        ),
        once,
      ) in
      ground (arith, contains_iff required x.condition, attested_iff earlier x.condition)

  all_attested :
      (required : List T) (checks : List (LiveCheck T))
      → (all (λ c. any (λ check. check.condition == c) checks) required ≡ true)
        ↔ ((c : T) → Memᴰ c required → Memᴰ c (conditions checks))
  all_attested required checks = (
    λ h c m. (attested_iff checks c).0 (all-mem _ required c h m),
    λ h. all_of_mem _ required (λ c m. (attested_iff checks c).1 (h c m)),
  )

  -- `checks_cover` holds exactly when the checks attest the required conditions and no others, and
  -- attest none twice.
  pub checks_cover_iff :
      (required : List T) (checks : List (LiveCheck T))
      → (checks_cover required checks ≡ true) ↔ (
          ((c : T) → Memᴰ c required ↔ Memᴰ c (conditions checks)) × Unrepeated (conditions checks))
  unfolding checks_cover
  checks_cover_iff required checks = (
    λ h.
        let (there, sound) = &&-eq-true _ _ h in
        let (extra, once) = no_extra-Sound required [] checks sound in
        (λ c. ((all_attested required checks).0 there c, λ m. (extra c m).0), once),
    λ (same, once).
        &&-of-true _ _ ((all_attested required checks).1 (λ c. (same c).0))
          (no_extra_full required [] checks (λ c m. ((same c).1 m, λ k. Memᴰ.not-nil k), once)),
  )
