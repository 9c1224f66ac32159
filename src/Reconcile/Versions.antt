-- ===== src/Reconcile/Versions.antt =====
-- The version that the machines share (sharedVersion and observedTalos in
-- internal/reconcile/applier.go).
use rezuscloud.Prelude.{
  ◌≡◌, ◌≢◌, ◌↔◌, ◌⊎◌, refl, sym, inl, inr, false, String, List, [], ◌∷◌, map, arith, ◌==◌, eq_iff,
  eq_refl, All, if◌then◌else◌, text-cases,
}
use rezuscloud.State.Types.{Machine}
use rezuscloud.Reconcile.Applier.{agrees, shared_version}

module _ (pick : Machine → String) (v : String) (given : (v == "") ≡ false) where
  agrees-All : (ms : List Machine) → (agrees v (map pick ms) ≡ v) ↔ All (λ m. pick m ≡ v) ms
  agrees-All [] = (λ e. tt, λ e. refl)
  agrees-All (m ∷ ms) = elim (text-cases (pick m) v) [
    | inl e ↦ (
      λ h. (e, (agrees-All ms).0 (rw (e, given, eq_refl v) at h)),
      λ h. rw (e, given, eq_refl v) ((agrees-All ms).1 h.1),
    )
    | inr e ↦ (
      λ h. absurd (ground (arith, h, e, given, eq_iff "" v, eq_iff v "")),
      λ h. absurd (ground (arith, h.0, e, eq_iff (pick m) v)),
    )
  ]

  not_empty : {A : Type 0} → "" ≡ v → A
  not_empty h = absurd (let e = (eq_iff v "").1 (sym h) in cc)

  agrees-either : (w : String) (ws : List String) → (agrees w ws ≡ "") ⊎ (agrees w ws ≡ w)
  agrees-either w [] = inr refl
  agrees-either w (x ∷ ws) = elim (agrees-either w ws) [
    | inl e ↦ inl (ground (arith, e))
    | inr e ↦ elim (text-cases x "") [
      | inl f ↦ inl (rw f refl)
      | inr f ↦ elim (text-cases x w) [
        | inl g ↦ inr (rw (f, (eq_iff x w).1 g) e)
        | inr g ↦ inl (rw (f, g) refl)
      ]
    ]
  ]

  -- The first machine reports another version, or none.
  apart :
      {A : Type 0} (w : String) (ws : List String)
      → (w == v) ≡ false
      → (if w == "" then "" else agrees w ws) ≡ v
      → A
  apart w ws other h = elim (text-cases w "") [
    | inl e ↦ not_empty (rw e at h)
    | inr e ↦ elim (agrees-either w ws) [
      | inl f ↦ not_empty (rw (e, f) at h)
      | inr f ↦ absurd (let g = (eq_iff w v).1 (rw (e, f) at h) in cc)
    ]
  ]

  -- Machines report a version together, one that is not empty, exactly when there is a machine
  -- and every machine reports that version.
  pub shared_version-All :
      (ms : List Machine) → (shared_version pick ms ≡ v) ↔ ((ms ≢ []) × All (λ m. pick m ≡ v) ms)
  unfolding shared_version
  shared_version-All [] = (not_empty, λ h. absurd (h.0 refl))
  shared_version-All (m ∷ ms) = elim (text-cases (pick m) v) [
    | inl e ↦ (
      λ h. ((λ c. cc c), (e, (agrees-All ms).0 (rw (e, given) at h))),
      λ h. rw (e, given) ((agrees-All ms).1 h.1.1),
    )
    | inr e ↦
        (apart (pick m) (map pick ms) e, λ h. absurd (let g = (eq_iff (pick m) v).1 h.1.0 in cc))
  ]
