-- ===== src/Store/Flows/Upsert.antt =====
-- Writing to the place that `findIndex` found, and pushing where it found none, as one walk.
use superfluid_aragon_app.Prelude.{
  ℕ, suc, ◌≡◌, refl, ap, ◌∙◌, Bool, Option, none, some, List, [], ◌∷◌, arith, find_index,
  Bool-cases, inl, inr,
}
use mathlib.Core.Option
use superfluid_aragon_app.Packages.{Packages}
use superfluid_aragon_app.Js.Upsert.{upsert}
use superfluid_aragon_app.Store.Data.{Flow}
use superfluid_aragon_app.Store.Flows.{flow_at, write_flow}

module _ (p : Packages) (q : Flow → Bool) (created : Flow) (advance : Flow → Flow) where
  write_flow-cons :
      (x : Flow) (xs : List Flow) (o : Option ℕ)
      → write_flow p (x ∷ xs) (flow_at p (x ∷ xs) (Option.map suc o)) created advance
        ≡ x ∷ write_flow p xs (flow_at p xs o) created advance
  write_flow-cons x xs none = refl
  write_flow-cons x xs (some i) = ground arith

  pub write_flow-eq-upsert :
      (xs : List Flow)
      → write_flow p xs (flow_at p xs (find_index q xs)) created advance
        ≡ upsert q created advance xs
  write_flow-eq-upsert [] = refl
  write_flow-eq-upsert (x ∷ xs) = elim (Bool-cases (q x)) [
    | inl e ↦ rw e
    | inr e ↦
        rw e (write_flow-cons x xs (find_index q xs) ∙ ap (λ l. x ∷ l) (write_flow-eq-upsert xs))
  ]
