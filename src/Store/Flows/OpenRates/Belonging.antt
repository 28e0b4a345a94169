-- ===== src/Store/Flows/OpenRates/Belonging.antt =====
-- The stream that an open flow belongs to: it has one, and the flow of an event is the one of its
-- stream.
use superfluid_aragon_app.Prelude.{
  ℕ, pos, String, ◌≡◌, refl, sym, Bool, true, false, some, List, [], ◌∷◌, ltb_ℤ, All, arith,
  Bool-cases, inl, inr,
}
use superfluid_aragon_app.Packages.{Packages}
use superfluid_aragon_app.Helpers.Web3.{same_comm, same_trans}
use superfluid_aragon_app.Js.Upsert.{IsApart, IsUnique}
use superfluid_aragon_app.Store.Data.{value, Flow, FlowUpdated}
use superfluid_aragon_app.Store.Flows.{advance_flow}
use superfluid_aragon_app.Store.Flows.Refinement.{concerns}
use superfluid_aragon_app.Store.Flows.Unique.{clash}
use superfluid_aragon_app.Store.Flows.OpenRates.{
  Stream, same_direction, belongs, stream_of, same_stream, IsForeign, IsAgents,
}
use superfluid_aragon_app.Store.Flows.OpenRates.Walks.{IsAlone}

module _ (p : Packages) where
  pub concerns_directed :
      (agent : String) (event : FlowUpdated) (incoming : Bool) (f : Flow)
      → IsAgents p agent event incoming
      → IsForeign p agent f
      → concerns p event f ≡ true
      → same_direction incoming f.is_incoming ≡ true
  unfolding concerns
  concerns_directed agent event true f a h c =
      ground (arith, a.near, h, c, same_trans p (some f.entity) (some event.receiver) (some agent))
  concerns_directed agent event false f a h c =
      ground (arith, a.near, h, c, same_trans p (some f.entity) (some event.sender) (some agent))

  pub bool_ext : (a b : Bool) → (a ≡ true → b ≡ true) → (b ≡ true → a ≡ true) → a ≡ b
  bool_ext true b h k = sym (h refl)
  bool_ext false true h k = k refl
  bool_ext false false h k = refl

  pub concerns-belongs :
      (agent : String) (event : FlowUpdated) (incoming : Bool) (f : Flow)
      → IsAgents p agent event incoming
      → IsForeign p agent f
      → belongs p (stream_of event incoming) f ≡ concerns p event f
  unfolding belongs concerns
  concerns-belongs agent event true f a h = elim (Bool-cases f.is_incoming) [
    | inl i ↦ ground (arith, i)
    | inr o ↦
        bool_ext _ _ (λ c. ground (arith, c, o))
          (λ c. ground (arith, c, o, concerns_directed agent event true f a h))
  ]
  concerns-belongs agent event false f a h = elim (Bool-cases f.is_incoming) [
    | inl i ↦
        bool_ext _ _ (λ c. ground (arith, c, i))
          (λ c. ground (arith, c, i, concerns_directed agent event false f a h))
    | inr o ↦ ground (arith, o)
  ]

  -- Equal streams have the same flows, and a flow has one stream.
  pub belongs_same :
      (a b : Stream) (f : Flow)
      → same_stream p a b ≡ true
      → belongs p a f ≡ true
      → belongs p b f ≡ true
  unfolding belongs
  belongs_same a b f h k = ground (
    arith,
    h,
    k,
    same_trans p (some f.super_token_address) (some a.token) (some b.token),
    same_trans p (some f.entity) (some a.entity) (some b.entity),
  )

  pub same_stream_comm : (a b : Stream) → same_stream p a b ≡ same_stream p b a
  same_stream_comm a b = ground (
    arith,
    same_comm p (some a.token) (some b.token),
    same_comm p (some a.entity) (some b.entity),
  )

  pub belongs_both :
      (a b : Stream) (f : Flow)
      → belongs p a f ≡ true
      → belongs p b f ≡ true
      → same_stream p a b ≡ true
  unfolding belongs
  belongs_both a b f h k = ground (
    arith,
    h,
    k,
    same_comm p (some f.super_token_address) (some a.token),
    same_comm p (some f.entity) (some a.entity),
    same_trans p (some a.token) (some f.super_token_address) (some b.token),
    same_trans p (some a.entity) (some f.entity) (some b.entity),
  )

  pub belongs-clash :
      (a : Stream) (f g : Flow) → belongs p a f ≡ true → belongs p a g ≡ true → clash p f g ≡ true
  unfolding belongs clash
  belongs-clash a f g h k = ground (
    arith,
    h,
    k,
    same_comm p (some g.super_token_address) (some a.token),
    same_comm p (some g.entity) (some a.entity),
    same_trans p (some f.super_token_address) (some a.token) (some g.super_token_address),
    same_trans p (some f.entity) (some a.entity) (some g.entity),
  )

  pub apart_unheld :
      (a : Stream) (f : Flow) (fs : List Flow)
      → IsApart (clash p) f fs
      → belongs p a f ≡ true
      → All (λ g. belongs p a g ≡ false) fs
  apart_unheld a f [] h k = tt
  apart_unheld a f (g ∷ gs) h k = (
    elim (Bool-cases (belongs p a g)) [
      | inl both ↦ absurd (ground (arith, h.0, belongs-clash a f g k both))
      | inr other ↦ other
    ],
    apart_unheld a f gs h.1 k,
  )

  pub unique-IsAlone :
      (a : Stream) (fs : List Flow) → IsUnique (clash p) fs → IsAlone (belongs p a) fs
  unique-IsAlone a [] h = tt
  unique-IsAlone a (f ∷ fs) h = (λ k. apart_unheld a f fs h.0 k, unique-IsAlone a fs h.1)

  pub belongs-advance_flow :
      (event : FlowUpdated) (t : ℕ) (description : String) (a : Stream) (f : Flow)
      → belongs p a f ≡ true
      → belongs p a (advance_flow p event t description f) ≡ ltb_ℤ (pos 0) (value event.flow_rate)
  unfolding belongs advance_flow
  belongs-advance_flow event t description a f h = ground (arith, h)

  pub belongs_before :
      (event : FlowUpdated) (t : ℕ) (description : String) (a : Stream) (f : Flow)
      → belongs p a (advance_flow p event t description f) ≡ true
      → belongs p a f ≡ true
  unfolding belongs advance_flow
  belongs_before event t description a f h = ground (arith, h)
