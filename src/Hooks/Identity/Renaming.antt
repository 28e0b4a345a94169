-- ===== src/Hooks/Identity/Renaming.antt =====
-- What the badges show after a change of a name, and after a change of their address.
use superfluid_aragon_app.Prelude.{
  ◌≡◌, refl, ap, String, Option, List, [], ◌∷◌, All, str_eq, if◌then◌else◌, Bool-cases, inl, inr,
  sym,
}
use superfluid_aragon_app.Js.{Error, ok, throw}
use superfluid_aragon_app.Packages.{Packages}
use superfluid_aragon_app.Hooks.Identity.{
  Metadata, Badge, name_of, resolve_identity, mount, change_address, resolved, on_update,
  handle_modify_local_identity, handle_name_change,
}

-- The names that the wallet has for the addresses.
abbrev pub Wallet : Type 0
Wallet = String → Option Metadata

-- The wallet answers a badge that has asked for one address.
abbrev pub answer_one : Wallet → Badge → Badge
answer_one wallet badge = resolved 0 (ok (wallet badge.address)) badge

abbrev pub answer_each : Wallet → List Badge → List Badge
answer_each wallet [] = []
answer_each wallet (b ∷ bs) = answer_one wallet b ∷ answer_each wallet bs

-- No answer is to come.
abbrev pub IsResolved : Badge → Type 0
IsResolved badge = badge.asked ≡ []

module _ (p : Packages) where
  abbrev pub renamed : Wallet → String → Badge → Badge
  renamed wallet address badge =
      if str_eq (p.to_lower_case address) (p.to_lower_case badge.address)
      then record badge { name = name_of (wallet badge.address) }
      else badge

  abbrev pub rename_each : Wallet → String → List Badge → List Badge
  rename_each wallet address [] = []
  rename_each wallet address (b ∷ bs) = renamed wallet address b ∷ rename_each wallet address bs

  answer_one-on_update :
      (wallet : Wallet) (address : String) (b : Badge)
      → IsResolved b
      → answer_one wallet (on_update p address b) ≡ renamed wallet address b
  unfolding on_update resolved resolve_identity handle_name_change
  answer_one-on_update wallet address b h =
      elim (Bool-cases (str_eq (p.to_lower_case address) (p.to_lower_case b.address))) [
        | inl same ↦ simp (same, h) refl
        | inr other ↦ simp (other, h) (ap (λ a. record b { asked = a }) (sym h))
      ]

  accepted_shown :
      (wallet : Wallet) (address : String) (badges : List Badge)
      → All IsResolved badges
      → (answer_each wallet (handle_modify_local_identity p address (ok tt) badges)
          ≡ rename_each wallet address badges)
  unfolding handle_modify_local_identity
  accepted_shown wallet address [] h = refl
  accepted_shown wallet address (b ∷ bs) h =
      rw (answer_one-on_update wallet address b h.0, accepted_shown wallet address bs h.1) refl

  -- A change of a name that the wallet accepts is shown, once it answers, by exactly the badges of that
  -- address, in whatever case it is written; one that it rejects changes nothing.
  pub modification_shown :
      (wallet : Wallet) (address : String) (badges : List Badge) (e : Error)
      → All IsResolved badges
      → (answer_each wallet (handle_modify_local_identity p address (ok tt) badges)
          ≡ rename_each wallet address badges)
        × (handle_modify_local_identity p address (throw e) badges ≡ badges)
  unfolding handle_modify_local_identity
  modification_shown wallet address badges e h = (accepted_shown wallet address badges h, refl)

-- A badge whose address changes before the wallet has answered for the first one shows the name of the
-- address where the answers come in order, and the name of the first address where they do not.
pub stale_name :
    (first second : String) (first_found second_found : Option Metadata)
    → let changed = change_address second (mount first) in
      let in_order = resolved 0 (ok second_found) (resolved 0 (ok first_found) changed) in
      let overtaken = resolved 0 (ok first_found) (resolved 1 (ok second_found) changed) in
      (in_order.name ≡ name_of second_found)
      × (overtaken.name ≡ name_of first_found)
      × (overtaken.address ≡ second)
      × (overtaken.asked ≡ [])
unfolding change_address mount resolved resolve_identity handle_name_change
stale_name first second first_found second_found = (refl, refl, refl, refl)
