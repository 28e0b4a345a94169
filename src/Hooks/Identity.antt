-- ===== src/Hooks/Identity.antt =====
-- app/src/providers/IdentityManager.js: the names of the badges, which the wallet resolves and changes.
pub mod Renaming
use superfluid_aragon_app.Prelude.{
  ℕ, String, Option, none, some, List, [], ◌∷◌, ◌++◌, get_elem?, remove_at, str_eq, if◌then◌else◌,
}
use superfluid_aragon_app.Js.{Result, ok, throw}
use superfluid_aragon_app.Packages.{Packages}

-- What the wallet knows of an address.
pub record Metadata : Type 0 where
  pub name : String

-- `useIdentity` of one badge, with the addresses that it has asked for and whose answers are to come.
pub record Badge : Type 0 where
  pub address : String
  pub name : Option String
  pub asked : List String

abbrev pub name_of : Option Metadata → Option String
name_of none = none
name_of (some metadata) = some metadata.name

unfoldable pub handle_name_change : Option Metadata → Badge → Badge
handle_name_change metadata badge = record badge { name = name_of metadata }

-- `resolveLocalIdentity(address).then(handleNameChange)`
unfoldable pub resolve_identity : Badge → Badge
resolve_identity badge = record badge { asked = badge.asked ++ badge.address ∷ [] }

unfoldable pub mount : String → Badge
unfolding resolve_identity
mount address = resolve_identity (record { address = address; name = none; asked = [] })

-- The effect for another address: the answers that are to come are not dropped.
unfoldable pub change_address : String → Badge → Badge
unfolding resolve_identity
change_address address badge = resolve_identity (record badge { address = address })

-- The answer to the question at `i`; a rejection leaves the name.
abbrev pub named : Option String → Result (Option Metadata) → Badge → Badge
named none answer badge = badge
named (some address) (ok metadata) badge = handle_name_change metadata badge
named (some address) (throw e) badge = badge

unfoldable pub resolved : ℕ → Result (Option Metadata) → Badge → Badge
unfolding handle_name_change
resolved i answer badge =
    named (get_elem? badge.asked i) answer (record badge { asked = remove_at badge.asked i })

module _ (p : Packages) where
  -- A badge's subscription to `updates$`.
  unfoldable pub on_update : String → Badge → Badge
  unfolding resolve_identity
  on_update updated_address badge =
      if str_eq (p.to_lower_case updated_address) (p.to_lower_case badge.address)
      then resolve_identity badge
      else badge

  abbrev pub updates_next : String → List Badge → List Badge
  updates_next address [] = []
  updates_next address (b ∷ bs) = on_update address b ∷ updates_next address bs

  -- Every badge hears of a change that the wallet accepts, and none of one that it rejects.
  unfoldable pub handle_modify_local_identity : String → Result (Unit {0}) → List Badge → List Badge
  unfolding on_update
  handle_modify_local_identity address (ok u) badges = updates_next address badges
  handle_modify_local_identity address (throw e) badges = badges
