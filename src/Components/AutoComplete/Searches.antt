-- ===== src/Components/AutoComplete/Searches.antt =====
-- The list of the field after typing: the answers decide, in the order in which they arrive.
use Prim.Native.String.{count}
use superfluid_aragon_app.Prelude.{
  ◌≡◌, refl, ltb, String, false, List, [], str_eq, arith, ap, Bool-cases, inl, inr, str_eq_iff,
}
use superfluid_aragon_app.Js.Sort.{sort_onto}
use superfluid_aragon_app.Packages.{Packages}
use superfluid_aragon_app.Components.AutoComplete.{
  Identity, FieldState, handle_search, handle_change, field_effect, sort_alph_asc, answer, resolve,
}

long_is_not_empty : (t : String) → ltb (count t) 3 ≡ false → str_eq t "" ≡ false
long_is_not_empty t h = elim (Bool-cases (str_eq t "")) [
  | inl empty ↦ absurd (ground (arith, h, ap count ((str_eq_iff t "").0 empty)))
  | inr filled ↦ filled
]

-- A value is typed, and the effect runs after it.
abbrev pub type_value : String → FieldState → FieldState
type_value value s = field_effect (handle_change value s)

module _ (p : Packages) where
  -- Two values are typed one after the other, both of at least three characters, where no search waits.
  -- With the answers in the order of the searches, the list is that of the value that was typed last.
  -- With the second answer first, the field shows the last value with the list of the one before.
  pub typed_twice :
      (s : FieldState) (first second : String) (first_found second_found : List Identity)
      → s.pending ≡ []
      → ltb (count first) 3 ≡ false
      → ltb (count second) 3 ≡ false
      → let typed = type_value second (type_value first s) in
        let in_order = resolve p 0 second_found (resolve p 0 first_found typed) in
        let overtaken = resolve p 0 first_found (resolve p 1 second_found typed) in
        (in_order.items ≡ sort_onto (sort_alph_asc p) [] second_found)
        × (in_order.search_term ≡ second)
        × (overtaken.items ≡ sort_onto (sort_alph_asc p) [] first_found)
        × (overtaken.search_term ≡ second)
        × (overtaken.value ≡ second)
        × (overtaken.pending ≡ [])
  unfolding handle_change handle_search field_effect resolve answer
  typed_twice s first second first_found second_found none_waits long long' =
      rw (none_waits, long, long', long_is_not_empty first long, long_is_not_empty second long')
        (refl, refl, refl, refl, refl, refl)
