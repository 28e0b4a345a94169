-- ===== src/Forms/Selector/Settled.antt =====
-- The selector at rest: what is left to fetch once every fetch is answered, and what two choices come to.
use superfluid_aragon_app.Prelude.{
  ℕ, ℤ, ◌≡◌, refl, String, Bool, true, false, Option, none, some, List, [], ◌∷◌, All, get_elem?,
  remove_at, arith, Bool-cases, inl, inr, subst, sym, All-append, All-remove_at, All-get_elem?,
  remove_at-absent, zero, suc, ◌+◌, ◌<◌, length, ◌∙◌, ap,
}
use superfluid_aragon_app.Js.{Result, ok, throw, is_ok, is_ok-eq}
use superfluid_aragon_app.Packages.{Packages}
use superfluid_aragon_app.Chain.{App, Chain}
use superfluid_aragon_app.Helpers.Network.{Network}
use superfluid_aragon_app.Forms.Selector.{
  SelectedToken, TokenItem, fetch_token_data, selector_effect,
}
use superfluid_aragon_app.Forms.Selector.Fetching.{else_some, fetched_is_read, idle}
use superfluid_aragon_app.Forms.Selector.Renders.{
  SelectorState, effect_of, after_effect, started, first_render, choose_item, type_address,
  set_token, connect, given, fetched,
}

-- A fetch that is not rejected and ends the loading.
abbrev IsRead : Result SelectedToken → Type 0
IsRead (ok token) = token.loading_data ≡ false
IsRead (throw e) = ⊥

get_elem?-under : {A : Type 0} (xs : List A) (i : ℕ) → i < length xs → get_elem? xs i ≡ none → ⊥
get_elem?-under [] i h e = ground (arith, h)
get_elem?-under (x ∷ xs) zero h e = ground (arith, e)
get_elem?-under (x ∷ xs) (suc i) h e = get_elem?-under xs i (omega (arith, h)) e

length-remove_at :
    {A : Type 0} (xs : List A) (i : ℕ) → i < length xs → length (remove_at xs i) + 1 ≡ length xs
length-remove_at [] i h = absurd (ground (arith, h))
length-remove_at (x ∷ xs) zero h = omega arith
length-remove_at (x ∷ xs) (suc i) h = ground (arith, length-remove_at xs i (omega (arith, h)))

module _ (p : Packages) (app : App) (chain : Chain) (network : Network)
    (validate_token : String → Bool) (process_custom_token : String → Result String)
    (load_user_balance : Bool) where
  pub given_read :
      (s : SelectorState) (token : SelectedToken)
      → token.loading_data ≡ false
      → given p app chain network validate_token process_custom_token load_user_balance
          (some (ok token))
          s
        ≡ record s { selected_token = token }
  unfolding after_effect
  given_read s token h =
      ap
        (started p app chain network validate_token process_custom_token load_user_balance
          (record s { selected_token = token }))
        (idle p app chain network validate_token process_custom_token load_user_balance
          s.custom_token_address s.connected_account token h)

  -- Every fetch under way ends the loading.
  record IsSettling (s : SelectorState) : Type 0 where
    reads : All IsRead s.fetches

  started-IsSettling :
      (s : SelectorState) (o : Option (Result SelectedToken))
      → effect_of p app chain network validate_token process_custom_token load_user_balance s ≡ o
      → All IsRead s.fetches
      → ((r : Result SelectedToken) → o ≡ some r → IsRead r)
      → IsSettling
          (started p app chain network validate_token process_custom_token load_user_balance s o)
  started-IsSettling s none e h k = record { reads = h }
  started-IsSettling s (some r) e h k = record {
    reads = All-append IsRead s.fetches (r ∷ []) h (k r refl, tt);
  }

  -- What the selector goes through: a choice in the drop-down, an address that is typed, another token or
  -- account, and the answer of a fetch.
  pub data Moves (s : SelectorState) : SelectorState → Type 0 where
    chooses :
        (tokens : List TokenItem) (allow_custom_token : Bool) (index : ℤ)
        → Moves s (
            choose_item p app chain network validate_token process_custom_token load_user_balance
              tokens allow_custom_token index s)
    types :
        (value : String)
        → Moves s (
            type_address p app chain network validate_token process_custom_token load_user_balance
              value s)
    sets :
        (token : SelectedToken)
        → Moves s (
            set_token p app chain network validate_token process_custom_token load_user_balance
              token s)
    connects :
        (account : Option String)
        → Moves s (
            connect p app chain network validate_token process_custom_token load_user_balance
              account s)
    answers :
        (i : ℕ)
        → Moves s
            (fetched p app chain network validate_token process_custom_token load_user_balance i s)

  pub data History : SelectorState → Type 0 where
    shown :
        (account : Option String)
        → History (
            first_render p app chain network validate_token process_custom_token load_user_balance
              account)
    moved : {s t : SelectorState} → History s → Moves s t → History t

  module _
      (processes : (a : String)
        → validate_token a ≡ true
        → is_ok (process_custom_token a) ≡ true) where
    is_answered :
        (a : String) (token : SelectedToken) (holder : String) (custom : Bool)
        → is_ok (
            fetch_token_data p app chain network validate_token process_custom_token
              load_user_balance a token holder custom)
          ≡ true
    unfolding fetch_token_data
    is_answered a token holder true = elim (Bool-cases (validate_token a)) [
      | inl valid ↦
          let (processed, answered) = is_ok-eq (process_custom_token a) (processes a valid) in
          rw (valid, answered) refl
      | inr refused ↦ ground (arith, refused)
    ]
    is_answered a token holder false = refl

    fetch-IsRead :
        (a : String) (token : SelectedToken) (holder : String) (custom : Bool)
        → IsRead (
            fetch_token_data p app chain network validate_token process_custom_token
              load_user_balance a token holder custom)
    fetch-IsRead a token holder custom =
        by_result
          (fetch_token_data p app chain network validate_token process_custom_token
            load_user_balance a token holder custom)
          refl
      where
        by_result :
            (r : Result SelectedToken)
            → fetch_token_data p app chain network validate_token process_custom_token
                load_user_balance a token holder custom
              ≡ r
            → IsRead r
        by_result (ok t) e =
            fetched_is_read p app chain network validate_token process_custom_token
              load_user_balance a token holder custom e
        by_result (throw x) e = absurd (ground (arith, is_answered a token holder custom, e))

    effect-IsRead :
        (custom_address : String) (account : Option String) (token : SelectedToken)
        (r : Result SelectedToken)
        → selector_effect p app chain network validate_token process_custom_token load_user_balance
            custom_address account token
          ≡ some r
        → IsRead r
    unfolding selector_effect
    effect-IsRead custom_address none token r e = absurd (ground (arith, e))
    effect-IsRead custom_address (some a) token r e =
        subst IsRead (else_some _ _ e) (fetch-IsRead _ token a _)

    after_effect-IsSettling :
        (s : SelectorState)
        → All IsRead s.fetches
        → IsSettling (
            after_effect p app chain network validate_token process_custom_token load_user_balance
              s)
    unfolding after_effect
    after_effect-IsSettling s h =
        started-IsSettling s _ refl h
          (effect-IsRead s.custom_token_address s.connected_account s.selected_token)

    fetched-IsSettling :
        (i : ℕ) (s : SelectorState)
        → IsSettling s
        → IsSettling
            (fetched p app chain network validate_token process_custom_token load_user_balance i s)
    unfolding fetched
    fetched-IsSettling i s h = by_fetch (get_elem? s.fetches i) refl
      where
        by_fetch :
            (o : Option (Result SelectedToken))
            → get_elem? s.fetches i ≡ o
            → IsSettling (
                given p app chain network validate_token process_custom_token load_user_balance o
                  (record s { fetches = remove_at s.fetches i }))
        by_fetch none e =
            subst (λ fs. IsSettling (record s { fetches = fs }))
              (sym (remove_at-absent s.fetches i e)) h
        by_fetch (some (ok token)) e =
            after_effect-IsSettling
              (record s { fetches = remove_at s.fetches i; selected_token = token })
              (All-remove_at IsRead s.fetches i h.reads)
        by_fetch (some (throw x)) e = absurd (All-get_elem? IsRead s.fetches i h.reads e)

    History-IsSettling : {s : SelectorState} → History s → IsSettling s
    unfolding choose_item type_address set_token connect first_render
    History-IsSettling (shown account) = after_effect-IsSettling _ tt
    History-IsSettling (moved {s} h (chooses tokens allow index)) =
        after_effect-IsSettling _ (History-IsSettling h).reads
    History-IsSettling (moved {s} h (types value)) =
        after_effect-IsSettling _ (History-IsSettling h).reads
    History-IsSettling (moved {s} h (sets token)) =
        after_effect-IsSettling _ (History-IsSettling h).reads
    History-IsSettling (moved {s} h (connects account)) =
        after_effect-IsSettling _ (History-IsSettling h).reads
    History-IsSettling (moved {s} h (answers i)) = fetched-IsSettling i s (History-IsSettling h)

    fetched-takes :
        (i : ℕ) (s : SelectorState)
        → All IsRead s.fetches
        → i < length s.fetches
        → let t =
            fetched p app chain network validate_token process_custom_token load_user_balance i s in
          (t.fetches ≡ remove_at s.fetches i) × (t.selected_token.loading_data ≡ false)
    unfolding fetched
    fetched-takes i s reads under = by_fetch (get_elem? s.fetches i) refl
      where
        by_fetch :
            (o : Option (Result SelectedToken))
            → get_elem? s.fetches i ≡ o
            → let t =
                given p app chain network validate_token process_custom_token load_user_balance o
                  (record s { fetches = remove_at s.fetches i }) in
              (t.fetches ≡ remove_at s.fetches i) × (t.selected_token.loading_data ≡ false)
        by_fetch none e = absurd (get_elem?-under s.fetches i under e)
        by_fetch (some (ok token)) e =
            let read = All-get_elem? IsRead s.fetches i reads e in
            let stays = given_read (record s { fetches = remove_at s.fetches i }) token read in
            (ap (λ x. x.fetches) stays, ap (λ x. x.selected_token.loading_data) stays ∙ read)
        by_fetch (some (throw x)) e = absurd (All-get_elem? IsRead s.fetches i reads e)

    -- Some of the fetches that are under way are answered, in any order, `n` of them after the first.
    pub data Answered (s : SelectorState) : ℕ → SelectorState → Type 0 where
      one :
          (i : ℕ)
          → i < length s.fetches
          → Answered s 0 (
              fetched p app chain network validate_token process_custom_token load_user_balance i s)
      more :
          {n : ℕ} {t : SelectorState}
          → Answered s n t
          → (i : ℕ) → i < length t.fetches
          → Answered s (suc n) (
              fetched p app chain network validate_token process_custom_token load_user_balance i t)

    Answered-takes :
        {s t : SelectorState} {n : ℕ}
        → IsSettling s
        → Answered s n t
        → IsSettling t
          × (length t.fetches + suc n ≡ length s.fetches)
          × (t.selected_token.loading_data ≡ false)
    Answered-takes {s} h (one i under) =
        let (left, read) = fetched-takes i s h.reads under in
        (
          fetched-IsSettling i s h,
          omega (arith, ap length left, length-remove_at s.fetches i under),
          read,
        )
    Answered-takes {s} h (more {t = t} rest i under) =
        let (settling, counted, _) = Answered-takes h rest in
        let (left, read) = fetched-takes i t settling.reads under in
        (
          fetched-IsSettling i t settling,
          omega (arith, ap length left, length-remove_at t.fetches i under, counted),
          read,
        )

    -- However choices, typed addresses, other tokens, accounts and answers follow each other, the selector
    -- settles: each answer of a fetch, in whatever order they come, takes that fetch away, ends the
    -- loading of the token that is shown, and starts no other fetch, so that the effect has nothing to do.
    pub History-IsSettled :
        {s t : SelectorState} {n : ℕ}
        → History s
        → Answered s n t
        → (length t.fetches + suc n ≡ length s.fetches)
          × (t.selected_token.loading_data ≡ false)
          × (effect_of p app chain network validate_token process_custom_token load_user_balance t
              ≡ none)
    History-IsSettled {t = t} h answered =
        let (settling, counted, read) = Answered-takes (History-IsSettling h) answered in
        (
          counted,
          read,
          idle p app chain network validate_token process_custom_token load_user_balance
              t.custom_token_address t.connected_account t.selected_token read,
        )
