-- ===== src/Zentao/Scope/Agreement.antt =====
-- internal/service/zentao/client.go: the arguments of a tool and the scope that is chosen.
use zentao_mcp.Base.{
  ℕ, ◌≤◌, ◌<◌, ◌≡◌, refl, Bool, true, ◌&&◌, ◌||◌, ◌⊎◌, inl, inr, List, [], ◌∷◌, ◌++◌, ◌==◌, length,
  length-append, arith, All,
}
use zentao_mcp.Base.Int.{ℤ, pos, to_nat}
use zentao_mcp.Base.Text.{Text, codes, text_eq, text_eq_refl}
use zentao_mcp.Json.{Fields, Floats}
use zentao_mcp.Zentao.Values.{arg_string, arg_int}
use zentao_mcp.Zentao.Scope.{
  one_of, scope_aliases, Alias, normalize_scope, alias_value, scan_aliases, choose_scope, no_alias,
  scope_selector,
}
use zentao_mcp.Zentao.Scope.Choice.{
  canonical, fits_request, Chosen-elim, choose_scope-Chosen, fits_request-empty,
  fits_request-wanted, aliases-canonical, second,
}

-- Each alias is absent or names the scope and gives its id.
unfoldable pub fits_aliases :
    (lower : ℕ → ℕ) (fl : Floats) → List (Text × Text) → Fields fl.F → Text × ℤ → Bool
unfolding alias_value
fits_aliases lower fl [] args r = true
fits_aliases lower fl ((name, scope) ∷ rest) args r =
    let v = alias_value lower fl name args in
    (v == 0 || (text_eq scope r.0 && v == to_nat r.1)) && fits_aliases lower fl rest args r

module _ (lower : ℕ → ℕ) (fl : Floats) (args : Fields fl.F) where
  -- The state after an alias that gives an id.
  abbrev noted : Text → Text → Alias → Alias
  noted name scope a = record {
    scope = scope;
    id = alias_value lower fl name args;
    seen = a.seen ++ name ∷ [];
  }

  -- Of the aliases that are left none gives an id, or one more is seen.
  scan_aliases-grows :
      (rest : List (Text × Text)) (a : Alias)
      → (length a.seen < length (scan_aliases lower fl rest args a).seen)
        ⊎ ((scan_aliases lower fl rest args a ≡ a)
            × (fits_aliases lower fl rest args ([], pos 0) ≡ true))
  unfolding scan_aliases fits_aliases
  scan_aliases-grows [] a = inr (refl, refl)
  scan_aliases-grows ((name, scope) ∷ rest) a = ground (
    arith,
    scan_aliases-grows rest a,
    scan_aliases-grows rest (noted name scope a),
    length-append a.seen (name ∷ []),
  )

  fits_aliases-none :
      (rest : List (Text × Text)) (r : Text × ℤ)
      → fits_aliases lower fl rest args ([], pos 0) ≡ true
      → fits_aliases lower fl rest args r ≡ true
  unfolding fits_aliases to_nat
  fits_aliases-none [] r h = refl
  fits_aliases-none ((name, scope) ∷ rest) r h = ground (arith, fits_aliases-none rest r)

  scan_aliases-positive :
      (rest : List (Text × Text)) (a : Alias)
      → 0 < a.id
      → 0 < (scan_aliases lower fl rest args a).id
  unfolding scan_aliases
  scan_aliases-positive [] a h = h
  scan_aliases-positive ((name, scope) ∷ rest) a h =
      ground
        (arith, scan_aliases-positive rest a h, scan_aliases-positive rest (noted name scope a))

  scan_aliases-none :
      (rest : List (Text × Text)) (a : Alias)
      → (scan_aliases lower fl rest args a).id ≡ 0
      → fits_aliases lower fl rest args ([], pos 0) ≡ true
  unfolding scan_aliases fits_aliases
  scan_aliases-none [] a h = refl
  scan_aliases-none ((name, scope) ∷ rest) a h =
      ground (arith, scan_aliases-none rest a, scan_aliases-positive rest (noted name scope a))

  scan_aliases-one :
      (rest : List (Text × Text)) (a : Alias)
      → length a.seen ≡ 0
      → length (scan_aliases lower fl rest args a).seen ≤ 1
      → fits_aliases lower fl rest args
          ((scan_aliases lower fl rest args a).scope, pos (scan_aliases lower fl rest args a).id)
        ≡ true
  unfolding scan_aliases fits_aliases to_nat
  scan_aliases-one [] a z h = refl
  scan_aliases-one ((name, scope) ∷ rest) a z h = ground (
    arith,
    scan_aliases-one rest a z,
    scan_aliases-grows rest (noted name scope a),
    length-append a.seen (name ∷ []),
    text_eq_refl scope,
    fits_aliases-none rest (scope, pos (alias_value lower fl name args)),
  )

  scan_aliases-canonical :
      (rest : List (Text × Text)) (a : Alias)
      → All (λ e. one_of canonical e.1 ≡ true) rest
      → (a.id ≡ 0) ⊎ (one_of canonical a.scope ≡ true)
      → ((scan_aliases lower fl rest args a).id ≡ 0)
        ⊎ (one_of canonical (scan_aliases lower fl rest args a).scope ≡ true)
  unfolding scan_aliases
  scan_aliases-canonical [] a all h = h
  scan_aliases-canonical ((name, scope) ∷ rest) a all h = ground (
    arith,
    all.0,
    scan_aliases-canonical rest a all.1 h,
    scan_aliases-canonical rest (noted name scope a) all.1,
  )

  -- What `scopeSelector` promises of a choice.
  abbrev pub Agreed : Text × ℤ → Type 0
  Agreed r =
      (fits_request (normalize_scope lower (arg_string fl (codes "scope" ∷ []) args))
          (arg_int fl (codes "scopeID") (pos 0) args) r
        ≡ true)
      × (fits_aliases lower fl scope_aliases args r ≡ true)
      × ((r ≡ ([], pos 0)) ⊎ (one_of canonical r.0 ≡ true))

  -- The scope that `scopeSelector` chooses never disagrees with an argument: `scope`, `scopeID`
  -- and each of the aliases `productID`, `projectID`, `executionID` is absent or names the chosen
  -- scope and id. The scope is one of the three, or there is neither a scope nor an id.
  pub scope_selector-Agreed :
      (default_scope : Text) (r : Text × ℤ)
      → scope_selector lower fl args default_scope ≡ inr r
      → Agreed r
  unfolding scope_selector
  scope_selector-Agreed default_scope r e =
      let scope : Text = normalize_scope lower (arg_string fl (codes "scope" ∷ []) args) in
      let id : ℤ = arg_int fl (codes "scopeID") (pos 0) args in
      let a : Alias = scan_aliases lower fl scope_aliases args no_alias in
      Chosen-elim Agreed (choose_scope scope id default_scope a) r
        (choose_scope-Chosen scope id default_scope a Agreed
          (λ few given fits. (
            fits,
            scan_aliases-one scope_aliases no_alias refl few,
            inr (
                second given
                  (scan_aliases-canonical scope_aliases no_alias aliases-canonical (inl refl))),
          ))
          (λ z empty zero_id. (
            fits_request-empty scope id default_scope empty zero_id,
            scan_aliases-none scope_aliases no_alias z,
            inl refl,
          ))
          (λ z ok. (
            fits_request-wanted scope id default_scope,
            fits_aliases-none scope_aliases _ (scan_aliases-none scope_aliases no_alias z),
            inr ok,
          )))
        e
