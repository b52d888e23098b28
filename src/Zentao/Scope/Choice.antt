-- ===== src/Zentao/Scope/Choice.antt =====
-- internal/service/zentao/client.go: the choice of a scope from the arguments.
use zentao_mcp.Base.{
  ℕ, ◌≤◌, ◌<◌, ◌≡◌, refl, Bool, true, false, not, ◌&&◌, ◌||◌, ◌⊎◌, inl, inr, List, [], ◌∷◌, ltb,
  ◌==◌, if◌then◌else◌, length, arith, if_cases, All,
}
use zentao_mcp.Base.Int.{ℤ, pos, negsuc, to_nat}
use zentao_mcp.Base.Text.{Text, text_eq, text_eq_refl}
use zentao_mcp.Zentao.Scope.{
  ScopeError, one_of, product, project, execution, scope_aliases, Alias, checked_scope, is_zero_int,
  choose_scope,
}
use mathlib.Core.Path.{subst}

abbrev pub canonical : List Text
canonical = product ∷ project ∷ execution ∷ []

-- A scope fits the arguments that were given for it: each is absent or the same.
unfoldable pub fits_request : Text → ℤ → Text × ℤ → Bool
fits_request scope id r =
    (text_eq scope [] || text_eq scope r.0) && (to_nat id == 0 || to_nat id == to_nat r.1)

no_conflict :
    (m n : ℕ) (b c : Bool)
    → (ltb 0 m && not (m == n)) ≡ false
    → (not b && not c) ≡ false
    → ((b || c) && (m == 0 || m == n)) ≡ true
no_conflict m n true c h k = ground arith
no_conflict m n false true h k = ground arith
no_conflict m n false false h k = absurd (ground arith)

-- A predicate on the choice, if there is one.
abbrev pub Chosen : (Text × ℤ → Type 0) → ScopeError ⊎ (Text × ℤ) → Type 0
Chosen P (inl e) = Unit
Chosen P (inr r) = P r

pub Chosen-elim :
    (P : Text × ℤ → Type 0) (x : ScopeError ⊎ (Text × ℤ)) (r : Text × ℤ)
    → Chosen P x
    → x ≡ inr r
    → P r
Chosen-elim P x r c e = subst (Chosen P) e c

-- The scope that is taken when no alias gives one.
abbrev pub wanted : Text → Text → Text
wanted scope default_scope = if text_eq scope [] then default_scope else scope

module _ (scope : Text) (id : ℤ) (default_scope : Text) (a : Alias) where
  -- The two ways to a choice.
  pub choose_scope-Chosen :
      (P : Text × ℤ → Type 0)
      → (length a.seen ≤ 1
          → 0 < a.id
          → fits_request scope id (a.scope, pos a.id) ≡ true
          → P (a.scope, pos a.id))
      → (a.id ≡ 0
          → text_eq (wanted scope default_scope) [] ≡ true
          → is_zero_int id ≡ true
          → P ([], pos 0))
      → (a.id ≡ 0
          → one_of canonical (wanted scope default_scope) ≡ true
          → P ((wanted scope default_scope), id))
      → Chosen P (choose_scope scope id default_scope a)
  unfolding choose_scope checked_scope fits_request to_nat
  choose_scope-Chosen P by_alias by_none by_scope =
      if_cases (Chosen P) (ltb 1 (length a.seen)) (λ many. tt)
        (λ few.
          if_cases (Chosen P) (ltb 0 a.id)
            (λ given.
              if_cases (Chosen P) (ltb 0 (to_nat id) && not (to_nat id == a.id)) (λ x. tt)
                (λ same_id.
                  if_cases (Chosen P) (not (text_eq scope []) && not (text_eq scope a.scope))
                    (λ x. tt)
                    (λ same_scope.
                      by_alias (ground arith) (ground arith)
                        (no_conflict (to_nat id) a.id _ _ same_id same_scope))))
            (λ none_given.
              if_cases (Chosen P) (text_eq (wanted scope default_scope) [] && is_zero_int id)
                (λ empty. by_none (ground arith) (ground arith) (ground arith))
                (λ x.
                  if_cases (Chosen P) (one_of canonical (wanted scope default_scope))
                    (λ ok. by_scope (ground arith) ok) (λ bad. tt))))

pub fits_request-empty :
    (scope : Text) (id : ℤ) (default_scope : Text)
    → text_eq (wanted scope default_scope) [] ≡ true
    → is_zero_int id ≡ true
    → fits_request scope id ([], pos 0) ≡ true
unfolding fits_request is_zero_int to_nat
fits_request-empty scope (pos n) default_scope e z = ground arith
fits_request-empty scope (negsuc n) default_scope e z = absurd (ground arith)

pub fits_request-wanted :
    (scope : Text) (id : ℤ) (default_scope : Text)
    → fits_request scope id (wanted scope default_scope, id) ≡ true
unfolding fits_request
fits_request-wanted scope id default_scope = ground (arith, text_eq_refl scope)

pub aliases-canonical : All (λ e. one_of canonical e.1 ≡ true) scope_aliases
unfolding one_of text_eq
aliases-canonical = (refl, (refl, (refl, tt)))

pub second : {n : ℕ} {b : Bool} → 0 < n → (n ≡ 0) ⊎ (b ≡ true) → b ≡ true
second p q = ground arith
