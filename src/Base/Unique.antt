-- ===== src/Base/Unique.antt =====
-- A Go map holds each key once. What `range` with `delete` leaves is then exact.
use zentao_mcp.Base.Tests.{if◌then◌else◌}
use zentao_mcp.Base.Text.{Text, text_eq_iff, text_eq_comm}
use zentao_mcp.Base.Assoc.{Assoc, lookup, insert, drop_where, lookup-insert}
use mathlib.Core.Path.{◌≡◌, refl}
use mathlib.Core.Bool.{Bool}
use mathlib.Core.Option.{Option, none, some}
use mathlib.Core.List.{[], ◌∷◌}
use native.Mathlib.Omega.{arith}

module _ {ℓ} {V : Type ℓ} where
  abbrev pub Unique : Assoc V → Type ℓ
  Unique [] = Unit
  Unique ((j, v) ∷ m) = (lookup j m ≡ none) × Unique m

  lookup-drop_where-none :
      (drop : Text → V → Bool) (k : Text) (m : Assoc V)
      → lookup k m ≡ none
      → lookup k (drop_where drop m) ≡ none
  unfolding lookup drop_where
  lookup-drop_where-none drop k [] h = refl
  lookup-drop_where-none drop k ((j, v) ∷ m) h = ground (arith, lookup-drop_where-none drop k m)

  abbrev pub survivor : (Text → V → Bool) → Text → Option V → Option V
  survivor drop k none = none
  survivor drop k (some v) = if drop k v then none else some v

  pub lookup-drop_where_eq :
      (drop : Text → V → Bool) (k : Text) (m : Assoc V)
      → Unique m
      → lookup k (drop_where drop m) ≡ survivor drop k (lookup k m)
  unfolding lookup drop_where
  lookup-drop_where_eq drop k [] u = refl
  lookup-drop_where_eq drop k ((j, v) ∷ m) u = ground (
    arith,
    text_eq_iff j k,
    lookup-drop_where-none drop j m u.0,
    lookup-drop_where_eq drop k m u.1,
  )

  pub Unique-drop_where :
      (drop : Text → V → Bool) (m : Assoc V) → Unique m → Unique (drop_where drop m)
  unfolding drop_where
  Unique-drop_where drop [] u = tt
  Unique-drop_where drop ((j, v) ∷ m) u =
      ground (arith, Unique-drop_where drop m u.1, lookup-drop_where-none drop j m u.0)

  pub Unique-insert : (k : Text) (v : V) (m : Assoc V) → Unique m → Unique (insert k v m)
  unfolding insert lookup
  Unique-insert k v [] u = (refl, tt)
  Unique-insert k v ((j, w) ∷ m) u =
      ground
        (arith, text_eq_iff j k, text_eq_comm j k, lookup-insert k j v m, Unique-insert k v m u.1)
