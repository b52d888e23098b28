-- ===== src/Zentao/Values/Aliases.antt =====
-- internal/service/zentao/values.go: `field` over the names that a column may have.
use zentao_mcp.Base.{
  Bool, true, false, not, ◌&&◌, Option, none, some, List, [], ◌∷◌, ◌≡◌, refl, arith, if◌then◌else◌,
}
use zentao_mcp.Base.Text.{Text}
use zentao_mcp.Json.{Value, null, Fields, Floats, at}
use zentao_mcp.Zentao.Values.{is_null, is_blank, field_from, field}

module _ (fl : Floats) where
  open fl use {F}

  -- A value that is there and holds something.
  unfoldable pub is_populated : Value F → Bool
  is_populated v = not (is_null fl v) && not (is_blank fl v)

  -- The first of the columns with a property, null if none has it.
  unfoldable pub first_with : (Value F → Bool) → List Text → Fields F → Option (Value F)
  first_with good [] m = none
  first_with good (n ∷ ns) m =
      let rest = first_with good ns m in if good (at n m) then some (at n m) else rest

  unfoldable pub or_else : Option (Value F) → Value F → Value F
  or_else none d = d
  or_else (some v) d = v

  -- A turn of the loop of `field`, with its tests as variables.
  later :
      (nv bv nf nw : Bool) (P Q : Option (Value F)) (v fb absent blank : Value F)
      → nw ≡ (if nf then nv else nf)
      → absent ≡ or_else P (if nf then or_else Q fb else fb)
      → blank ≡ or_else P (if nw then or_else Q (if nf then v else fb) else (if nf then v else fb))
      → (if nv then absent else if bv then blank else v)
        ≡ or_else
            (if not nv && not bv then some v else P)
            (if nf then or_else (if not nv then some v else Q) fb else fb)
  unfolding or_else
  later true bv nf nw P Q v fb absent blank n a b = a
  later false false nf nw P Q v fb absent blank n a b = refl
  later false true true true P Q v fb absent blank n a b = absurd (ground arith)
  later false true true false P Q v fb absent blank n a b = b
  later false true false true P Q v fb absent blank n a b = absurd (ground arith)
  later false true false false P Q v fb absent blank n a b = b

  field_from_lem :
      (fallback : Value F) (names : List Text) (m : Fields F)
      → field_from fl fallback names m
        ≡ or_else (first_with is_populated names m) (
            if is_null fl fallback
            then or_else (first_with (λ v. not (is_null fl v)) names m) fallback
            else fallback)
  unfolding field_from first_with or_else is_populated
  field_from_lem fallback [] m = ground arith
  field_from_lem fallback (n ∷ ns) m =
      let w : Value F = if is_null fl fallback then at n m else fallback in
      later (is_null fl (at n m)) (is_blank fl (at n m)) (is_null fl fallback) (is_null fl w)
        (first_with is_populated ns m) (first_with (λ v. not (is_null fl v)) ns m) (at n m) fallback
        _ _ (is_null-if (is_null fl fallback) refl) (field_from_lem fallback ns m)
        (field_from_lem w ns m)
    where
      is_null-if :
          (b : Bool)
          → is_null fl fallback ≡ b
          → is_null fl (if b then at n m else fallback) ≡ (if b then is_null fl (at n m) else b)
      is_null-if true e = refl
      is_null-if false e = e

  -- `field` returns the first of the named columns that is populated; if none is, the first that
  -- is there at all; and else null. So an empty alias never hides a populated one.
  pub field_lem :
      (names : List Text) (m : Fields F)
      → field fl names m
        ≡ or_else
            (first_with is_populated names m)
            (or_else (first_with (λ v. not (is_null fl v)) names m) null)
  unfolding field is_null
  field_lem names m = field_from_lem null names m
