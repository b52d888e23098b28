-- ===== src/Auth/Context.antt =====
-- internal/middleware/auth_context.go and auth_handler.go: what a request carries of its caller.
use zentao_mcp.Base.{Bool, true, false, not, ◌||◌, Option, none, some, [], ◌∷◌, if◌then◌else◌, ◌==◌}
use zentao_mcp.Base.Text.{Text, codes, text_eq}
use zentao_mcp.Auth.Manager.{Credentials}

-- The values of a `context.Context` under the three keys of the package.
pub record Context : Type 0 where
  pub authorization : Option Text
  pub from_token_header : Option Bool
  pub credentials : Option Credentials

-- The headers that the package reads; a header that is missing reads as "".
pub record Headers : Type 0 where
  pub zentao_account : Text
  pub zentao_password : Text
  pub token : Text
  pub authorization : Text

-- `strings.CutPrefix`, with the text itself where it has no such prefix.
unfoldable pub cut_prefix : Text → Text → Text → Text
cut_prefix whole s [] = s
cut_prefix whole [] (d ∷ p) = whole
cut_prefix whole (c ∷ s) (d ∷ p) = let rest = cut_prefix whole s p in if c == d then rest else whole

unfoldable pub with_authorization : Context → Text → Context
unfolding cut_prefix
with_authorization ctx token = record ctx {
  authorization = some (cut_prefix token token (codes "Bearer "));
}

unfoldable pub get_authorization : Context → Text
get_authorization ctx = elim ctx.authorization [ none ↦ [] | some t ↦ t ]

unfoldable pub with_authorization_source : Context → Bool → Context
with_authorization_source ctx b = record ctx { from_token_header = some b }

unfoldable pub is_from_token_header : Context → Bool
is_from_token_header ctx = elim ctx.from_token_header [ none ↦ false | some b ↦ b ]

unfoldable pub with_credentials : Context → Text → Text → Context
with_credentials ctx account password = record ctx {
  credentials = some (record { account = account; password = password });
}

unfoldable pub get_credentials : Context → Option Credentials
get_credentials ctx = elim ctx.credentials [
  | none ↦ none
  | some c ↦ if text_eq c.account [] || text_eq c.password [] then none else some c
]

abbrev pub is_set : Text → Bool
is_set s = not (text_eq s [])

-- What AuthorizationHandler does with a request: `none` is the bare 401, `some` the context with
-- which the wrapped handler is called.
unfoldable pub authorize : Headers → Context → Option Context
authorize h ctx =
    if is_set h.zentao_account || is_set h.zentao_password
    then (if text_eq h.zentao_account [] || text_eq h.zentao_password []
        then none
        else some (with_credentials ctx h.zentao_account h.zentao_password))
    else if is_set h.token
    then some (with_authorization_source (with_authorization ctx h.token) true)
    else if text_eq h.authorization []
    then none
    else some (with_authorization_source (with_authorization ctx h.authorization) false)
