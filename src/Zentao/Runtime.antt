-- ===== src/Zentao/Runtime.antt =====
-- What the package zentao uses of Go's libraries and the model takes as a parameter.
use zentao_mcp.Base.{ℕ, Bool}
use zentao_mcp.Base.Text.{Text}
use zentao_mcp.Json.{Floats}
use zentao_mcp.Zentao.Dates.{Calendar}

pub record Runtime : Type 1 where
  pub floats : Floats
  pub calendar : Calendar
  -- unicode.ToLower
  pub lower : ℕ → ℕ
  -- Two characters are equal under strings.EqualFold.
  pub same_letter : ℕ → ℕ → Bool
  -- html.UnescapeString
  pub unescape : Text → Text
  -- t.Before(u)
  pub is_earlier : calendar.Time → calendar.Time → Bool
  -- math.Round(end.Sub(start).Hours()/24*100) / 100
  pub rounded_days : (start stop : calendar.Time) → floats.F
  -- 0.0
  pub zero_float : floats.F
  -- sum + v
  pub add_float : (sum v : floats.F) → floats.F
  -- math.Round(sum/float64(n)*100) / 100
  pub rounded_mean : (sum : floats.F) → (n : ℕ) → floats.F
