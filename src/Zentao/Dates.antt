-- ===== src/Zentao/Dates.antt =====
-- internal/service/zentao/values.go: dates of records, and the windows that filter by them.
pub mod Windows
use zentao_mcp.Base.{
  Bool, true, false, not, ◌&&◌, ◌||◌, Option, none, some, ◌⊎◌, inl, inr, List, [], ◌∷◌,
  if◌then◌else◌, ◌≡◌, refl, arith, if_cases, Option-cases,
}
use zentao_mcp.Base.Text.{Text, codes, text_eq, trim_space, has_prefix}
use zentao_mcp.Json.{Value, str, Floats}
use zentao_mcp.Zentao.Values.{as_string}
use zentao_mcp.Base.Strings.{text_less}

abbrev pub empty_date_prefix : Text
empty_date_prefix = codes "0000-00-00"

abbrev pub zoned_layouts : List Text
zoned_layouts = codes "2006-01-02T15:04:05Z07:00" ∷ codes "2006-01-02T15:04:05.999999999Z07:00" ∷ []

abbrev pub local_layouts : List Text
local_layouts =
    codes "2006-01-02 15:04:05"
    ∷ codes "2006-01-02T15:04:05"
    ∷ codes "2006-01-02"
    ∷ codes "2006/01/02 15:04:05"
    ∷ []

abbrev pub day_layout : Text
day_layout = codes "2006-01-02"

-- What the code uses of package time, in the zone of the server.
pub record Calendar : Type 1 where
  pub Time : Type 0
  -- time.Parse(layout, s), then In(currentLocation())
  pub parse_zoned : (layout s : Text) → Option Time
  -- time.ParseInLocation(layout, s, currentLocation())
  pub parse_local : (layout s : Text) → Option Time
  -- time.Parse("2006-01", s)
  pub parse_month : Text → Option Time
  -- t.AddDate(0, 1, -1)
  pub last_day : Time → Time
  pub format : Time → (layout : Text) → Text

-- `errInvalidArgument`, with what it is about.
pub data InvalidArgument : Type 0 where
  bad_day : (name s : Text) → InvalidArgument
  bad_month : Text → InvalidArgument

module _ (fl : Floats) (cal : Calendar) where
  open fl use {F}
  open cal use {Time, parse_zoned, parse_local, parse_month, last_day, format}

  unfoldable pub first_parsed : (Text → Text → Option Time) → List Text → Text → Option Time
  first_parsed parse [] s = none
  first_parsed parse (layout ∷ layouts) s =
      let rest = first_parsed parse layouts s in
      elim (parse layout s) [ some t ↦ some t | none ↦ rest ]

  unfoldable pub parse_date : Value F → Option Time
  unfolding first_parsed
  parse_date v =
      let s = trim_space (as_string fl v) in
      if text_eq s [] || has_prefix s empty_date_prefix
      then none
      else elim (first_parsed parse_zoned zoned_layouts s) [
        | some t ↦ some t
        | none ↦ first_parsed parse_local local_layouts s
      ]

  -- A date in a layout, "" without one.
  unfoldable pub formatted : Text → Option Time → Text
  formatted layout none = []
  formatted layout (some t) = format t layout

  unfoldable pub date_only : Value F → Text
  unfolding parse_date formatted
  date_only v = formatted day_layout (parse_date v)

  unfoldable pub date_time : Value F → Text
  unfolding parse_date formatted
  date_time v = formatted (codes "2006-01-02 15:04:05") (parse_date v)

  unfoldable pub day_of : Text → Text → Option Time → InvalidArgument ⊎ Text
  day_of name s none = inl (bad_day name s)
  day_of name s (some t) = inr (format t day_layout)

  unfoldable pub normalize_day : (name s : Text) → InvalidArgument ⊎ Text
  unfolding parse_date day_of
  normalize_day name s =
      let t = trim_space s in if text_eq t [] then inr [] else day_of name t (parse_date (str t))

  unfoldable pub month_days : Option Time → Option (Text × Text)
  month_days none = none
  month_days (some t) = some (format t day_layout, format (last_day t) day_layout)

  unfoldable pub month_range : Text → Option (Text × Text)
  unfolding month_days
  month_range month = month_days (parse_month (trim_space month))

  unfoldable pub window_of : Text → Option (Text × Text) → InvalidArgument ⊎ (Text × Text)
  window_of month none = inl (bad_month month)
  window_of month (some w) = inr w

  unfoldable pub month_window : Text → InvalidArgument ⊎ (Text × Text)
  unfolding month_range window_of
  month_window month =
      let m = trim_space month in if text_eq m [] then inr ([], []) else window_of m (month_range m)

  -- `withinRange` with the date that was read.
  unfoldable pub date_within : (after before : Text) → Option Time → Bool
  date_within after before none = false
  date_within after before (some t) =
      let day = format t day_layout in
      if not (text_eq after []) && text_less day after
      then false
      else if not (text_eq before []) && text_less before day
      then false
      else true

  unfoldable pub within_range : Value F → (after before : Text) → Bool
  unfolding parse_date date_within
  within_range v after before =
      if text_eq after [] && text_eq before []
      then true
      else date_within after before (parse_date v)
