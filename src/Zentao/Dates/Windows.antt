-- ===== src/Zentao/Dates/Windows.antt =====
-- internal/service/zentao/values.go: what a window of days lets through.
use zentao_mcp.Base.{
  Bool, true, false, Bool-cases, Option-cases, ◌∙◌, not, ◌&&◌, ◌||◌, Option, none, some, ◌⊎◌, inl,
  inr, [], ◌≡◌, refl, arith, if_cases, if◌then◌else◌,
}
use zentao_mcp.Base.Results.{Accepts}
use zentao_mcp.Base.Text.{Text, text_eq, trim_space}
use zentao_mcp.Json.{Value, str, Floats}
use zentao_mcp.Base.Strings.{text_less}
use zentao_mcp.Base.Strings.Order.{text_less_asym}
use zentao_mcp.Zentao.Dates.{
  month_days, month_range, window_of, month_window, Calendar, InvalidArgument, day_layout,
  parse_date, day_of, normalize_day, date_within, within_range,
}

module _ (fl : Floats) (cal : Calendar) where
  open fl use {F}
  open cal use {Time, parse_month, last_day, format}

  -- A day fits a boundary that is empty or not passed.
  unfoldable pub is_after : Text → Option Time → Bool
  is_after after none = text_eq after []
  is_after after (some t) = text_eq after [] || not (text_less (format t day_layout) after)

  unfoldable pub is_before : Text → Option Time → Bool
  is_before before none = text_eq before []
  is_before before (some t) = text_eq before [] || not (text_less before (format t day_layout))

  date_within_lem :
      (after before : Text) (d : Option Time)
      → (if text_eq after [] && text_eq before [] then true else date_within fl cal after before d)
        ≡ (is_after after d && is_before before d)
  unfolding date_within is_after is_before
  date_within_lem after before none = ground arith
  date_within_lem after before (some t) = ground arith

  -- A date is within a window exactly when its day fits both boundaries: an empty boundary lets
  -- every day through, and a record without a date passes only where both are empty.
  pub within_range_lem :
      (v : Value F) (after before : Text)
      → within_range fl cal v after before
        ≡ (is_after after (parse_date fl cal v) && is_before before (parse_date fl cal v))
  unfolding within_range
  within_range_lem v after before = date_within_lem after before (parse_date fl cal v)

  -- A boundary is empty, or a day in the layout in which withinRange writes the days.
  abbrev pub IsDay : Text → Type 0
  IsDay s = (s ≡ []) ⊎ ((t : Time) × (s ≡ format t day_layout))

  day_of-IsDay : (name s : Text) (d : Option Time) → Accepts IsDay (day_of fl cal name s d)
  unfolding day_of
  day_of-IsDay name s none = tt
  day_of-IsDay name s (some t) = inr (t, refl)

  pub normalize_day-IsDay : (name s : Text) → Accepts IsDay (normalize_day fl cal name s)
  unfolding normalize_day
  normalize_day-IsDay name s =
      if_cases {A = InvalidArgument ⊎ Text} (Accepts IsDay) (text_eq (trim_space s) [])
        (λ e. inl refl)
        (λ n. day_of-IsDay name (trim_space s) (parse_date fl cal (str (trim_space s))))

  -- A boundary that is given is rejected exactly if it is not a date, and otherwise becomes the day
  -- of that date; one that is not given is empty.
  abbrev pub Normalized : Text → InvalidArgument ⊎ Text → Type 0
  Normalized s (inl e) =
      (text_eq (trim_space s) [] ≡ false) × (parse_date fl cal (str (trim_space s)) ≡ none)
  Normalized s (inr day) =
      ((text_eq (trim_space s) [] ≡ true) × (day ≡ []))
      ⊎ ((text_eq (trim_space s) [] ≡ false)
          × ((t : Time) × (parse_date fl cal (str (trim_space s)) ≡ some t)
              × (day ≡ format t day_layout)
              × (within_range fl cal (str (trim_space s)) day day ≡ true)))

  text_less_irrefl : (s : Text) → text_less s s ≡ false
  text_less_irrefl s = elim (Bool-cases (text_less s s)) [
    | inl less ↦ text_less_asym s s less
    | inr same ↦ same
  ]

  own_day :
      (v : Value F) (t : Time)
      → parse_date fl cal v ≡ some t
      → let day = format t day_layout in within_range fl cal v day day ≡ true
  unfolding is_after is_before
  own_day v t h =
      let day = format t day_layout in
      within_range_lem v day day ∙ rw h (ground (arith, text_less_irrefl day))

  -- normalizeDay fails exactly for a boundary that is given and is not a date. One that is blank
  -- becomes the empty boundary, and any other the day of the date that it is, in the layout in which
  -- withinRange writes the days, so that as both boundaries it lets this date through.
  pub normalize_day_lem : (name s : Text) → Normalized s (normalize_day fl cal name s)
  unfolding normalize_day day_of
  normalize_day_lem name s =
      if_cases {A = InvalidArgument ⊎ Text} (Normalized s) (text_eq (trim_space s) [])
        (λ blank. inl (blank, refl))
        (λ given. elim (Option-cases (parse_date fl cal (str (trim_space s)))) [
          | inl bad ↦ rw (bad, day_of) (given, bad)
          | inr (t, good) ↦
              rw (good, day_of) (inr (given, (t, good, refl, own_day (str (trim_space s)) t good)))
        ])

  window_of-IsDay :
      (month : Text) (t : Option Time)
      → Accepts (λ w. IsDay w.0 × IsDay w.1) (window_of fl cal month (month_days fl cal t))
  unfolding window_of month_days
  window_of-IsDay month none = tt
  window_of-IsDay month (some t) = (inr (t, refl), inr (last_day t, refl))

  pub month_window-IsDay :
      (month : Text) → Accepts (λ w. IsDay w.0 × IsDay w.1) (month_window fl cal month)
  unfolding month_window month_range
  month_window-IsDay month =
      if_cases {A = InvalidArgument ⊎ (Text × Text)} (Accepts (λ w. IsDay w.0 × IsDay w.1))
        (text_eq (trim_space month) []) (λ e. (inl refl, inl refl))
        (λ n. window_of-IsDay (trim_space month) (parse_month (trim_space (trim_space month))))
