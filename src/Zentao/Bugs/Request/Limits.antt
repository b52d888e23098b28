-- ===== src/Zentao/Bugs/Request/Limits.antt =====
-- internal/service/zentao/bugs.go: what a bug search request that is accepted looks like.
use zentao_mcp.Base.{ℕ, ◌≤◌, not, ◌&&◌, [], ◌∷◌, arith, if_cases, ◌⊎◌, inl, inr}
use zentao_mcp.Base.Int.{ℤ, pos, negsuc}
use zentao_mcp.Base.Results.{Accepts, >>=-Accepts, with_error-Accepts, with_error}
use zentao_mcp.Base.Text.{Text, codes, text_eq}
use zentao_mcp.Json.{Fields}
use zentao_mcp.Zentao.Values.{clamp, arg_string}
use zentao_mcp.Zentao.Dates.{normalize_day, month_window}
use zentao_mcp.Zentao.Dates.Windows.{IsDay, normalize_day-IsDay, month_window-IsDay}
use zentao_mcp.Zentao.Runtime.{Runtime}
use zentao_mcp.Zentao.Scope.{product, scope_selector}
use zentao_mcp.Zentao.Bugs.{
  BugSearchRequest, RequestError, bad_scope, bad_argument, max_bug_limit, max_bug_scan,
}
use zentao_mcp.Zentao.Bugs.Request.{
  day_argument, decoded_request, with_month, bug_search_request_from,
}

clamp_bounds : (z : ℤ) (lo hi : ℕ) → lo ≤ hi → (lo ≤ clamp z lo hi) × (clamp z lo hi ≤ hi)
unfolding clamp
clamp_bounds (pos n) lo hi h = ground arith
clamp_bounds (negsuc n) lo hi h = ground arith

module _ (rt : Runtime) where
  open rt use {floats, calendar, lower}

  -- The limits of a request are in range, and its boundaries are empty or days.
  pub record IsValid (req : BugSearchRequest) : Type 0 where
    pub limit : (1 ≤ req.limit) × (req.limit ≤ max_bug_limit)
    pub max_scan : (1 ≤ req.max_scan) × (req.max_scan ≤ max_bug_scan)
    pub opened_after : IsDay floats calendar req.opened_after
    pub opened_before : IsDay floats calendar req.opened_before
    pub resolved_after : IsDay floats calendar req.resolved_after
    pub resolved_before : IsDay floats calendar req.resolved_before

  day_argument-IsDay :
      (name : Text) (args : Fields floats.F)
      → Accepts (IsDay floats calendar) (day_argument rt name args)
  unfolding day_argument
  day_argument-IsDay name args =
      with_error-Accepts (IsDay floats calendar) bad_argument
        (normalize_day floats calendar name (arg_string floats (name ∷ []) args))
        (normalize_day-IsDay floats calendar name (arg_string floats (name ∷ []) args))

  decoded_request-IsValid :
      (args : Fields floats.F) (sel : Text × ℤ) (a b c d : Text)
      → IsDay floats calendar a
      → IsDay floats calendar b
      → IsDay floats calendar c
      → IsDay floats calendar d
      → IsValid (decoded_request rt args sel a b c d)
  unfolding decoded_request
  decoded_request-IsValid args sel a b c d ha hb hc hd = record {
    limit = clamp_bounds _ 1 max_bug_limit (omega arith);
    max_scan = clamp_bounds _ 1 max_bug_scan (omega arith);
    opened_after = ha;
    opened_before = hb;
    resolved_after = hc;
    resolved_before = hd;
  }

  with_month-IsValid :
      (w : Text × Text) (req : BugSearchRequest)
      → IsDay floats calendar w.0 × IsDay floats calendar w.1
      → IsValid req
      → IsValid (with_month rt w req)
  unfolding with_month
  with_month-IsValid w req h v =
      if_cases {A = BugSearchRequest} IsValid
        (not (text_eq w.0 []) && text_eq req.opened_after [] && text_eq req.opened_before [])
        {x = record req { opened_after = w.0; opened_before = w.1 }} {y = req}
        (λ e. record {
          limit = v.limit;
          max_scan = v.max_scan;
          opened_after = h.0;
          opened_before = h.1;
          resolved_after = v.resolved_after;
          resolved_before = v.resolved_before;
        })
        (λ e. v)

  -- A request that BugSearchRequestFrom accepts lists between 1 and 200 bugs, scans between 1 and
  -- 5000 records, and each of its four boundaries is empty or a day in the layout in which
  -- withinRange writes the days, also where a month stands for the opening days.
  pub bug_search_request_from-IsValid :
      (args : Fields floats.F) → Accepts IsValid (bug_search_request_from rt args)
  unfolding bug_search_request_from
  bug_search_request_from-IsValid args =
      >>=-Accepts (λ s. Unit {0}) IsValid
        (with_error bad_scope (scope_selector lower floats args product)) _ (anything _)
        (λ sel u.
          >>=-Accepts (IsDay floats calendar) IsValid (day_argument rt (codes "openedAfter") args) _
            (day_argument-IsDay _ args)
            (λ a ha.
              >>=-Accepts (IsDay floats calendar) IsValid
                (day_argument rt (codes "openedBefore") args) _ (day_argument-IsDay _ args)
                (λ b hb.
                  >>=-Accepts (IsDay floats calendar) IsValid
                    (day_argument rt (codes "resolvedAfter") args) _ (day_argument-IsDay _ args)
                    (λ c hc.
                      >>=-Accepts (IsDay floats calendar) IsValid
                        (day_argument rt (codes "resolvedBefore") args) _
                        (day_argument-IsDay _ args)
                        (λ d hd.
                          let req : BugSearchRequest = decoded_request rt args sel a b c d in
                          >>=-Accepts (λ w. IsDay floats calendar w.0 × IsDay floats calendar w.1)
                            IsValid
                            (with_error bad_argument (month_window floats calendar req.month)) _
                            (with_error-Accepts
                              (λ w. IsDay floats calendar w.0 × IsDay floats calendar w.1)
                              bad_argument (month_window floats calendar req.month)
                              (month_window-IsDay floats calendar req.month))
                            (λ w hw.
                              with_month-IsValid w req hw
                                (decoded_request-IsValid args sel a b c d ha hb hc hd)))))))
    where
      anything : {A : Type 0} (m : RequestError ⊎ A) → Accepts (λ s. Unit {0}) m
      anything (inl e) = tt
      anything (inr a) = tt
