-- ===== src/Zentao/Insights/Counts.antt =====
-- internal/service/zentao/analysis.go: the numbers that actionInsights counts.
use zentao_mcp.Base.{
  ℕ, suc, ◌+◌, ◌≤◌, ◌≡◌, refl, ap, ◌&&◌, inl, inr, Option, none, some, Bool-cases, Bool, false,
  List, [], ◌∷◌, ◌++◌, arith, if◌then◌else◌, if_cases, length, length-append,
}
use mathlib.Core.Path.{subst}
use zentao_mcp.Base.Text.{Text, codes, text_eq, text_eq_iff}
use zentao_mcp.Json.{Value, null, bool, float, int, str, arr, obj, Fields}
use zentao_mcp.Zentao.Values.{field}
use zentao_mcp.Zentao.Arguments.{to_float}
use zentao_mcp.Zentao.Runtime.{Runtime}
use zentao_mcp.Zentao.Insights.{
  TimelineEntry, Insights, raw_actions, timeline_entry, count_action, add_comment, append_score,
  take_entry, take_action, take_actions, no_insights, action_insights,
}

exclusive : (name s t : Text) → text_eq s t ≡ false → (text_eq name s && text_eq name t) ≡ false
exclusive name s t d = elim (Bool-cases (text_eq name s)) [
  | inl h ↦
      let e : name ≡ s = (text_eq_iff name s).0 h in
      let n : text_eq name t ≡ false = rw e d in ground (arith, n)
  | inr h ↦ ground (arith, h)
]

-- The name is at most one of the three that are counted.
abbrev counts_name : Text → Text → ℕ
counts_name name kind = if text_eq name kind then 1 else 0

one_name :
    (name : Text)
    → counts_name name (codes "activated")
        + (counts_name name (codes "assigned") + counts_name name (codes "commented"))
      ≤ 1
unfolding text_eq
one_name name = ground (
  arith,
  exclusive name (codes "activated") (codes "assigned") refl,
  exclusive name (codes "activated") (codes "commented") refl,
  exclusive name (codes "assigned") (codes "commented") refl,
)

module _ (rt : Runtime) where
  open rt use {floats}

  -- The numbers agree with the lists, and no action is counted as two kinds.
  pub record IsCounted (out : Insights floats.F) : Type 0 where
    pub actions : out.metrics.actions ≡ length out.timeline
    pub comments : out.metrics.comments ≡ length out.comments
    pub scored : out.metrics.scored_comments ≤ out.metrics.comments
    pub scores : length out.scores ≤ out.metrics.scored_comments
    pub kinds :
        out.metrics.reopens + (out.metrics.assignments + out.metrics.comments) ≤ out.metrics.actions

  -- The same while an action is counted that is not in the timeline yet, and of which `room` may
  -- still be counted.
  record IsPending (room : ℕ) (out : Insights floats.F) : Type 0 where
    actions : out.metrics.actions ≡ suc (length out.timeline)
    comments : out.metrics.comments ≡ length out.comments
    scored : out.metrics.scored_comments ≤ out.metrics.comments
    scores : length out.scores ≤ out.metrics.scored_comments
    kinds :
        out.metrics.reopens + (out.metrics.assignments + (out.metrics.comments + room))
        ≤ out.metrics.actions

  count_action-IsPending :
      (e : TimelineEntry) (out : Insights floats.F)
      → IsCounted out
      → IsPending
          (counts_name e.action (codes "commented"))
          (record out { metrics = count_action rt e out.metrics })
  unfolding count_action
  count_action-IsPending e out c = record {
    actions = ap suc c.actions;
    comments = c.comments;
    scored = c.scored;
    scores = c.scores;
    kinds = ground (arith, one_name e.action, c.kinds);
  }

  length-append_score :
      (o : Option floats.F) (scores : List floats.F)
      → length (append_score rt o scores) ≤ suc (length scores)
  unfolding append_score
  length-append_score none scores = omega arith
  length-append_score (some v) scores = omega (arith, length-append scores (v ∷ []))

  add_comment-IsPending :
      (e : TimelineEntry) (out : Insights floats.F)
      → IsPending 1 out
      → IsPending 0 (add_comment rt e out)
  unfolding add_comment
  add_comment-IsPending e out p =
      let l : length (out.comments ++ e ∷ []) ≡ length out.comments + 1 =
        length-append out.comments (e ∷ []) in
      if_cases {A = Insights floats.F} (IsPending 0) (text_eq e.ai_score [])
        (λ unscored. record {
          actions = p.actions;
          comments = omega (arith, l, p.comments);
          scored = omega (arith, p.scored);
          scores = p.scores;
          kinds = omega (arith, p.kinds);
        })
        (λ scored. record {
          actions = p.actions;
          comments = omega (arith, l, p.comments);
          scored = omega (arith, p.scored);
          scores =
              omega (
                arith,
                length-append_score (to_float floats (str e.ai_score)) out.scores,
                p.scores,
              );
          kinds = omega (arith, p.kinds);
        })

  noted-IsPending :
      (e : TimelineEntry) (out : Insights floats.F)
      → IsPending (counts_name e.action (codes "commented")) out
      → IsPending 0 (if text_eq e.action (codes "commented") then add_comment rt e out else out)
  noted-IsPending e out p = elim (Bool-cases (text_eq e.action (codes "commented"))) [
    | inl h ↦ rw h (
        add_comment-IsPending e out
          (subst (λ n. IsPending n out) (ap (λ (b : Bool). if b then 1 else 0) h) p))
    | inr h ↦ rw h (subst (λ n. IsPending n out) (ap (λ (b : Bool). if b then 1 else 0) h) p)
  ]

  take_entry-IsCounted :
      (e : TimelineEntry) (out : Insights floats.F)
      → IsCounted out
      → IsCounted (take_entry rt e out)
  unfolding take_entry
  take_entry-IsCounted e out c =
      let counted : Insights floats.F = record out { metrics = count_action rt e out.metrics } in
      let noted : Insights floats.F =
        if text_eq e.action (codes "commented") then add_comment rt e counted else counted in
      let p : IsPending 0 noted = noted-IsPending e counted (count_action-IsPending e out c) in
      let l : length (noted.timeline ++ e ∷ []) ≡ length noted.timeline + 1 =
        length-append noted.timeline (e ∷ []) in
      record {
        actions = omega (arith, l, p.actions);
        comments = p.comments;
        scored = p.scored;
        scores = p.scores;
        kinds = omega (arith, p.kinds);
      }

  take_action-IsCounted :
      (v : Value floats.F) (out : Insights floats.F)
      → IsCounted out
      → IsCounted (take_action rt v out)
  unfolding take_action
  take_action-IsCounted null out c = c
  take_action-IsCounted (bool b) out c = c
  take_action-IsCounted (float t) out c = c
  take_action-IsCounted (int n) out c = c
  take_action-IsCounted (str s) out c = c
  take_action-IsCounted (arr vs) out c = c
  take_action-IsCounted (obj m) out c = take_entry-IsCounted (timeline_entry rt m) out c

  take_actions-IsCounted :
      (raw : List (Value floats.F)) (out : Insights floats.F)
      → IsCounted out
      → IsCounted (take_actions rt raw out)
  unfolding take_actions
  take_actions-IsCounted [] out c = c
  take_actions-IsCounted (v ∷ raw) out c =
      take_actions-IsCounted raw _ (take_action-IsCounted v out c)

  no_insights-IsCounted : IsCounted (no_insights rt)
  no_insights-IsCounted = record {
    actions = refl;
    comments = refl;
    scored = omega arith;
    scores = omega arith;
    kinds = omega arith;
  }

  -- In the insights of a record as many actions are counted as the timeline has entries and as many
  -- comments as are listed, no more comments are scored than there are, no more scores are averaged
  -- than comments are scored, and no action is counted as two of a reopening, an assignment and a
  -- comment.
  pub action_insights-IsCounted : (rec : Fields floats.F) → IsCounted (action_insights rt rec)
  unfolding action_insights
  action_insights-IsCounted rec =
      let raw : List (Value floats.F) = raw_actions (field floats (codes "actions" ∷ []) rec) in
      let c : IsCounted (take_actions rt raw (no_insights rt)) =
        take_actions-IsCounted raw (no_insights rt) no_insights-IsCounted in
      record {
        actions = c.actions;
        comments = c.comments;
        scored = c.scored;
        scores = c.scores;
        kinds = c.kinds;
      }
