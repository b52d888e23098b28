-- ===== src/Zentao/Insights.antt =====
-- internal/service/zentao/analysis.go: actionInsights and resolutionNote.
pub mod Counts
use zentao_mcp.Base.{ℕ, suc, Option, none, some, List, [], ◌∷◌, ◌++◌, if◌then◌else◌, not, length}
use zentao_mcp.Base.Text.{Text, codes, text_eq}
use zentao_mcp.Base.Strings.{to_lower}
use zentao_mcp.Json.{Value, null, bool, float, int, str, arr, obj, Items, nil, cons, Fields, at}
use zentao_mcp.Zentao.Values.{truncate, field, field_string}
use zentao_mcp.Zentao.Arguments.{to_float, comment_score}
use zentao_mcp.Zentao.Dates.{date_time}
use zentao_mcp.Zentao.Payload.{sorted_keys}
use zentao_mcp.Zentao.PlainText.{plain_text}
use zentao_mcp.Zentao.Runtime.{Runtime}

abbrev pub comment_preview : ℕ
comment_preview = 600

pub record TimelineEntry : Type 0 where
  pub date : Text
  pub action : Text
  pub actor : Text
  pub comment : Text
  pub ai_score : Text

-- The part of BugMetrics that actionInsights fills.
pub record ActionMetrics (F : Type 0) : Type 0 where
  pub actions : ℕ
  pub comments : ℕ
  pub reopens : ℕ
  pub assignments : ℕ
  pub scored_comments : ℕ
  pub average_ai_score : Option F

pub record Insights (F : Type 0) : Type 0 where
  pub timeline : List TimelineEntry
  pub comments : List TimelineEntry
  pub metrics : ActionMetrics F
  pub scores : List F

unfoldable pub resolution_note_from : (lower : ℕ → ℕ) → (last : Text) → List TimelineEntry → Text
unfolding to_lower
resolution_note_from lower last [] = last
resolution_note_from lower last (e ∷ es) =
    let noted = resolution_note_from lower e.comment es in
    let rest = resolution_note_from lower last es in
    let name = to_lower lower e.action in
    if text_eq name (codes "commented")
    then (if not (text_eq e.comment []) then noted else rest)
    else if text_eq name (codes "resolved")
    then (if not (text_eq e.comment [])
        then e.comment
        else if not (text_eq last [])
        then last
        else rest)
    else rest

unfoldable pub resolution_note : (lower : ℕ → ℕ) → List TimelineEntry → Text
unfolding resolution_note_from
resolution_note lower timeline = resolution_note_from lower [] timeline

-- `m[k]` for each key.
unfoldable pub values_at : {F : Type 0} → List Text → Fields F → List (Value F)
unfolding at
values_at [] m = []
values_at (k ∷ ks) m = at k m ∷ values_at ks m

unfoldable pub item_list : {F : Type 0} → Items F → List (Value F)
item_list nil = []
item_list (cons v vs) = v ∷ item_list vs

-- The actions: an array, or an object in the order of its keys.
unfoldable pub raw_actions : {F : Type 0} → Value F → List (Value F)
unfolding values_at item_list
raw_actions null = []
raw_actions (bool b) = []
raw_actions (float t) = []
raw_actions (int n) = []
raw_actions (str s) = []
raw_actions (arr vs) = item_list vs
raw_actions (obj m) = values_at (sorted_keys m) m

module _ (rt : Runtime) where
  open rt use {floats, calendar, lower, zero_float, add_float, rounded_mean}

  unfoldable pub sum_floats : (sum : floats.F) → List floats.F → floats.F
  sum_floats sum [] = sum
  sum_floats sum (v ∷ vs) = sum_floats (add_float sum v) vs

  unfoldable pub average : List floats.F → Option floats.F
  unfolding sum_floats
  average [] = none
  average (v ∷ vs) = some (rounded_mean (sum_floats zero_float (v ∷ vs)) (length (v ∷ vs)))

  unfoldable pub timeline_entry : Fields floats.F → TimelineEntry
  timeline_entry action = record {
    date = date_time floats calendar (field floats (codes "date" ∷ []) action);
    action = to_lower lower (field_string floats (codes "action" ∷ []) action);
    actor = field_string floats (codes "actor" ∷ []) action;
    comment = truncate (plain_text rt (field floats (codes "comment" ∷ []) action)) comment_preview;
    ai_score = comment_score floats action;
  }

  unfoldable pub append_score : Option floats.F → List floats.F → List floats.F
  append_score none scores = scores
  append_score (some v) scores = scores ++ v ∷ []

  unfoldable pub count_action : TimelineEntry → ActionMetrics floats.F → ActionMetrics floats.F
  count_action e m = record m {
    actions = suc m.actions;
    reopens = if text_eq e.action (codes "activated") then suc m.reopens else m.reopens;
    assignments = if text_eq e.action (codes "assigned") then suc m.assignments else m.assignments;
  }

  -- An action of the name "commented".
  unfoldable pub add_comment : TimelineEntry → Insights floats.F → Insights floats.F
  unfolding append_score
  add_comment e out =
      let m = record out.metrics { comments = suc out.metrics.comments } in
      let scored = record m { scored_comments = suc m.scored_comments } in
      if text_eq e.ai_score []
      then record out { comments = out.comments ++ e ∷ []; metrics = m }
      else record out {
        comments = out.comments ++ e ∷ [];
        metrics = scored;
        scores = append_score (to_float floats (str e.ai_score)) out.scores;
      }

  unfoldable pub take_entry : TimelineEntry → Insights floats.F → Insights floats.F
  unfolding count_action add_comment
  take_entry e out =
      let counted = record out { metrics = count_action e out.metrics } in
      let noted = if text_eq e.action (codes "commented") then add_comment e counted else counted in
      record noted { timeline = noted.timeline ++ e ∷ [] }

  -- The body of the loop over the actions.
  unfoldable pub take_action : Value floats.F → Insights floats.F → Insights floats.F
  unfolding timeline_entry take_entry
  take_action null out = out
  take_action (bool b) out = out
  take_action (float t) out = out
  take_action (int n) out = out
  take_action (str s) out = out
  take_action (arr vs) out = out
  take_action (obj action) out = take_entry (timeline_entry action) out

  unfoldable pub take_actions : List (Value floats.F) → Insights floats.F → Insights floats.F
  unfolding take_action
  take_actions [] out = out
  take_actions (item ∷ raw) out = take_actions raw (take_action item out)

  abbrev pub no_insights : Insights floats.F
  no_insights = record {
    timeline = [];
    comments = [];
    metrics = record {
      actions = 0;
      comments = 0;
      reopens = 0;
      assignments = 0;
      scored_comments = 0;
      average_ai_score = none;
    };
    scores = [];
  }

  unfoldable pub action_insights : Fields floats.F → Insights floats.F
  unfolding raw_actions take_actions average
  action_insights rec =
      let out = take_actions (raw_actions (field floats (codes "actions" ∷ []) rec)) no_insights in
      record out { metrics = record out.metrics { average_ai_score = average out.scores } }
