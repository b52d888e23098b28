-- ===== src/Tests/HistoryTests.antt =====
-- internal/service/zentao/history.go on concrete inputs: a refresh of the index and a lookup.
use zentao_mcp.Base.{
  ℕ, zero, suc, ◌≡◌, refl, ◌⊎◌, inl, inr, Option, none, some, List, [], ◌∷◌, arith, if◌then◌else◌,
  ltb, false,
}
use zentao_mcp.Base.Int.{ℤ, pos, int_eq}
use zentao_mcp.Base.Results.{Returns}
use zentao_mcp.Base.Text.{Text, codes, text_eq}
use zentao_mcp.Json.{Fields, get, at, end, entry, float, arr, nil, cons, obj}
use zentao_mcp.Zentao.Client.{RequestFault, Payload, api, is_auth_failure, is_denied}
use zentao_mcp.Zentao.Values.{field_int, int_or_zero, to_int, field, field_from, is_null, is_blank}
use zentao_mcp.Zentao.Insights.{action_insights}
use zentao_mcp.Zentao.Bugs.State.{Query}
use zentao_mcp.Zentao.History.{IndexOptions, HistoryRequest, SimilarBug}
use zentao_mcp.Zentao.History.Corpus.{IndexState}
use zentao_mcp.Zentao.History.Verify.{
  Verified, none_verified, verify_batch, verify_hits, verify_rounds, verify_hit, drop_hits, refused,
  echoed, add_hidden, add_unavailable, note_auth_error, similar_from,
}
use zentao_mcp.Zentao.History.Verify.Rounds.{verify_hits_lem}
use zentao_mcp.Zentao.History.Lookup.{IndexClock, find_similar_bugs, limit_of}
use zentao_mcp.Zentao.History.Lookup.Safe.{Shows, candidates, find_similar_bugs-Shows}
use zentao_mcp.Bugindex.{Hit}
use zentao_mcp.Bugindex.Build.{build, empty_index}
use zentao_mcp.Tests.BugTests.{machine}
use zentao_mcp.Tests.IndexTests.{whole, docs}

-- The caller may read bug 11, is refused bug 12, and gets another bug in place of 13.
abbrev read : ℤ → RequestFault Text ⊎ Payload ℕ
read id =
    if int_eq id (pos 11)
    then inr (some (entry (codes "id") (float 11) end))
    else if int_eq id (pos 13)
    then inr (some (entry (codes "id") (float 7) end))
    else inl (api (record { path = []; status = 400; body = []; auth_failed = false }))

abbrev hit : ℕ → Hit ℕ
hit id = record { id = pos id; score = 100; matched_keys = [] }

abbrev ids : List (SimilarBug ℕ) → List ℤ
ids [] = []
ids (b ∷ bs) = b.id ∷ ids bs

abbrev shown : Option (Verified ℕ Text) → List ℤ × ℕ
shown none = ([], 0)
shown (some v) = (ids v.visible, v.hidden)

shows_one : shown (verify_hits machine read 2 (hit 12 ∷ hit 11 ∷ hit 13 ∷ [])) ≡ (pos 11 ∷ [], 2)
unfolding verify_hits verify_rounds verify_batch verify_hit drop_hits int_eq is_auth_failure
    is_denied refused echoed add_hidden add_unavailable note_auth_error similar_from field_int
    int_or_zero to_int field field_from at get is_null is_blank text_eq action_insights
shows_one = refl

verify_hits_lem_example :
    verify_hits machine read 2 (hit 12 ∷ hit 11 ∷ hit 13 ∷ [])
    ≡ some (verify_batch machine read 2 (hit 12 ∷ hit 11 ∷ hit 13 ∷ []) none_verified)
verify_hits_lem_example =
    verify_hits_lem machine read 2 (hit 12 ∷ hit 11 ∷ hit 13 ∷ []) (omega arith)

abbrev clock : IndexClock ℕ
clock = record {
  hours_since = λ now built. 1;
  show_time = λ built. codes "2026-08-31 16:18:28";
  is_stale = λ age. ltb 24 age;
  show_hours = λ age. codes "1";
}

abbrev indexed : IndexState ℕ Text
indexed = record { index = build whole 1 docs; build_state = none }

abbrev lookup_log : HistoryRequest
lookup_log = record {
  symptom = codes "log";
  product = pos 0;
  kind = [];
  resolution = [];
  opened_after = [];
  opened_before = [];
  fixed_only = false;
  limit = 2;
}

find_similar_bugs-Shows_example :
    Returns
      (Shows whole clock 2 machine read
        (limit_of lookup_log)
        (candidates whole clock 2 machine read lookup_log indexed))
      (find_similar_bugs whole clock 2 machine read (some indexed) lookup_log)
find_similar_bugs-Shows_example =
    find_similar_bugs-Shows whole clock 2 machine read indexed lookup_log

abbrev options : IndexOptions
options = record {
  account = codes "index";
  password = codes "secret";
  refresh = pos 0;
  body_chars = pos 400;
  max_products = pos 10;
  max_bugs_per_product = pos 10;
}

-- One product with one bug, on a single page.
abbrev server : (path : Text) → Query → (page_size page : ℕ) → Text ⊎ Fields ℕ
server path query page_size zero = inl (codes "no page")
server path query page_size (suc n) = inr (
    entry (codes "total") (float 1)
      (entry (codes "list") (arr (cons (obj (entry (codes "id") (float 4) end)) nil)) end))

abbrev unbuilt : IndexState ℕ Text
unbuilt = record { index = empty_index 0; build_state = none }
