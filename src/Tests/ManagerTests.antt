-- ===== src/Tests/ManagerTests.antt =====
-- internal/middleware/zentao_token_manager.go on concrete inputs.
use zentao_mcp.Base.{
  ℕ, suc, ◌+◌, ◌-◌, ◌*◌, ◌⊎◌, is_some, ◌≤◌, ◌≡◌, ◌≢◌, refl, min, inl, true, Option, none, some,
  List, [], ◌∷◌, length, leb, if◌then◌else◌, arith,
}
use zentao_mcp.Base.Int.{pos, or_default}
use zentao_mcp.Base.Text.{Text, codes, text_eq, trim_space}
use zentao_mcp.Base.Assoc.{lookup, insert, delete, drop_where}
use zentao_mcp.Auth.Options.{RawOptions, normalized, second, login_backoff_max}
use zentao_mcp.Auth.Errors.{AuthError, empty, is_rejection}
use zentao_mcp.Auth.Manager.{
  TokenManager, TokenEntry, FailureEntry, Request, new_token_manager, request, cleanup_locked,
}
use zentao_mcp.Auth.Manager.Enter.{
  hit, login, enter, miss, cached, locked_out, backed_off, is_busy, no_room, is_protected, admit,
  reserve, protect,
}
use zentao_mcp.Auth.Manager.Finish.{
  logged_in, failed, finish, settle, settle_success, settle_failure, drop_token, without_token,
  record_failure, failure_room, failure_entry, failure_count, backoff_wait, count_rejection,
  live_count, drop_unused, without_unused, clear_failures, token_room, make_token_room_locked,
  store_token,
}
use zentao_mcp.Auth.Manager.World.{World, Event, call, reply, clean, run, step, enrol}
use zentao_mcp.Auth.Manager.Flight.{Inv, start, start-Inv, run-start-Inv}
use zentao_mcp.Auth.Manager.Budget.{rejections, rejections-le-limit}
use zentao_mcp.Auth.Manager.Sessions.{
  Session, enter-hit_valid, enter-finish_logged_in, tokens-finish_failed, enter_guard,
}
use zentao_mcp.Auth.Manager.Backoff.{finish_failed-doubles, enter-finish_failed}
use zentao_mcp.Auth.Login
use zentao_mcp.Auth.Login.{Answer, answered, LoginData, Careful, login_at, is_missing}

program : Unit {0}
unfolding enter miss cached locked_out backed_off is_busy no_room is_protected admit reserve protect
    finish settle settle_success settle_failure drop_token without_token record_failure failure_room
    failure_entry failure_count backoff_wait count_rejection live_count drop_unused without_unused
    clear_failures token_room make_token_room_locked store_token cleanup_locked lookup insert delete
    drop_where text_eq run step enrol is_rejection new_token_manager normalized or_default request
    trim_space
program = tt

-- Over ASCII text.
abbrev lower_ascii : ℕ → ℕ
lower_ascii c = if leb 65 c then (if leb c 90 then c + 32 else c) else c

abbrev no_options : RawOptions
no_options = record {
  failure_limit = pos 0;
  failure_window = pos 0;
  token_ttl = pos 0;
  failure_ttl = pos 0;
  max_cache_entries = pos 0;
}

abbrev base_url : Text
base_url = codes "http://z/api"

abbrev manager : TokenManager
unfolding new_token_manager
manager = new_token_manager base_url no_options

-- A stand-in for the digest: the password itself.
abbrev ask : Text → Text → Request
unfolding request
ask account password =
    request lower_ascii (λ s. s) manager (record { account = account; password = password }) []

abbrev alice : Request
unfolding ask
alice = ask (codes "alice") (codes "pw")

abbrev spaced_alice : Request
unfolding ask
spaced_alice = ask (codes " Alice ") (codes "other")

abbrev unauthorized : AuthError
unauthorized = AuthError.login (record { status_code = 401; body = empty; retry_after = 0 })

variants_share_protection : spaced_alice.protection_key ≡ alice.protection_key
unfolding program
variants_share_protection = refl

-- Two rejections lock the account out: the third call starts no login.
abbrev two_rejections : List Event
two_rejections =
    call alice true 1 none
    ∷ reply 0 (failed unauthorized) true 2
    ∷ call spaced_alice true 3 none
    ∷ reply 0 (failed unauthorized) true 4
    ∷ call alice true (40 * second) none
    ∷ []

locked_after_two : length (run (start base_url no_options) two_rejections).pending ≡ 0
unfolding program
locked_after_two = refl

two_counted : rejections alice.protection_key (start base_url no_options) two_rejections 0 ≡ 2
unfolding program rejections
two_counted = refl

rejections-le-limit_example :
    rejections alice.protection_key (start base_url no_options) two_rejections 0
    ≤ (start base_url no_options).manager.opts.failure_limit
unfolding program
rejections-le-limit_example =
    rejections-le-limit alice.protection_key 1 (start base_url no_options) two_rejections
      (omega arith) (start-Inv base_url no_options)

run-start-Inv_example : Inv (run (start base_url no_options) two_rejections)
run-start-Inv_example = run-start-Inv base_url no_options two_rejections

abbrev session_manager : TokenManager
unfolding finish
session_manager = finish alice (logged_in (codes "t1")) true 10 manager

-- Before the session runs out: a cleaning, and calls for two accounts.
abbrev meanwhile : List Event
meanwhile = clean 12 ∷ call alice true 14 none ∷ call spaced_alice true 16 none ∷ []

enter-finish_logged_in_example :
    let w : World = record {
      manager = finish alice (logged_in (codes "t1")) true 10 manager;
      pending = [];
    } in
    (enter (run w meanwhile).manager alice true 20 none tt).0 ≡ hit (codes "t1")
unfolding program
enter-finish_logged_in_example =
    enter-finish_logged_in manager alice alice (codes "t1") true 10 20 [] meanwhile none tt refl
      refl refl (omega arith, (omega arith, (omega arith, tt))) (omega arith)

enter-hit_valid_example :
    (e : TokenEntry) × Session session_manager alice 20 e × (e.token ≡ codes "t1")
unfolding program session_manager
enter-hit_valid_example = enter-hit_valid session_manager alice true 20 none tt (codes "t1") refl

abbrev mistyped : Request
unfolding ask
mistyped = ask (codes "alice") (codes "wp")

tokens-finish_failed_example :
    (finish mistyped
      (failed unauthorized)
      true
      30
      (finish alice (logged_in (codes "t1")) true 10 manager)).tokens
    ≡ (finish alice (logged_in (codes "t1")) true 10 manager).tokens
unfolding program
tokens-finish_failed_example =
    tokens-finish_failed (finish alice (logged_in (codes "t1")) true 10 manager) mistyped
      unauthorized true 30
      (record {
        token = codes "t1";
        password_hash = codes "pw";
        expires_at = 10 + 24 * 3600 * second;
        last_used = 10;
      })
      refl refl

enter_guard_example :
    (enter session_manager alice true 20 (some (λ (n : ℕ). (none, suc n))) 5).2 ≡ 5
unfolding program session_manager
enter_guard_example =
    enter_guard session_manager alice true 20 (some (λ (n : ℕ). (none, suc n))) 5 (inl refl)

abbrev first_failure : FailureEntry
unfolding program
first_failure = failure_entry alice.fkey unauthorized 5 manager

finish_failed-doubles_example :
    let w : World = record {
      manager = finish alice (failed unauthorized) true 5 manager;
      pending = [];
    } in
    let m2 =
      finish alice
        (failed unauthorized)
        true
        30
        (run w (clean 12 ∷ call alice true 14 none ∷ [])).manager in
    ((is_some (lookup alice.fkey manager.failures) ≡ true)
      ⊎ (first_failure.until ≡ 5 + 15 * second))
    × (first_failure.until ≤ 5 + login_backoff_max)
    × ((f2 : FailureEntry) × (lookup alice.fkey m2.failures ≡ some f2)
        × (f2.until ≡ 30 + min (2 * (first_failure.until - 5)) login_backoff_max))
unfolding program first_failure
finish_failed-doubles_example =
    finish_failed-doubles manager alice alice unauthorized unauthorized 5 30 first_failure []
      (clean 12 ∷ call alice true 14 none ∷ []) refl refl (omega arith, (omega arith, tt))

enter-finish_failed_example :
    let w : World = record {
      manager = finish alice (failed unauthorized) true 5 manager;
      pending = [];
    } in
    let out = enter (run w meanwhile).manager alice true 20 none tt in
    (out.0 ≢ login) × (out.2 ≡ tt)
unfolding program
enter-finish_failed_example =
    enter-finish_failed manager alice unauthorized true 5 20 [] meanwhile none tt
      (omega arith, (omega arith, (omega arith, tt))) (omega arith)

-- An upstream without the first endpoint.
abbrev old_server : Text → Answer
unfolding text_eq
old_server endpoint =
    if text_eq endpoint (codes "tokens")
    then answered 404 (codes "no such page")
    else answered 200 (codes "{}")

abbrev decoded : Text → Option LoginData
decoded s = some (record { status = []; token = codes "t2"; error = [] })

login-Careful_example : Careful (Login.login lower_ascii decoded old_server)
login-Careful_example = Login.login-Careful lower_ascii decoded old_server

login_second_example : Login.login lower_ascii decoded old_server ≡ (
    if is_missing (old_server (codes "tokens"))
    then login_at lower_ascii decoded (old_server (codes "users/login"))
    else login_at lower_ascii decoded (old_server (codes "tokens")))
login_second_example = Login.login_second lower_ascii decoded old_server
