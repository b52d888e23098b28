-- ===== src/Auth/Manager/Finish.antt =====
-- The second critical section of `token`: from the answer of the login to the return.
use zentao_mcp.Base.{
  ℕ, ◌+◌, ◌*◌, ◌^◌, min, max, Bool, not, ◌&&◌, ◌||◌, none, some, [], ◌∷◌, ◌++◌, ltb, leb, ◌==◌,
  if◌then◌else◌, is_some, length,
}
use zentao_mcp.Base.Text.{Text, codes, text_eq, has_prefix}
use zentao_mcp.Base.Assoc.{Assoc, lookup, insert, delete, drop_where}
use zentao_mcp.Auth.Options.{login_backoff_base, login_backoff_max}
use zentao_mcp.Auth.Errors.{AuthError, is_rejection}
use zentao_mcp.Auth.Manager.{TokenManager, TokenEntry, FailureEntry, AccountFailureEntry, Request}

-- The loop of `makeTokenRoomLocked` and `recordFailure` over the entries: the key with the
-- smallest stamp. `all` is the map that the loop reads `oldest` from.
module _ {V : Type 0} (stamp : V → ℕ) where
  -- A missing key reads as the zero value.
  unfoldable pub stamp_of : Assoc V → Text → ℕ
  stamp_of all k = elim (lookup k all) [ none ↦ 0 | some v ↦ stamp v ]

  unfoldable pub pick : Assoc V → Text → Text → V → Text
  unfolding stamp_of
  pick all oldest k v =
      if text_eq oldest [] || ltb (stamp v) (stamp_of all oldest) then k else oldest

  unfoldable pub oldest_from : Assoc V → Text → Assoc V → Text
  oldest_from all oldest [] = oldest
  oldest_from all oldest ((k, v) ∷ rest) = oldest_from all (pick all oldest k v) rest

  unfoldable pub evict_oldest : Assoc V → Assoc V
  unfolding oldest_from
  evict_oldest m = delete (oldest_from m [] m) m

-- The map of tokens with room for one under `key`.
unfoldable pub token_room : Text → ℕ → Assoc TokenEntry → Assoc TokenEntry
token_room key max_entries tokens =
    if is_some (lookup key tokens) || ltb (length tokens) max_entries
    then tokens
    else evict_oldest (λ t. t.last_used) tokens

unfoldable pub make_token_room_locked : Text → TokenManager → TokenManager
make_token_room_locked key m = record m {
  tokens = token_room key m.opts.max_cache_entries m.tokens;
}

-- The time to hold off after a failure that `count` failures came before.
unfoldable pub backoff_wait : ℕ → ℕ
backoff_wait count =
    let wait = login_backoff_base * 2 ^ min count 6 in
    if ltb login_backoff_max wait then login_backoff_max else wait

-- The failures on record for a key; none if there is no entry.
unfoldable pub failure_count : Text → TokenManager → ℕ
failure_count key m = elim (lookup key m.failures) [ none ↦ 0 | some f ↦ f.count ]

unfoldable pub failure_entry : Text → AuthError → ℕ → TokenManager → FailureEntry
failure_entry key err now m = record {
  err = err;
  until = now + backoff_wait (failure_count key m);
  count = failure_count key m + 1;
  expires_at = now + max m.opts.failure_ttl (backoff_wait (failure_count key m));
}

-- The map of failures with room for one under `key`.
unfoldable pub failure_room : Text → ℕ → Assoc FailureEntry → Assoc FailureEntry
failure_room key max_entries failures =
    if not (is_some (lookup key failures)) && leb max_entries (length failures)
    then evict_oldest (λ f. f.expires_at) failures
    else failures

unfoldable pub record_failure : Text → AuthError → ℕ → TokenManager → TokenManager
record_failure key err now m = record m {
  failures =
      insert key (failure_entry key err now m)
        (failure_room key m.opts.max_cache_entries m.failures);
}

-- A wrong password must not evict a working token for this account.
unfoldable pub without_token : Request → Assoc TokenEntry → Assoc TokenEntry
without_token r tokens = elim (lookup r.key tokens) [
  | none ↦ tokens
  | some e ↦ if text_eq e.password_hash r.hash then delete r.key tokens else tokens
]

unfoldable pub drop_token : Request → TokenManager → TokenManager
drop_token r m = record m { tokens = without_token r m.tokens }

-- The account's failures that still count at `now`.
unfoldable pub live_count : Text → ℕ → TokenManager → ℕ
live_count key now m = elim (lookup key m.account_failures) [
  | none ↦ 0
  | some f ↦ if leb f.until now then 0 else f.count
]

unfoldable pub count_rejection : Text → ℕ → TokenManager → TokenManager
count_rejection key now m = record m {
  account_failures =
      insert key (record { count = live_count key now m + 1; until = now + m.opts.failure_window })
        m.account_failures;
}

-- An entry that only kept the place of this login goes.
unfoldable pub without_unused : Text → Assoc AccountFailureEntry → Assoc AccountFailureEntry
without_unused key m = elim (lookup key m) [
  | none ↦ m
  | some f ↦ if f.count == 0 then delete key m else m
]

unfoldable pub drop_unused : Text → TokenManager → TokenManager
drop_unused key m = record m { account_failures = without_unused key m.account_failures }

unfoldable pub settle_failure : Request → AuthError → ℕ → TokenManager → TokenManager
settle_failure r err now m =
    if is_rejection err
    then count_rejection r.protection_key now m
    else drop_unused r.protection_key m

-- A login that succeeds clears the account's failures under every password.
unfoldable pub clear_failures : Request → TokenManager → TokenManager
clear_failures r m = record m {
  account_failures = delete r.protection_key m.account_failures;
  failures = drop_where (λ k f. has_prefix k (r.key ++ codes "#")) m.failures;
}

unfoldable pub store_token : Request → Text → ℕ → TokenManager → TokenManager
store_token r token now m = record m { tokens = insert r.key entry m.tokens }
  where
    entry : TokenEntry
    entry = record {
      token = token;
      password_hash = r.hash;
      expires_at = now + m.opts.token_ttl;
      last_used = now;
    }

unfoldable pub settle_success : Request → Text → ℕ → TokenManager → TokenManager
settle_success r token now m =
    store_token r token now (make_token_room_locked r.key (clear_failures r m))

pub data Outcome : Type 0 where
  logged_in : Text → Outcome
  failed : AuthError → Outcome

-- `alive` is `ctx.Err() == nil` when the answer is there.
unfoldable pub settle : Request → Outcome → Bool → ℕ → TokenManager → TokenManager
settle r (logged_in token) alive now m = settle_success r token now m
settle r (failed err) alive now m =
    settle_failure r err now
      (if alive then record_failure r.fkey err now (drop_token r m) else drop_token r m)

unfoldable pub finish : Request → Outcome → Bool → ℕ → TokenManager → TokenManager
finish r o alive now m = record (settle r o alive now m) {
  inflight = delete r.protection_key (settle r o alive now m).inflight;
}
