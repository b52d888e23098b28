-- ===== src/Auth/Manager/Sound.antt =====
-- What holds of the manager between two critical sections, whoever runs them.
use zentao_mcp.Base.{
  ℕ, ◌+◌, ◌≤◌, ◌<◌, ◌≡◌, true, ◌||◌, none, some, [], ◌∷◌, leb, ltb, is_some, length, arith,
  if_cases, ◌==◌, All, if◌then◌else◌,
}
use native.Mathlib.Nat.{le_trans}
use zentao_mcp.Base.Text.{Text, text_eq, text_eq_refl}
use zentao_mcp.Base.Assoc.{
  Assoc, lookup, delete, Values, Values-insert, Values-delete, Values-drop_where, length-insert,
  length-delete, length-delete_found, length-drop_where,
}
use zentao_mcp.Auth.Errors.{AuthError}
use zentao_mcp.Auth.Manager.{TokenManager, TokenEntry, AccountFailureEntry, Request, cleanup_locked}
use zentao_mcp.Auth.Manager.Enter.{cached, no_room, touch, protect, reserve, is_protected}
use zentao_mcp.Auth.Manager.Finish.{
  stamp_of, pick, oldest_from, evict_oldest, make_token_room_locked, record_failure, drop_token,
  live_count, count_rejection, drop_unused, clear_failures, store_token, token_room, failure_room,
  without_token, without_unused, failure_entry,
}

pub record IsSound (m : TokenManager) : Type 0 where
  pub limit_pos : 0 < m.opts.failure_limit
  pub room_pos : 0 < m.opts.max_cache_entries
  pub counts : Values (λ f. f.count ≤ m.opts.failure_limit) m.account_failures
  pub tokens_fit : length m.tokens ≤ m.opts.max_cache_entries
  pub failures_fit : length m.failures ≤ m.opts.max_cache_entries
  pub accounts_fit : length m.account_failures ≤ m.opts.max_cache_entries

module _ {V : Type 0} (stamp : V → ℕ) where
  -- Every entry of a part of the map is found in the map.
  abbrev Found : Assoc V → Assoc V → Type 0
  Found all = All (λ e. is_some (lookup e.0 all) ≡ true)

  Found-cons : (e : Text × V) (all part : Assoc V) → Found all part → Found (e ∷ all) part
  unfolding lookup
  Found-cons e all [] h = tt
  Found-cons e all (p ∷ part) h = (ground arith, Found-cons e all part h.1)

  self-Found : (m : Assoc V) → Found m m
  unfolding lookup
  self-Found [] = tt
  self-Found ((k, v) ∷ m) = (ground (arith, text_eq_refl k), Found-cons (k, v) m m (self-Found m))

  pick-Found :
      (all : Assoc V) (oldest k : Text) (v : V)
      → is_some (lookup k all) ≡ true
      → is_some (lookup oldest all) ≡ true
      → is_some (lookup (pick stamp all oldest k v) all) ≡ true
  unfolding pick
  pick-Found all oldest k v f h =
      if_cases (λ o. is_some (lookup o all) ≡ true)
        (text_eq oldest [] || ltb (stamp v) (stamp_of stamp all oldest)) (λ _. f) (λ _. h)

  oldest-Found :
      (all : Assoc V) (oldest : Text) (part : Assoc V)
      → Found all part
      → is_some (lookup oldest all) ≡ true
      → is_some (lookup (oldest_from stamp all oldest part) all) ≡ true
  unfolding oldest_from
  oldest-Found all oldest [] f h = h
  oldest-Found all oldest ((k, v) ∷ part) f h =
      oldest-Found all (pick stamp all oldest k v) part f.1 (pick-Found all oldest k v f.0 h)

  -- An eviction from a map that is not empty makes room for one entry.
  pub length-evict_oldest : (m : Assoc V) → 0 < length m → length (evict_oldest stamp m) < length m
  unfolding evict_oldest oldest_from pick text_eq
  length-evict_oldest [] h = absurd (omega arith)
  length-evict_oldest ((k, v) ∷ m) h =
      length-delete_found (oldest_from stamp ((k, v) ∷ m) [] ((k, v) ∷ m)) ((k, v) ∷ m)
        (oldest-Found ((k, v) ∷ m) k m (self-Found ((k, v) ∷ m)).1 (self-Found ((k, v) ∷ m)).0)

pub cleanup-IsSound : (now : ℕ) (m : TokenManager) → IsSound m → IsSound (cleanup_locked now m)
unfolding cleanup_locked
cleanup-IsSound now m s = record {
  limit_pos = s.limit_pos;
  room_pos = s.room_pos;
  counts = Values-drop_where _ _ m.account_failures s.counts;
  tokens_fit = omega (arith, length-drop_where (λ k t. leb t.expires_at now) m.tokens);
  failures_fit = omega (arith, length-drop_where (λ k f. leb f.expires_at now) m.failures);
  accounts_fit = le_trans (length-drop_where _ m.account_failures) s.accounts_fit;
}

pub touch-IsSound :
    (m : TokenManager) (r : Request) (e : TokenEntry) (now : ℕ)
    → cached m r ≡ some e
    → IsSound m
    → IsSound (touch m r e now)
unfolding touch cached
touch-IsSound m r e now h s = record {
  limit_pos = s.limit_pos;
  room_pos = s.room_pos;
  counts = s.counts;
  tokens_fit = ground (arith, length-insert r.key (record e { last_used = now }) m.tokens);
  failures_fit = s.failures_fit;
  accounts_fit = s.accounts_fit;
}

pub reserve-IsSound :
    (m : TokenManager) (r : Request) (now : ℕ)
    → no_room m r now ≡ none
    → IsSound m
    → IsSound (reserve m r now)
unfolding reserve protect no_room is_protected
reserve-IsSound m r now h s = record {
  limit_pos = s.limit_pos;
  room_pos = s.room_pos;
  counts =
      if_cases (Values (λ f. f.count ≤ m.opts.failure_limit)) (is_protected m r) (λ _. s.counts)
        (λ _. Values-insert _ r.protection_key _ m.account_failures (omega arith) s.counts);
  tokens_fit = s.tokens_fit;
  failures_fit = s.failures_fit;
  accounts_fit = ground (
    arith,
    length-insert r.protection_key (record { count = 0; until = now + m.opts.failure_window })
        m.account_failures,
  );
}

pub drop_token-IsSound : (r : Request) (m : TokenManager) → IsSound m → IsSound (drop_token r m)
unfolding drop_token without_token
drop_token-IsSound r m s = record {
  limit_pos = s.limit_pos;
  room_pos = s.room_pos;
  counts = s.counts;
  tokens_fit = ground (arith, length-delete r.key m.tokens);
  failures_fit = s.failures_fit;
  accounts_fit = s.accounts_fit;
}

pub record_failure-IsSound :
    (key : Text) (err : AuthError) (now : ℕ) (m : TokenManager)
    → IsSound m
    → IsSound (record_failure key err now m)
unfolding record_failure failure_room
record_failure-IsSound key err now m s = record {
  limit_pos = s.limit_pos;
  room_pos = s.room_pos;
  counts = s.counts;
  tokens_fit = s.tokens_fit;
  failures_fit = ground (
    arith,
    length-evict_oldest (λ f. f.expires_at) m.failures,
    length-insert key (failure_entry key err now m) m.failures,
    length-insert key (failure_entry key err now m) (evict_oldest (λ f. f.expires_at) m.failures),
  );
  accounts_fit = s.accounts_fit;
}

pub count_rejection-IsSound :
    (key : Text) (now : ℕ) (m : TokenManager) (f : AccountFailureEntry)
    → lookup key m.account_failures ≡ some f
    → f.count < m.opts.failure_limit
    → IsSound m
    → IsSound (count_rejection key now m)
unfolding count_rejection live_count
count_rejection-IsSound key now m f h lt s = record {
  limit_pos = s.limit_pos;
  room_pos = s.room_pos;
  counts = Values-insert _ key _ m.account_failures (ground arith) s.counts;
  tokens_fit = s.tokens_fit;
  failures_fit = s.failures_fit;
  accounts_fit = ground (
    arith,
    length-insert key
        (record { count = live_count key now m + 1; until = now + m.opts.failure_window })
        m.account_failures,
  );
}

pub drop_unused-IsSound : (key : Text) (m : TokenManager) → IsSound m → IsSound (drop_unused key m)
unfolding drop_unused without_unused
drop_unused-IsSound key m s = record {
  limit_pos = s.limit_pos;
  room_pos = s.room_pos;
  counts =
      elim (lookup key m.account_failures)
        as (λ o.
          Values (λ f. f.count ≤ m.opts.failure_limit)
            (elim o [
              | none ↦ m.account_failures
              | some f ↦ if f.count == 0 then delete key m.account_failures else m.account_failures
            ])) [
              | none ↦ s.counts
              | some f ↦
                  if_cases (Values (λ f. f.count ≤ m.opts.failure_limit)) (f.count == 0)
                    (λ _. Values-delete _ key m.account_failures s.counts) (λ _. s.counts)
            ];
  tokens_fit = s.tokens_fit;
  failures_fit = s.failures_fit;
  accounts_fit = ground (arith, length-delete key m.account_failures);
}

pub clear_failures-IsSound :
    (r : Request) (m : TokenManager) → IsSound m → IsSound (clear_failures r m)
unfolding clear_failures
clear_failures-IsSound r m s = record {
  limit_pos = s.limit_pos;
  room_pos = s.room_pos;
  counts = Values-delete _ r.protection_key m.account_failures s.counts;
  tokens_fit = s.tokens_fit;
  failures_fit = le_trans (length-drop_where _ m.failures) s.failures_fit;
  accounts_fit = le_trans (length-delete r.protection_key m.account_failures) s.accounts_fit;
}

pub store-IsSound :
    (r : Request) (token : Text) (now : ℕ) (m : TokenManager)
    → IsSound m
    → IsSound (store_token r token now (make_token_room_locked r.key m))
unfolding store_token make_token_room_locked token_room
store-IsSound r token now m s = record {
  limit_pos = s.limit_pos;
  room_pos = s.room_pos;
  counts = s.counts;
  tokens_fit = ground (
    arith,
    length-evict_oldest (λ t. t.last_used) m.tokens,
    length-insert r.key entry m.tokens,
    length-insert r.key entry (evict_oldest (λ t. t.last_used) m.tokens),
  );
  failures_fit = s.failures_fit;
  accounts_fit = s.accounts_fit;
}
  where
    entry : TokenEntry
    entry = record {
      token = token;
      password_hash = r.hash;
      expires_at = now + m.opts.token_ttl;
      last_used = now;
    }
