-- ===== src/Auth/Manager/World.antt =====
-- The goroutines that share a ZentaoTokenManager: the manager, and the logins that are waiting for
-- the upstream server. An event is one critical section of some goroutine; a list of events is one
-- interleaving, since the mutex lets the sections run one at a time.
use zentao_mcp.Base.{ℕ, Bool, Option, none, some, List, [], ◌∷◌, get_elem?, erase_at}
use zentao_mcp.Auth.Errors.{AuthError}
use zentao_mcp.Auth.Manager.{TokenManager, Request, cleanup_locked}
use zentao_mcp.Auth.Manager.Enter.{Verdict, hit, refused, wait, login, enter}
use zentao_mcp.Auth.Manager.Finish.{Outcome, finish}

pub record World : Type 0 where
  pub manager : TokenManager
  pub pending : List Request

-- A call carries what its guard answers, if there is a guard.
pub data Event : Type 0 where
  call : Request → (alive : Bool) → (now : ℕ) → Option (Option AuthError) → Event
  reply : (index : ℕ) → Outcome → (alive : Bool) → (now : ℕ) → Event
  clean : (now : ℕ) → Event

abbrev pub answering : Option (Option AuthError) → Option (Unit {0} → Option AuthError × Unit {0})
answering none = none
answering (some a) = some (λ g. (a, g))

-- A call that starts a login is out at the upstream server from then on.
unfoldable pub enrol : World → Request → Verdict → TokenManager → World
enrol w r login m = record { manager = m; pending = r ∷ w.pending }
enrol w r (hit t) m = record w { manager = m }
enrol w r (refused e) m = record w { manager = m }
enrol w r wait m = record w { manager = m }

unfoldable pub step : World → Event → World
step w (call r alive now guard) =
    let out = enter w.manager r alive now (answering guard) tt in enrol w r out.0 out.1
step w (reply i o alive now) = elim (get_elem? w.pending i) [
  | none ↦ w
  | some r ↦ record { manager = finish r o alive now w.manager; pending = erase_at w.pending i }
]
step w (clean now) = record w { manager = cleanup_locked now w.manager }

unfoldable pub run : World → List Event → World
run w [] = w
run w (e ∷ es) = run (step w e) es
