-- ===== src/EventLoop.antt =====
-- libsponge/util/eventloop.hh and eventloop.cc: the rules of the event loop. The state of the world,
-- which the callbacks change, and the calls on a file descriptor are parameters; what `poll` gives
-- is an argument. A callback does not add a rule itself.
pub mod Progress
use cs144_sponge.Prelude.{
  ℕ, List, [], ◌∷◌, ◌++◌, Bool, true, false, not, ◌&&◌, ◌||◌, ◌==◌, if◌then◌else◌, Outcome, ok,
  throws, runtime_error, and_then, lift,
}

pub data Direction : Type 0 where
  in_direction out_direction : Direction

pub data Result : Type 0 where
  success timeout exit : Result

-- What the loop asks of a file descriptor. All duplicates of one share it.
pub record FileDescriptor (S : Type 0) : Type 0 where
  pub eof : S → Bool
  pub closed : S → Bool
  pub read_count : S → ℕ
  pub write_count : S → ℕ

-- A callback may throw, also the one behind the end of the rule.
pub record Rule (S : Type 0) : Type 0 where
  pub fd : FileDescriptor S
  pub direction : Direction
  pub callback : S → Outcome S (Unit {0})
  pub interest : S → Bool
  pub cancel : S → Outcome S (Unit {0})

-- What `poll` tells of one file descriptor: `error` is `POLLERR` or `POLLNVAL`.
pub record Revents : Type 0 where
  pub error : Bool
  pub hangup : Bool
  pub readable : Bool
  pub writable : Bool

-- A poll that fails for another reason than a signal leaves all `revents` at 0.
pub data PollResult : Type 0 where
  timed_out interrupted failed : PollResult
  polled : List Revents → PollResult

abbrev pub nothing : Revents
nothing = record { error = false; hangup = false; readable = false; writable = false }

abbrev pub first : List Revents → Revents
first [] = nothing
first (e ∷ es) = e

abbrev pub others : List Revents → List Revents
others [] = []
others (e ∷ es) = es

abbrev pub is_in : Direction → Bool
is_in Direction.in_direction = true
is_in Direction.out_direction = false

-- `revents & events`.
abbrev pub is_ready : Direction → Bool → Revents → Bool
is_ready direction asked e = asked && (if is_in direction then e.readable else e.writable)

module _ {S : Type 0} where
  unfoldable pub service_count : Rule S → S → ℕ
  service_count r s = if is_in r.direction then r.fd.read_count s else r.fd.write_count s

  unfoldable pub add_rule : List (Rule S) → Rule S → List (Rule S)
  add_rule rules r = rules ++ (r ∷ [])

  unpolled : List (Rule S) → List (Rule S × Bool)
  unpolled [] = []
  unpolled (r ∷ rs) = (r, false) ∷ unpolled rs

  -- The first loop: rules whose file descriptor is at its end or closed are cancelled. A rule that
  -- stays comes with the answer whether it is polled for its direction.
  pub set_up : List (Rule S) → S → Outcome (List (Rule S × Bool) × S) (Unit {0})
  unfolding unpolled
  set_up [] s = ok tt ([], s)
  set_up (r ∷ rs) s =
      let erased =
        and_then (lift (λ t. (unpolled (r ∷ rs), t)) (r.cancel s)) (λ _ t. set_up rs t.1) in
      let kept = lift (λ t. ((r, r.interest s) ∷ t.0, t.1)) (set_up rs s) in
      if is_in r.direction && r.fd.eof s then erased else if r.fd.closed s then erased else kept

  pub something_to_poll : List (Rule S × Bool) → Bool
  something_to_poll [] = false
  something_to_poll (p ∷ ps) = p.1 || something_to_poll ps

  pub rules_of : List (Rule S × Bool) → List (Rule S)
  rules_of [] = []
  rules_of (p ∷ ps) = p.0 ∷ rules_of ps

  -- A ready rule's callback, with the test for a busy wait behind it.
  pub call_back : Rule S → S → Outcome S (Unit {0})
  call_back r s = and_then (r.callback s) (λ _ after.
      if (service_count r s == service_count r after) && r.interest after
      then throws runtime_error after
      else ok tt after)

  run_rule : Rule S → Bool → S → Outcome S (Unit {0})
  run_rule r ready s = if ready then call_back r s else ok tt s

  -- The second loop, over the rules and what was polled for them.
  pub serve : List (Rule S × Bool) → List Revents → S → Outcome (List (Rule S) × S) (Unit {0})
  serve [] es s = ok tt ([], s)
  serve (p ∷ ps) es s =
      let e = first es in
      let ready = is_ready p.0.direction p.1 e in
      let erased =
        and_then (lift (λ t. (rules_of (p ∷ ps), t)) (p.0.cancel s))
          (λ _ t. serve ps (others es) t.1) in
      let kept =
        and_then (lift (λ t. (rules_of (p ∷ ps), t)) (run_rule p.0 ready s))
          (λ _ t. lift (λ u. (p.0 ∷ u.0, u.1)) (serve ps (others es) t.1)) in
      if e.error
      then throws runtime_error (rules_of (p ∷ ps), s)
      else if e.hangup && (p.1 && not ready)
      then erased
      else kept

  after_poll : List (Rule S × Bool) → S → PollResult → Outcome (List (Rule S) × S) Result
  after_poll ps s PollResult.timed_out = ok Result.timeout (rules_of ps, s)
  after_poll ps s PollResult.interrupted = ok Result.exit (rules_of ps, s)
  after_poll ps s PollResult.failed = and_then (serve ps [] s) (λ _ t. ok Result.success t)
  after_poll ps s (PollResult.polled es) = and_then (serve ps es s) (λ _ t. ok Result.success t)

  -- From the test whether there is something to poll on.
  poll_rules :
      Outcome (List (Rule S × Bool) × S) (Unit {0})
      → PollResult
      → Outcome (List (Rule S) × S) Result
  poll_rules (throws e (ps, s)) result = throws e (rules_of ps, s)
  poll_rules (ok _ (ps, s)) result =
      if not (something_to_poll ps) then ok Result.exit (rules_of ps, s) else after_poll ps s result

  pub wait_next_event : List (Rule S) → S → PollResult → Outcome (List (Rule S) × S) Result
  unfolding poll_rules
  wait_next_event rules s result = poll_rules (set_up rules s) result
