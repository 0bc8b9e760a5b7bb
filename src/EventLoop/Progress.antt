-- ===== src/EventLoop/Progress.antt =====
-- `EventLoop::wait_next_event` of libsponge/util/eventloop.cc with callbacks that make progress.
use cs144_sponge.Prelude.{
  ℕ, suc, ◌≤◌, ◌≡◌, ◌∙◌, refl, ap, List, [], ◌∷◌, Bool, true, false, not, ◌&&◌, ◌==◌, length, arith,
  Bool-cases, inl, inr, ◌⊎◌, Outcome, ok, lift,
}
use cs144_sponge.EventLoop.{
  Rule, Revents, PollResult, Result, first, others, is_ready, is_in, service_count, set_up,
  something_to_poll, rules_of, poll_rules, call_back, run_rule, serve, after_poll, wait_next_event,
}

-- No file descriptor has an error, and `poll` has not failed for another reason than a signal.
abbrev pub NoErrors : List Revents → Type 0
NoErrors [] = Unit {0}
NoErrors (e ∷ es) = (e.error ≡ false) × NoErrors es

abbrev pub IsSound : PollResult → Type 0
IsSound PollResult.timed_out = Unit {0}
IsSound PollResult.interrupted = Unit {0}
IsSound PollResult.failed = ⊥
IsSound (PollResult.polled es) = NoErrors es

first_lem : (es : List Revents) → NoErrors es → (first es).error ≡ false
first_lem [] n = refl
first_lem (e ∷ es) n = n.0

others_lem : (es : List Revents) → NoErrors es → NoErrors (others es)
others_lem [] n = tt
others_lem (e ∷ es) n = n.1

module _ {S : Type 0} where
  -- A callback that returns, and then has read or written its file descriptor or is not interested
  -- any more.
  pub record Serves (r : Rule S) (s : S) : Type 0 where
    pub after : S
    pub returns : r.callback s ≡ ok tt after
    pub progress : ((service_count r s == service_count r after) && r.interest after) ≡ false

  -- What a rule calls at its end returns.
  pub record Cancels (r : Rule S) (s : S) : Type 0 where
    pub after : S
    pub returns : r.cancel s ≡ ok tt after

  abbrev pub AllServe : List (Rule S) → Type 0
  AllServe [] = Unit {0}
  AllServe (r ∷ rs) = ((s : S) → Serves r s × Cancels r s) × AllServe rs

  -- The first loop returns, with no more rules than `n` left.
  record SetsUp (run : Outcome (List (Rule S × Bool) × S) (Unit {0})) (n : ℕ) : Type 0 where
    polled : List (Rule S × Bool)
    after : S
    returns : run ≡ ok tt (polled, after)
    serve : AllServe (rules_of polled)
    shorter : length (rules_of polled) ≤ n

  -- A run that returns, with no more rules than `n` left.
  pub record Returns {A : Type 0} (run : Outcome (List (Rule S) × S) A) (n : ℕ) : Type 0 where
    pub value : A
    pub rules : List (Rule S)
    pub after : S
    pub returns : run ≡ ok value (rules, after)
    pub shorter : length rules ≤ n

  set_up_erased :
      (r : Rule S) (rs : List (Rule S)) (s after : S)
      → (is_in r.direction && r.fd.eof s ≡ true) ⊎ (r.fd.closed s ≡ true)
      → r.cancel s ≡ ok tt after
      → set_up (r ∷ rs) s ≡ set_up rs after
  unfolding set_up
  set_up_erased r rs s after (inl e) c = rw (e, c) refl
  set_up_erased r rs s after (inr e) c = elim (Bool-cases (is_in r.direction && r.fd.eof s)) [
    | inl k ↦ rw (k, c) refl
    | inr k ↦ rw (k, e, c) refl
  ]

  set_up_kept :
      (r : Rule S) (rs : List (Rule S)) (s : S)
      → is_in r.direction && r.fd.eof s ≡ false
      → r.fd.closed s ≡ false
      → set_up (r ∷ rs) s ≡ lift (λ t. ((r, r.interest s) ∷ t.0, t.1)) (set_up rs s)
  unfolding set_up
  set_up_kept r rs s e k = rw (e, k) refl

  set_up_nil : (s : S) → set_up [] s ≡ ok tt ([], s)
  unfolding set_up
  set_up_nil s = refl

  set_up-SetsUp : (rs : List (Rule S)) (s : S) → AllServe rs → SetsUp (set_up rs s) (length rs)
  unfolding rules_of
  set_up-SetsUp [] s v = record {
    polled = [];
    after = s;
    returns = set_up_nil s;
    serve = tt;
    shorter = omega arith;
  }
  set_up-SetsUp (r ∷ rs) s v =
      let c = (v.0 s).1 in
      let a = set_up-SetsUp rs c.after v.1 in
      let b = set_up-SetsUp rs s v.1 in
      let gone : (is_in r.direction && r.fd.eof s ≡ true) ⊎ (r.fd.closed s ≡ true)
          → SetsUp (set_up (r ∷ rs) s) (suc (length rs)) =
        λ h. record {
          polled = a.polled;
          after = a.after;
          returns = set_up_erased r rs s c.after h c.returns ∙ a.returns;
          serve = a.serve;
          shorter = omega (arith, a.shorter);
        } in
      elim (Bool-cases (is_in r.direction && r.fd.eof s)) [
        | inl e ↦ gone (inl e)
        | inr e ↦ elim (Bool-cases (r.fd.closed s)) [
          | inl k ↦ gone (inr k)
          | inr k ↦ record {
            polled = (r, r.interest s) ∷ b.polled;
            after = b.after;
            returns =
                set_up_kept r rs s e k ∙ ap (lift (λ t. ((r, r.interest s) ∷ t.0, t.1))) b.returns;
            serve = (v.0, b.serve);
            shorter = omega (arith, b.shorter);
          }
        ]
      ]

  run_rule_lem :
      (r : Rule S) (ready : Bool) (s : S)
      → Serves r s
      → (after : S) × (run_rule r ready s ≡ ok tt after)
  unfolding run_rule call_back
  run_rule_lem r false s v = (s, refl)
  run_rule_lem r true s v = (v.after, rw (v.returns, v.progress) refl)

  serve_erased :
      (p : Rule S × Bool) (ps : List (Rule S × Bool)) (es : List Revents) (s after : S)
      → (first es).error ≡ false
      → (first es).hangup && (p.1 && not (is_ready p.0.direction p.1 (first es))) ≡ true
      → p.0.cancel s ≡ ok tt after
      → serve (p ∷ ps) es s ≡ serve ps (others es) after
  unfolding serve
  serve_erased p ps es s after e h c = rw (e, h, c) refl

  serve_kept :
      (p : Rule S × Bool) (ps : List (Rule S × Bool)) (es : List Revents) (s after : S)
      → (first es).error ≡ false
      → (first es).hangup && (p.1 && not (is_ready p.0.direction p.1 (first es))) ≡ false
      → run_rule p.0 (is_ready p.0.direction p.1 (first es)) s ≡ ok tt after
      → serve (p ∷ ps) es s ≡ lift (λ u. (p.0 ∷ u.0, u.1)) (serve ps (others es) after)
  unfolding serve
  serve_kept p ps es s after e h r = rw (e, h, r) refl

  serve_nil : (es : List Revents) (s : S) → serve [] es s ≡ ok tt ([], s)
  unfolding serve
  serve_nil es s = refl

  serve-Returns :
      (ps : List (Rule S × Bool)) (es : List Revents) (s : S)
      → AllServe (rules_of ps)
      → NoErrors es
      → Returns (serve ps es s) (length (rules_of ps))
  unfolding rules_of
  serve-Returns [] es s v n = record {
    value = tt;
    rules = [];
    after = s;
    returns = serve_nil es s;
    shorter = omega arith;
  }
  serve-Returns (p ∷ ps) es s v n =
      let e = first_lem es n in
      let run = run_rule_lem p.0 (is_ready p.0.direction p.1 (first es)) s (v.0 s).0 in
      let c = (v.0 s).1 in
      let a = serve-Returns ps (others es) c.after v.1 (others_lem es n) in
      let b = serve-Returns ps (others es) run.0 v.1 (others_lem es n) in
      elim (Bool-cases
        ((first es).hangup && (p.1 && not (is_ready p.0.direction p.1 (first es))))) [
          | inl h ↦ record {
            value = tt;
            rules = a.rules;
            after = a.after;
            returns = serve_erased p ps es s c.after e h c.returns ∙ a.returns;
            shorter = omega (arith, a.shorter);
          }
          | inr h ↦ record {
            value = tt;
            rules = p.0 ∷ b.rules;
            after = b.after;
            returns =
                serve_kept p ps es s run.0 e h run.1 ∙ ap (lift (λ u. (p.0 ∷ u.0, u.1))) b.returns;
            shorter = omega (arith, b.shorter);
          }
        ]

  after_poll-Returns :
      (ps : List (Rule S × Bool)) (s : S) (result : PollResult)
      → AllServe (rules_of ps)
      → IsSound result
      → Returns (after_poll ps s result) (length (rules_of ps))
  unfolding after_poll
  after_poll-Returns ps s PollResult.timed_out v n = record {
    value = Result.timeout;
    rules = rules_of ps;
    after = s;
    returns = refl;
    shorter = omega arith;
  }
  after_poll-Returns ps s PollResult.interrupted v n = record {
    value = Result.exit;
    rules = rules_of ps;
    after = s;
    returns = refl;
    shorter = omega arith;
  }
  after_poll-Returns ps s PollResult.failed v n = absurd n
  after_poll-Returns ps s (PollResult.polled es) v n =
      let r = serve-Returns ps es s v n in
      record {
        value = Result.success;
        rules = r.rules;
        after = r.after;
        returns = rw r.returns refl;
        shorter = r.shorter;
      }

  -- If each callback of a rule returns, the one at its end too, and makes progress (it reads or writes
  -- its file descriptor or loses its interest), no file descriptor has an error and `poll` does not
  -- fail for another reason than a signal, then waiting for an event returns without an exception, and
  -- leaves no more rules than there were.
  pub wait_next_event-Returns :
      (rules : List (Rule S)) (s : S) (result : PollResult)
      → AllServe rules
      → IsSound result
      → Returns (wait_next_event rules s result) (length rules)
  unfolding wait_next_event poll_rules
  wait_next_event-Returns rules s result v n =
      let u = set_up-SetsUp rules s v in
      let r = after_poll-Returns u.polled u.after result u.serve n in
      elim (Bool-cases (something_to_poll u.polled)) [
        | inl e ↦ record {
          value = r.value;
          rules = r.rules;
          after = r.after;
          returns = rw (u.returns, e) r.returns;
          shorter = omega (arith, r.shorter, u.shorter);
        }
        | inr e ↦ record {
          value = Result.exit;
          rules = rules_of u.polled;
          after = u.after;
          returns = rw (u.returns, e) refl;
          shorter = u.shorter;
        }
      ]
