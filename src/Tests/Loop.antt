-- ===== src/Tests/Loop.antt =====
-- The event loop at a concrete value: the world is the number of reads so far.
use cs144_sponge.Prelude.{ℕ, suc, [], ◌∷◌, true, false, arith, refl, ok}
use cs144_sponge.EventLoop.{Rule, Revents, polled, in_direction, service_count, wait_next_event}
use cs144_sponge.EventLoop.Progress.{Serves, Cancels, Returns, wait_next_event-Returns}

abbrev reader : Rule ℕ
reader = record {
  fd = record { eof = λ s. false; closed = λ s. false; read_count = λ s. s; write_count = λ s. 0 };
  direction = in_direction;
  callback = λ s. ok tt (suc s);
  interest = λ s. true;
  cancel = λ s. ok tt s;
}

reader-Serves : (s : ℕ) → Serves reader s × Cancels reader s
unfolding service_count
reader-Serves s = (
  record { after = suc s; returns = refl; progress = ground arith },
  record { after = s; returns = refl },
)

abbrev readable : Revents
readable = record { error = false; hangup = false; readable = true; writable = false }

wait_next_event-Returns_example :
    Returns (wait_next_event (reader ∷ []) 4 (polled (readable ∷ []))) 1
wait_next_event-Returns_example =
    wait_next_event-Returns (reader ∷ []) 4 (polled (readable ∷ [])) (reader-Serves, tt) (refl, tt)
