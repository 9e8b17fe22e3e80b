-- ===== src/App/Safety.antt =====
-- What holds in every state of the service.
use aggregator_demo.Base.{ℕ, ◌≡◌, ◌≢◌, refl, ap, ◌∙◌, Bool, true, false, arith}
use aggregator_demo.App.{
  App, Listener, serving, sending, gone, empty, closed, Server, up, shutting_down, returned,
  finished, Main, selecting, cycling, left_loop, waiting, exited, received, told, Outside, ticks,
  signalled, Step, cron_ticks, cycle_ends, cron_stops, stops, exits, serve_fails, sends, closes,
  server_fails, server_stops, shuts_down, server_done, Reachable, start, outside, step,
}

-- What the WaitGroup counts.
abbrev pub counted : Server → ℕ
counted up = 1
counted shutting_down = 1
counted (returned e) = 1
counted finished = 0

-- The goroutine has sent or closed.
abbrev pub is_gone : Listener → Bool
is_gone serving = false
is_gone (sending e) = false
is_gone gone = true

-- `stop` has been called.
abbrev pub is_behind : Main → Bool
is_behind selecting = false
is_behind cycling = false
is_behind left_loop = false
is_behind waiting = true
is_behind exited = true

pub record IsSound (a : App) : Type 0 where
  pub group : a.wg ≡ counted a.server
  -- nothing is in the channel before the goroutine sends or closes, so the send does not block
  pub fresh : is_gone a.listener ≡ false → a.err_chan ≡ empty
  -- `Run` does not take the nil of a closed channel for an error
  pub open_while_up : a.server ≡ up → a.err_chan ≢ closed
  pub stopped : is_behind a.main ≡ true → a.cancelled ≡ true
  -- `main` ends only behind the goroutine of the server
  pub ended : a.main ≡ exited → a.server ≡ finished

IsSound-Outside : {a b : App} → Outside a b → IsSound a → IsSound b
IsSound-Outside (ticks a) s = record {
  group = s.group;
  fresh = s.fresh;
  open_while_up = s.open_while_up;
  stopped = s.stopped;
  ended = s.ended;
}
IsSound-Outside (signalled a) s = record {
  group = s.group;
  fresh = s.fresh;
  open_while_up = s.open_while_up;
  stopped = λ h. refl;
  ended = s.ended;
}

counted-finished : (s : Server) → counted s ≡ 0 → s ≡ finished
counted-finished up h = absurd (omega arith)
counted-finished shutting_down h = absurd (omega arith)
counted-finished (returned e) h = absurd (omega arith)
counted-finished finished h = refl

-- A step of the goroutine of `main` that leaves the rest.
module _ {a b : App} (s : IsSound a) (wg : b.wg ≡ a.wg) (listener : b.listener ≡ a.listener)
    (err_chan : b.err_chan ≡ a.err_chan) (server : b.server ≡ a.server) where
  main-IsSound :
      (is_behind b.main ≡ true → b.cancelled ≡ true)
      → (b.main ≡ exited → b.server ≡ finished)
      → IsSound b
  main-IsSound stopped ended = record {
    group = rw (wg, server) s.group;
    fresh = rw (listener, err_chan) s.fresh;
    open_while_up = rw (server, err_chan) s.open_while_up;
    stopped = stopped;
    ended = ended;
  }

-- A step of the server's goroutines that leaves `main`.
server-IsSound :
    {a b : App}
    → IsSound a
    → b.main ≡ a.main
    → b.cancelled ≡ a.cancelled
    → a.server ≢ finished
    → b.wg ≡ counted b.server
    → (is_gone b.listener ≡ false → b.err_chan ≡ empty)
    → (b.server ≡ up → b.err_chan ≢ closed)
    → IsSound b
server-IsSound s main cancelled n group fresh open_while_up = record {
  group = group;
  fresh = fresh;
  open_while_up = open_while_up;
  stopped = rw (main, cancelled) s.stopped;
  ended = λ h. absurd (n (s.ended (cc (h, main))));
}

IsSound-Step : {a b : App} → Step a b → IsSound a → IsSound b
IsSound-Step (cron_ticks a p q) s =
    main-IsSound s refl refl refl refl (λ h. absurd (cc h)) (λ h. absurd (cc h))
IsSound-Step (cycle_ends a p) s =
    main-IsSound s refl refl refl refl (λ h. absurd (cc h)) (λ h. absurd (cc h))
IsSound-Step (cron_stops a p q) s =
    main-IsSound s refl refl refl refl (λ h. absurd (cc h)) (λ h. absurd (cc h))
IsSound-Step (stops a p) s = main-IsSound s refl refl refl refl (λ h. refl) (λ h. absurd (cc h))
IsSound-Step (exits a p q) s =
    main-IsSound s refl refl refl refl (λ h. s.stopped (rw p refl))
      (λ h. counted-finished a.server (cc (s.group, q)))
IsSound-Step (serve_fails a e p) s = record {
  group = s.group;
  fresh = λ h. s.fresh (rw p refl);
  open_while_up = s.open_while_up;
  stopped = s.stopped;
  ended = s.ended;
}
IsSound-Step (sends a e p q) s = record {
  group = s.group;
  fresh = λ h. absurd (cc h);
  open_while_up = λ h k. absurd (cc k);
  stopped = s.stopped;
  ended = s.ended;
}
IsSound-Step (closes a p q) s = record {
  group = s.group;
  fresh = λ h. absurd (cc h);
  open_while_up = λ h k. absurd (cc (ap told h, q));
  stopped = s.stopped;
  ended = s.ended;
}
IsSound-Step (server_fails a e p q) s =
    server-IsSound s refl refl (λ h. cc (h, p)) (s.group ∙ ap counted p)
      (λ h. absurd (cc (ap received (s.fresh h), q))) (λ h. absurd (cc h))
IsSound-Step (server_stops a p q) s =
    server-IsSound s refl refl (λ h. cc (h, p)) (s.group ∙ ap counted p) s.fresh
      (λ h. absurd (cc h))
IsSound-Step (shuts_down a e p) s =
    server-IsSound s refl refl (λ h. cc (h, p)) (s.group ∙ ap counted p) s.fresh
      (λ h. absurd (cc h))
IsSound-Step (server_done a e n p q) s =
    server-IsSound s refl refl (λ h. cc (h, p)) (omega (arith, s.group, ap counted p, q)) s.fresh
      (λ h. absurd (cc h))

-- In every state that the service reaches, with ticks, a signal and failures of the server at any
-- time: the goroutine that serves HTTP finds the channel empty when it sends its error; `Run` of the
-- server never reads nil from the closed channel; behind `stop` the context is cancelled; and `main`
-- has ended only if the server's goroutine has called `Done`.
pub Reachable-IsSound : {a : App} → Reachable a → IsSound a
Reachable-IsSound start = record {
  group = refl;
  fresh = λ h. refl;
  open_while_up = λ h k. absurd (cc k);
  stopped = λ h. absurd (cc h);
  ended = λ h. absurd (cc h);
}
Reachable-IsSound (outside r o) = IsSound-Outside o (Reachable-IsSound r)
Reachable-IsSound (step r s) = IsSound-Step s (Reachable-IsSound r)
