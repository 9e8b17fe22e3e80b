-- ===== src/App.antt =====
-- The life of the service: the loop of src/external/cron.go, `Run` of src/external/httpsrv/httpsrv.go
-- with its goroutine, and the end of `main` in src/cmd/main.go, as one machine. A step is one
-- communication: a branch of a `select`, a send, a close, or the return of a call that may block.
-- `net/http` and the ticker decide when their steps come. A cycle of the aggregator is one step from
-- `cycling` back to `selecting`.
pub mod Safety
pub mod Shutdown
use aggregator_demo.Base.{ℕ, zero, suc, ◌≡◌, Bool, true, false, Option, none, some}
use aggregator_demo.Entity.{Error}

-- The goroutine around `ListenAndServe`. It ends in `sending` with any error but `ErrServerClosed`.
pub data Listener : Type 0 where
  serving : Listener
  sending : Error → Listener
  gone : Listener

-- `errChan`, with a buffer of one.
pub data ErrChan : Type 0 where
  empty : ErrChan
  holds : Error → ErrChan
  closed : ErrChan

-- `Run`: in its `select`, in `Shutdown`, back in the goroutine of `main`, and behind `wg.Done`.
pub data Server : Type 0 where
  up : Server
  shutting_down : Server
  returned : Option Error → Server
  finished : Server

-- The goroutine of `main`: in the `select` of `Cron.Run`, in `Start`, behind the loop, in
-- `wg.Wait`, and at its end.
pub data Main : Type 0 where
  selecting cycling left_loop waiting exited : Main

pub record App : Type 0 where
  pub cancelled : Bool
  -- the channel of the ticker, which holds one tick and drops the next
  pub tick : Bool
  pub main : Main
  pub listener : Listener
  pub err_chan : ErrChan
  pub server : Server
  pub wg : ℕ

-- `main` when it calls `Cron.Run`.
abbrev pub launched : App
launched = record {
  cancelled = false;
  tick = false;
  main = selecting;
  listener = serving;
  err_chan = empty;
  server = up;
  wg = 1;
}

-- What `<-errChan` gives: an error, nil from a closed channel, or it blocks.
abbrev pub received : ErrChan → Option (Option Error)
received empty = none
received (holds e) = some (some e)
received closed = some none

abbrev pub drained : ErrChan → ErrChan
drained closed = closed
drained empty = empty
drained (holds e) = empty

-- The server has been told to close, so `ListenAndServe` returns `ErrServerClosed`.
abbrev pub told : Server → Bool
told up = false
told shutting_down = true
told (returned e) = true
told finished = true

-- What comes from outside: ticks and signals. Neither ends by itself.
pub data Outside : App → App → Type 0 where
  ticks : (a : App) → Outside a (record a { tick = true })
  signalled : (a : App) → Outside a (record a { cancelled = true })

-- The steps of the program.
pub data Step : App → App → Type 0 where
  -- `case <-tick.C`
  cron_ticks :
      (a : App)
      → a.main ≡ selecting
      → a.tick ≡ true
      → Step a (record a { main = cycling; tick = false })
  cycle_ends : (a : App) → a.main ≡ cycling → Step a (record a { main = selecting })
  -- `case <-ctx.Done()`
  cron_stops :
      (a : App) → a.main ≡ selecting → a.cancelled ≡ true → Step a (record a { main = left_loop })
  -- `stop()`
  stops : (a : App) → a.main ≡ left_loop → Step a (record a { main = waiting; cancelled = true })
  -- `wg.Wait()`
  exits : (a : App) → a.main ≡ waiting → a.wg ≡ 0 → Step a (record a { main = exited })
  serve_fails :
      (a : App) (e : Error) → a.listener ≡ serving → Step a (record a { listener = sending e })
  -- `errChan <- err` blocks while the buffer is full
  sends :
      (a : App) (e : Error)
      → a.listener ≡ sending e
      → a.err_chan ≡ empty
      → Step a (record a { listener = gone; err_chan = holds e })
  -- `close(errChan)`
  closes :
      (a : App)
      → a.listener ≡ serving
      → told a.server ≡ true
      → Step a (record a { listener = gone; err_chan = closed })
  -- `case err := <-errChan`
  server_fails :
      (a : App) (e : Option Error)
      → a.server ≡ up
      → received a.err_chan ≡ some e
      → Step a (record a { server = returned e; err_chan = drained a.err_chan })
  -- `case <-ctx.Done()`
  server_stops :
      (a : App) → a.server ≡ up → a.cancelled ≡ true → Step a (record a { server = shutting_down })
  -- `srv.Shutdown` returns, with or without an error
  shuts_down :
      (a : App) (e : Option Error)
      → a.server ≡ shutting_down
      → Step a (record a { server = returned e })
  -- `defer wg.Done()`
  server_done :
      (a : App) (e : Option Error) (n : ℕ)
      → a.server ≡ returned e
      → a.wg ≡ suc n
      → Step a (record a { server = finished; wg = n })

pub data Reachable : App → Type 0 where
  start : Reachable launched
  outside : {a b : App} → Reachable a → Outside a b → Reachable b
  step : {a b : App} → Reachable a → Step a b → Reachable b
