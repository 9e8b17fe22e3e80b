-- ===== src/App/Shutdown.antt =====
-- The service takes few steps by itself, and behind a signal it is stuck only when it has ended.
use aggregator_demo.Base.{
  ℕ, suc, ◌+◌, ◌*◌, ◌≤◌, ◌≡◌, ◌≢◌, refl, ap, ◌∙◌, Bool, true, false, none, arith,
}
use aggregator_demo.App.{
  App, Listener, serving, sending, gone, Server, up, shutting_down, returned, finished, Main,
  selecting, cycling, left_loop, waiting, exited, Outside, ticks, signalled, Step, cron_ticks,
  cycle_ends, cron_stops, stops, exits, serve_fails, sends, closes, server_fails, server_stops,
  shuts_down, server_done, Reachable,
}
use aggregator_demo.App.Safety.{IsSound, Reachable-IsSound, counted}

-- How many steps are left for each goroutine, and for a tick that waits.
abbrev main_work : Main → ℕ
main_work cycling = 4
main_work selecting = 3
main_work left_loop = 2
main_work waiting = 1
main_work exited = 0

abbrev listener_work : Listener → ℕ
listener_work serving = 2
listener_work (sending e) = 1
listener_work gone = 0

abbrev server_work : Server → ℕ
server_work up = 3
server_work shutting_down = 2
server_work (returned e) = 1
server_work finished = 0

abbrev tick_work : Bool → ℕ
tick_work true = 2
tick_work false = 0

abbrev pub work : App → ℕ
work a = main_work a.main + listener_work a.listener + server_work a.server + tick_work a.tick

Step-work : {a b : App} → Step a b → suc (work b) ≤ work a
Step-work (cron_ticks a p q) = omega (arith, ap main_work p, ap tick_work q)
Step-work (cycle_ends a p) = omega (arith, ap main_work p)
Step-work (cron_stops a p q) = omega (arith, ap main_work p)
Step-work (stops a p) = omega (arith, ap main_work p)
Step-work (exits a p q) = omega (arith, ap main_work p)
Step-work (serve_fails a e p) = omega (arith, ap listener_work p)
Step-work (sends a e p q) = omega (arith, ap listener_work p)
Step-work (closes a p q) = omega (arith, ap listener_work p)
Step-work (server_fails a e p q) = omega (arith, ap server_work p)
Step-work (server_stops a p q) = omega (arith, ap server_work p)
Step-work (shuts_down a e p) = omega (arith, ap server_work p)
Step-work (server_done a e n p q) = omega (arith, ap server_work p)

Outside-work : {a b : App} → Outside a b → work b ≤ work a + 2
Outside-work (ticks a) = omega arith
Outside-work (signalled a) = omega arith

-- A run with its number of steps of the program, and of ticks and signals.
pub data Run : ℕ → ℕ → App → App → Type 0 where
  still : (a : App) → Run 0 0 a a
  steps : (n k : ℕ) (a b c : App) → Run n k a b → Step b c → Run (suc n) k a c
  meets : (n k : ℕ) (a b c : App) → Run n k a b → Outside b c → Run n (suc k) a c

-- From any state a run in which `k` ticks and signals come has at most `work a + 2 * k` steps: no
-- goroutine of the service goes on for ever unless ticks keep coming.
pub Run-bound : (n k : ℕ) (a b : App) → Run n k a b → n + work b ≤ work a + 2 * k
Run-bound _ _ a _ (still _) = omega arith
Run-bound _ _ a c (steps n k _ b _ r s) = omega (arith, Run-bound n k a b r, Step-work s)
Run-bound _ _ a c (meets n k _ b _ r o) = omega (arith, Run-bound n k a b r, Outside-work o)

abbrev CanStep : App → Type 0
CanStep a = (b : App) × Step a b

server-CanStep :
    (a : App) (s : Server)
    → IsSound a
    → a.cancelled ≡ true
    → a.main ≡ waiting
    → a.server ≡ s
    → CanStep a
server-CanStep a up i c m e = (_, server_stops a e c)
server-CanStep a shutting_down i c m e = (_, shuts_down a none e)
server-CanStep a (returned x) i c m e = (_, server_done a x 0 e (i.group ∙ ap counted e))
server-CanStep a finished i c m e = (_, exits a m (i.group ∙ ap counted e))

main-CanStep :
    (a : App) (m : Main) → IsSound a → a.cancelled ≡ true → m ≢ exited → a.main ≡ m → CanStep a
main-CanStep a selecting i c n e = (_, cron_stops a e c)
main-CanStep a cycling i c n e = (_, cycle_ends a e)
main-CanStep a left_loop i c n e = (_, stops a e)
main-CanStep a waiting i c n e = server-CanStep a a.server i c e refl
main-CanStep a exited i c n e = absurd (n refl)

-- Once the context is cancelled, the service can take a step in every state that it reaches, until
-- `main` has ended: no goroutine waits for another that waits for it.
pub cancelled-CanStep :
    (a : App) → Reachable a → a.cancelled ≡ true → a.main ≢ exited → (b : App) × Step a b
cancelled-CanStep a r c n = main-CanStep a a.main (Reachable-IsSound r) c n refl
