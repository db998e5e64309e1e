-- ===== src/System/Startup.antt =====
-- How main starts, in src/main.rs, and how the controller of src/controller.rs is dropped.
use tiny_media_server.Prelude.{
  ℕ, zero, suc, ◌*◌, ◌+◌, ◌^◌, ◌≡◌, ◌≢◌, refl, List, [], ◌∷◌, length, Bool, true, Option, none,
  some, Outcome, ok, halt, ◌>>=◌, >>=-eq-ok, ok_injective, no_server, no_worker, arith,
  if◌then◌else◌, ◌∙◌,
}
use tiny_media_server.Prelude.SocketAddr.{SocketAddr}
use tiny_media_server.Tasks.Session.{expect}
use tiny_media_server.Controller.{input}
use tiny_media_server.Main.{forward}
use tiny_media_server.System.{Parts, System, Resources, channels, spawn, start_program}

-- What clap reads from the command line and the environment.
pub record Args : Type 0 where
  pub http_addr : SocketAddr
  pub workers : ℕ
  pub listen_addr : ℕ

-- 0.0.0.0:8000, and 127.0.0.1.
abbrev pub default_args : Args
default_args = record {
  http_addr = record { ip = 0; port = 8000 };
  workers = 4;
  listen_addr = 127 * 2 ^ 24 + 1;
}

-- `for _ in 0..workers`
abbrev pub each {ℓ} : {A : Type ℓ} → ℕ → ℕ → (ℕ → A) → List A
each from zero f = []
each from (suc n) f = f from ∷ each (from + 1) n f

-- How the drop of the controller ends. Joining a thread that runs for ever blocks.
pub data Dropped : Type 0 where
  returned : Dropped
  panicked : Dropped
  blocked : Dropped

-- `join` says whether the thread came to its end or panicked, or `none` if it does neither.
unfoldable pub drop : {Handle : Type 0} → (Handle → Option Bool) → List Handle → Dropped
drop join [] = returned
drop join (h ∷ joins) = elim (join h) [
  | none ↦ blocked
  | some ended ↦ if ended then drop join joins else panicked
]

-- No thread of a worker comes to its end: with a worker, the drop does not return.
drop_fails :
    {Handle : Type 0} (join : Handle → Option Bool) (h : Handle) (joins : List Handle)
    → join h ≢ some true
    → drop join (h ∷ joins) ≢ returned
unfolding drop
drop_fails join h joins endless e = ground arith

module _ (P : Parts) where
  -- `http` is Server::http, and `opened` what the thread of each worker opens at the address.
  unfoldable pub start_main :
      Args → (SocketAddr → Option P.http.Clients) → (ℕ → ℕ → Resources P) → Outcome (System P)
  unfolding start_program
  start_main args http opened = do
    clients ← expect no_server (http args.http_addr)
    ok (start_program P (each 0 args.workers (opened args.listen_addr)) clients)

  length-spawn :
      (worker_send : P.actions.Chan) (bus : P.Bus) (from n : ℕ) (f : ℕ → Resources P)
      → length (spawn P worker_send bus (each from n f)).0 ≡ n
  unfolding spawn
  length-spawn worker_send bus from zero f = refl
  length-spawn worker_send bus from (suc n) f =
      omega (arith, length-spawn worker_send bus (from + 1) n f)

  -- The controller has as many workers as the arguments say.
  length-start_main :
      (args : Args) (http : SocketAddr → Option P.http.Clients) (opened : ℕ → ℕ → Resources P)
      (s : System P)
      → start_main args http opened ≡ ok s
      → length s.main.controller.joins ≡ args.workers
  unfolding start_main start_program
  length-start_main args http opened s e =
      let (clients, served, started) = >>=-eq-ok (expect no_server (http args.http_addr)) _ e in
      rw (← ok_injective started)
        (length-spawn _ (P.new_bus 1000) 0 args.workers (opened args.listen_addr))

  -- Without a worker, the first request that is forwarded panics the main thread.
  no_workers :
      (args : Args) (http : SocketAddr → Option P.http.Clients) (opened : ℕ → ℕ → Resources P)
      (s : System P) (request : P.http.Request) (body : List ℕ)
      → args.workers ≡ 0
      → start_main args http opened ≡ ok s
      → P.http.body request ≡ some body
      → forward P.http (channels P) request s.main ≡ halt no_worker
  unfolding forward input
  no_workers args http opened s request body none_given e readable =
      let empty : length s.main.controller.joins ≡ 0 =
        length-start_main args http opened s e ∙ none_given in
      rw (readable, empty)
