-- ===== src/Worker/Udp.antt =====
-- `process_udp` and `get_stun_username`.
pub mod Demux
use Prim.Native.Char.{code}
use Prim.Native.String
use tiny_media_server.Prelude.{
  ℕ, zero, suc, ◌+◌, String, List, [], ◌∷◌, ◌++◌, Bool, true, false, Option, none, some, Outcome,
  ok, unparsed_stun, out_of_fuel, ◌>>=◌, nat_key, string_key, ◌==◌, nat_beq, if◌then◌else◌,
}
use tiny_media_server.Prelude.SocketAddr.{SocketAddr, addr_key}
use tiny_media_server.Prelude.Map.{Map, get, insert}
use tiny_media_server.Io.{udp_socket_recv}
use tiny_media_server.Tasks.{WebrtcTaskInput}
use tiny_media_server.Tasks.Session.{expect}
use tiny_media_server.Worker.State.{Env, TaskContainer, Shared, Worker}
use tiny_media_server.Worker.PopTask.{pop_task}

-- split(':').next(): the text before the first colon
unfoldable pub before_colon : String → String
before_colon String.[] = String.[]
before_colon (String.◌∷◌ c s) =
    if nat_beq (code c) b':' then String.[] else String.◌∷◌ c (before_colon s)

module _ (E : Env) where
  open E use {decode}

  unfoldable pub get_stun_username : List ℕ → Outcome (Option String)
  unfolding before_colon
  get_stun_username buf = do
    message ← expect unparsed_stun (decode buf)
    ok (elim message [ none ↦ none | some u ↦ some (before_colon u) ])

  -- The branch for an unknown remote whose STUN username is some task's.
  unfoldable pub map_remote : SocketAddr → ℕ → Worker E → Option ℕ × Worker E
  map_remote remote task_id w =
      let mapped = record w { task_remotes = insert remote task_id w.task_remotes } in
      elim (get task_id w.tasks) [
        | none ↦ (none, mapped)
        | some c ↦ (
          some task_id,
          record mapped {
            tasks = insert task_id (record c { remotes = c.remotes ++ remote ∷ [] }) w.tasks;
          },
        )
      ]

  unfoldable pub match_username : SocketAddr → Option String → Worker E → Option ℕ × Worker E
  unfolding map_remote
  match_username remote none w = (none, w)
  match_username remote (some username) w = elim (get username w.task_ufrags) [
    | none ↦ (none, w)
    | some task_id ↦ map_remote remote task_id w
  ]

  -- `slot`: the id of the task that gets the datagram, if there is one.
  unfoldable pub find_slot : List ℕ → SocketAddr → Worker E → Outcome (Option ℕ × Worker E)
  unfolding match_username get_stun_username
  find_slot buf remote w = elim (get remote w.task_remotes) [
    | some task_id ↦ ok (elim (get task_id w.tasks) [ none ↦ none | some c ↦ some task_id ], w)
    | none ↦ do username ← get_stun_username buf; ok (match_username remote username w)
  ]

  -- The input and the `pop_task` right after it.
  unfoldable pub feed : ℕ → List ℕ → SocketAddr → Option ℕ → Worker E → Outcome (Worker E)
  feed now buf remote none w = ok w
  feed now buf remote (some task_id) w = elim (get task_id w.tasks) [
    | none ↦ ok w
    | some c ↦ do
      (acts, t) ←
          E.task.input now (WebrtcTaskInput.io (udp_socket_recv remote w.udp_socket_local_addr buf))
            c.task
      (c', s) ← pop_task E now task_id (record c { task = t }) w.shared
      ok (record w { shared = s; tasks = insert task_id c' w.tasks })
  ]

  unfoldable pub on_datagram : ℕ → List ℕ → SocketAddr → Worker E → Outcome (Worker E)
  unfolding find_slot feed
  on_datagram now buf remote w = do (slot, w') ← find_slot buf remote w; feed now buf remote slot w'

  -- `while let Ok((buf, remote)) = self.udp_socket.recv_from()`, on fuel; `clock n` is the reading
  -- for the n-th datagram.
  unfoldable pub udp_loop : ℕ → (ℕ → ℕ) → ℕ → Worker E → Outcome (Worker E)
  unfolding on_datagram
  udp_loop zero clock n w = out_of_fuel
  udp_loop (suc fuel) clock n w = do
    (received, socket) ← E.udp.recv_from w.udp_socket
    let w' = record w { shared = record w.shared { udp_socket = socket } }
    elim received [
      | none ↦ ok w'
      | some (buf, remote) ↦ do
        w'' ← on_datagram (clock n) buf remote w'
        udp_loop fuel clock (suc n) w''
    ]

  -- The fuel is one round more than the socket has in store.
  unfoldable pub process_udp : (ℕ → ℕ) → Worker E → Outcome (Worker E)
  unfolding udp_loop
  process_udp clock w = udp_loop (suc (E.udp.ready w.udp_socket)) clock 0 w
