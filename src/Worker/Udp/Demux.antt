-- ===== src/Worker/Udp/Demux.antt =====
-- Which task a datagram goes to, and the datagram that no worker survives.
use tiny_media_server.Prelude.{
  ℕ, ◌≡◌, ap, String, List, [], ◌∷◌, ◌++◌, Option, none, some, ok, halt, unparsed_stun, >>=-eq-ok,
  Option-cases, inl, inr, nat_key, string_key, ==_refl, arith,
}
use tiny_media_server.Prelude.SocketAddr.{SocketAddr, addr_key}
use tiny_media_server.Prelude.Map.{get, get-insert}
use tiny_media_server.Worker.State.{Env, TaskContainer, Worker}
use tiny_media_server.Worker.Udp.{
  get_stun_username, map_remote, match_username, find_slot, on_datagram, process_udp,
}

module _ (E : Env) where
  -- The remote is mapped to the id, and the id to a task.
  pub record IsMapped (remote : SocketAddr) (task_id : ℕ) (w : Worker E) : Type 0 where
    pub mapped : get remote w.task_remotes ≡ some task_id
    pub container : TaskContainer E
    pub live : get task_id w.tasks ≡ some container

  map_remote-IsMapped :
      (remote : SocketAddr) (i j : ℕ) (w w' : Worker E)
      → map_remote E remote i w ≡ (some j, w')
      → IsMapped remote j w'
  unfolding map_remote
  map_remote-IsMapped remote i j w w' e = elim (Option-cases (get i w.tasks)) [
    | inl missing ↦ absurd (ground arith)
    | inr (c, found) ↦
        let e' = rw (found, map_remote) at e in
        let here : TaskContainer E = record c { remotes = c.remotes ++ remote ∷ [] } in
        let this : i ≡ j = ground arith in
        let after = ap (λ (p : Option ℕ × Worker E). p.1) e' in
        rw (← after, ← this)
          (record {
            mapped = rw (get-insert remote remote i w.task_remotes) (rw (==_refl remote));
            container = here;
            live = rw (get-insert i i here w.tasks) (rw (==_refl i));
          })
  ]

  find_slot_mapped :
      (buf : List ℕ) (remote : SocketAddr) (task_id : ℕ) (w : Worker E)
      → IsMapped remote task_id w
      → find_slot E buf remote w ≡ ok (some task_id, w)
  unfolding find_slot
  find_slot_mapped buf remote task_id w h = rw (h.mapped, find_slot) (rw h.live)

  match_username-IsMapped :
      (remote : SocketAddr) (username : Option String) (j : ℕ) (w w' : Worker E)
      → match_username E remote username w ≡ (some j, w')
      → IsMapped remote j w'
  unfolding match_username
  match_username-IsMapped remote none j w w' e = absurd (ground arith)
  match_username-IsMapped remote (some username) j w w' e =
      elim (Option-cases (get username w.task_ufrags)) [
        | inl missing ↦ absurd (ground arith)
        | inr (i, found) ↦ map_remote-IsMapped remote i j w w' (rw (found, match_username) at e)
      ]

  find_slot-IsMapped :
      (buf : List ℕ) (remote : SocketAddr) (j : ℕ) (w w' : Worker E)
      → find_slot E buf remote w ≡ ok (some j, w')
      → IsMapped remote j w'
  unfolding find_slot
  find_slot-IsMapped buf remote j w w' e = elim (Option-cases (get remote w.task_remotes)) [
    | inl unknown ↦
        let (username, read, chosen) =
          >>=-eq-ok (get_stun_username E buf) (λ u. ok (match_username E remote u w))
            (rw (unknown, find_slot) at e) in
        match_username-IsMapped remote username j w w' (ground arith)
    | inr (i, known) ↦ elim (Option-cases (get i w.tasks)) [
      | inl gone ↦ absurd (ground arith)
      | inr (c, live) ↦
          let same : w ≡ w' = ground arith in
          let this : i ≡ j = ground arith in
          rw (← same, ← this) (record { mapped = known; container = c; live = live })
    ]
  ]

  -- Once a datagram has been matched to a task, every further datagram from that remote, STUN or
  -- not, is matched to the same task and leaves the worker as it is.
  pub find_slot_again :
      (buf next : List ℕ) (remote : SocketAddr) (task_id : ℕ) (w w' : Worker E)
      → find_slot E buf remote w ≡ ok (some task_id, w')
      → find_slot E next remote w' ≡ ok (some task_id, w')
  find_slot_again buf next remote task_id w w' e =
      find_slot_mapped next remote task_id w' (find_slot-IsMapped buf remote task_id w w' e)

  stray_on_datagram :
      (now : ℕ) (buf : List ℕ) (remote : SocketAddr) (w : Worker E)
      → get remote w.task_remotes ≡ none
      → E.decode buf ≡ none
      → on_datagram E now buf remote w ≡ halt unparsed_stun
  unfolding on_datagram
  stray_on_datagram now buf remote w unknown garbage = ground arith

  -- If the next datagram comes from a remote that is not mapped and is no STUN message,
  -- process_udp panics.
  pub stray_datagram :
      (clock : ℕ → ℕ) (buf : List ℕ) (remote : SocketAddr) (socket : E.udp.Socket) (w : Worker E)
      → E.udp.recv_from w.udp_socket ≡ ok (some (buf, remote), socket)
      → get remote w.task_remotes ≡ none
      → E.decode buf ≡ none
      → process_udp E clock w ≡ halt unparsed_stun
  unfolding process_udp
  stray_datagram clock buf remote socket w received unknown garbage =
      rw (received, process_udp)
        (rw (
          stray_on_datagram (clock 0) buf remote
            (record w { shared = record w.shared { udp_socket = socket } }) unknown garbage))
