-- ===== src/System/Rounds.antt =====
-- One round of the main loop, and the accounts of the requests.
pub mod Forward
use Prim.Native.String
use native.Mathlib.Nat.{mod-lt}
use text.Mathlib.Text.{starts_with}
use tiny_media_server.Prelude.{
  ℕ, zero, suc, ◌+◌, ◌%◌, ◌≤◌, ◌<◌, ◌≡◌, refl, sym, ap, ◌∙◌, List, [], ◌∷◌, ◌++◌, Bool, true, false,
  Option, none, some, Outcome, ok, ◌>>=◌, Halt, missing_file, unreadable_body, bad_header,
  refused_response, unexpected_event, no_worker, Ends, Ends-bind, Ends-weaken, length, String,
  nat_beq, ltb, if◌then◌else◌, sum_by, sum_by-append, arith, nat_key, one_if, Option-cases,
  Bool-cases, inl, inr, ◌⊎◌, ◌==◌,
}
use tiny_media_server.Prelude.Map.{Map, get, insert, remove, get-insert, get-remove}
use tiny_media_server.Io.{
  HttpRequest, HttpResponse, IoEvent, http_request, IoAction, http_response, udp_socket_send,
}
use tiny_media_server.Tasks.Session.{expect}
use tiny_media_server.Net.Mmsg.{update_at}
use tiny_media_server.Controller.{Controller, input, pop_action}
use tiny_media_server.Main.{
  TinyHttp, Main, with_header, with_headers, with_content_type, cors_headers, reply, serve_public,
  serve_options, forward, on_action, drain_loop, drain, round,
}
use tiny_media_server.Main.Files.{StaticPanic, Untouched, with_headers-Ends, static_round}
use tiny_media_server.System.Rounds.Forward.{forward-Accounts}
use tiny_media_server.System.{Parts, channels}
use tiny_media_server.System.Crossbeam.{ChannelLaws, listed}
use tiny_media_server.System.Accounts.{
  asks, replies, is_some, asked, accepted, Balanced, open_answer, RoundPanic, Accounts, others,
}

static-RoundPanic : (p : Halt) → StaticPanic p → RoundPanic p
static-RoundPanic missing_file k = tt
static-RoundPanic bad_header k = tt
static-RoundPanic refused_response k = tt
static-RoundPanic _ k = absurd k

module _ (P : Parts) (el : ChannelLaws P.events) (al : ChannelLaws P.actions) where
  with_headers-Round :
      (hs : List (String × String)) (response : P.http.Response)
      → Ends (λ _. Unit) RoundPanic (with_headers P.http hs response)
  with_headers-Round hs response =
      Ends-weaken (λ _. Unit) (λ _. Unit) StaticPanic RoundPanic (with_headers P.http hs response)
        (with_headers-Ends P.http hs response) (λ x k. k) static-RoundPanic

  Untouched-Accounts :
      (m m' : Main P.http (channels P))
      → Accounts P m
      → Untouched P.http (channels P) m m'
      → Accounts P m'
  Untouched-Accounts m m' b (ids, reqs, controller) j = record {
    table = rw (ids, reqs, controller) (b j).table;
    handed = rw (ids, controller) (b j).handed;
    only_answers = rw controller (b j).only_answers;
    answers = rw controller (b j).answers;
  }

  static-Accounts :
      (request : P.http.Request) (files : String → Option (List ℕ)) (m : Main P.http (channels P))
      → (starts_with (P.http.url request) "/public" ≡ true) ⊎ (P.http.is_options request ≡ true)
      → Accounts P m
      → Ends (Accounts P) RoundPanic (round P.http (channels P) (some request) files m)
  static-Accounts request files m static b =
      Ends-weaken (Untouched P.http (channels P) m) (Accounts P) StaticPanic RoundPanic
        (round P.http (channels P) (some request) files m)
        (static_round P.http (channels P) request files m static)
        (λ m' k. Untouched-Accounts m m' b k) static-RoundPanic

  reply-Accounts :
      (request : P.http.Request) (response : P.http.Response) (m : Main P.http (channels P))
      → Accounts P m
      → Ends
          (λ m'. Accounts P m' × (m'.controller ≡ m.controller))
          RoundPanic
          (reply P.http (channels P) request response m)
  unfolding reply
  reply-Accounts request response m b =
      elim (Bool-cases (P.http.respond request response m.clients).0) [
        | inl sent ↦ rw sent (
          λ j. record {
            table = (b j).table;
            handed = (b j).handed;
            only_answers = (b j).only_answers;
            answers = (b j).answers;
          },
          refl,
        )
        | inr refused ↦ rw refused tt
      ]

  taken_next :
      (r : P.actions.Chan) (a : IoAction) (j : ℕ)
      → (P.actions.try_recv r).0 ≡ some a
      → sum_by (replies j) (P.actions.taken (P.actions.try_recv r).1)
        ≡ sum_by (replies j) (P.actions.taken r) + replies j a
  taken_next r a j e =
      rw (al.try_recv-taken r, e)
        (omega (arith, sum_by-append (replies j) (P.actions.taken r) (a ∷ [])))

  abbrev popped : Main P.http (channels P) → Controller (channels P)
  popped m = record m.controller { worker_recv = (P.actions.try_recv m.controller.worker_recv).1 }

  -- The answer that was popped is for a request in the table.
  popped_open :
      (res : HttpResponse) (m : Main P.http (channels P))
      → Accounts P m
      → (P.actions.try_recv m.controller.worker_recv).0 ≡ some (http_response res)
      → is_some (get res.req_id m.reqs) ≡ true
  popped_open res m b e =
      let r = m.controller.worker_recv in
      open_answer P el al m res.req_id (b res.req_id) (
        ground (
          arith,
          taken_next r (http_response res) res.req_id e,
          al.taken-le-given (replies res.req_id) (P.actions.try_recv r).1,
          al.try_recv-given r,
        ))

  -- The table without the request that was answered.
  answered-Accounts :
      (res : HttpResponse) (m : Main P.http (channels P))
      → Accounts P m
      → (P.actions.try_recv m.controller.worker_recv).0 ≡ some (http_response res)
      → Accounts P (record m { controller = popped m; reqs = remove res.req_id m.reqs })
  answered-Accounts res m b e j =
      let r = m.controller.worker_recv in
      record {
        table = ground (
          arith,
          (b j).table,
          get-remove res.req_id j m.reqs,
          popped_open res m b e,
          taken_next r (http_response res) j e,
        );
        handed = (b j).handed;
        only_answers = rw (al.try_recv-given r) (b j).only_answers;
        answers = rw (al.try_recv-given r) (b j).answers;
      }

  on_action-Accounts :
      (a : IoAction) (m : Main P.http (channels P))
      → Accounts P m
      → (P.actions.try_recv m.controller.worker_recv).0 ≡ some a
      → Ends
          (λ m'. Accounts P m' × (m'.controller ≡ popped m))
          RoundPanic
          (on_action P.http (channels P) a (record m { controller = popped m }))
  unfolding on_action
  on_action-Accounts (udp_socket_send from to buf) m b e =
      let r = m.controller.worker_recv in
      let a = udp_socket_send from to buf in
      let took : sum_by others (P.actions.taken (P.actions.try_recv r).1)
          ≡ sum_by others (P.actions.taken r) + 1 =
        rw (al.try_recv-taken r, e)
          (omega (arith, sum_by-append others (P.actions.taken r) (a ∷ []))) in
      absurd (
        omega (
          arith,
          took,
          al.taken-le-given others (P.actions.try_recv r).1,
          ap (sum_by others) (al.try_recv-given r),
          (b 0).only_answers,
        ))
  on_action-Accounts (http_response res) m b e = elim (Option-cases (get res.req_id m.reqs)) [
    | inl missing ↦ let opened = rw missing at (popped_open res m b e) in cc
    | inr (request, found) ↦
        let response = P.http.with_status_code res.status (P.http.from_data res.body) in
        rw found (
          Ends-bind (λ _. Unit) _ RoundPanic (with_headers P.http res.headers response) _
            (with_headers-Round res.headers response)
            λ response' _ _.
              Ends-bind (λ _. Unit) _ RoundPanic
                (with_headers P.http (cors_headers P.http) response') _
                (with_headers-Round (cors_headers P.http) response')
                λ response'' _ _. reply-Accounts request response'' _ (answered-Accounts res m b e))
  ]

  -- Nothing was popped.
  idle-Accounts :
      (m : Main P.http (channels P))
      → Accounts P m
      → (P.actions.try_recv m.controller.worker_recv).0 ≡ none
      → Accounts P (record m { controller = popped m })
  idle-Accounts m b e j =
      let r = m.controller.worker_recv in
      record {
        table =
            rw (al.try_recv-taken r, e)
              (ground (arith, (b j).table, sum_by-append (replies j) (P.actions.taken r) []));
        handed = (b j).handed;
        only_answers = rw (al.try_recv-given r) (b j).only_answers;
        answers = rw (al.try_recv-given r) (b j).answers;
      }

  drain_loop-Accounts :
      (fuel : ℕ) (m : Main P.http (channels P))
      → P.actions.waiting m.controller.worker_recv < fuel
      → Accounts P m
      → Ends (Accounts P) RoundPanic (drain_loop P.http (channels P) fuel m)
  unfolding drain_loop pop_action
  drain_loop-Accounts zero m room b = absurd (omega (arith, room))
  drain_loop-Accounts (suc fuel) m room b =
      elim (Option-cases (P.actions.try_recv m.controller.worker_recv).0) [
        | inl e ↦ rw (e, drain_loop, Ends) (idle-Accounts m b e)
        | inr (a, e) ↦
            rw (e, drain_loop, Ends)
              (Ends-bind (λ m'. Accounts P m' × (m'.controller ≡ popped m)) (Accounts P) RoundPanic
                (on_action P.http (channels P) a (record m { controller = popped m }))
                (drain_loop P.http (channels P) fuel) (on_action-Accounts a m b e)
                λ m' _ k.
                  let less : P.actions.waiting (popped m).worker_recv
                      < P.actions.waiting m.controller.worker_recv =
                    rw e at (al.try_recv-Uses m.controller.worker_recv) in
                  drain_loop-Accounts fuel m' (rw k.1 (omega (arith, less, room))) k.0)
      ]

  drain-Accounts :
      (m : Main P.http (channels P))
      → Accounts P m
      → Ends (Accounts P) RoundPanic (drain P.http (channels P) m)
  unfolding drain
  drain-Accounts m b =
      drain_loop-Accounts (suc (P.actions.waiting m.controller.worker_recv)) m (omega arith) b

  pub round-Accounts :
      (request : Option P.http.Request) (files : String → Option (List ℕ))
      (m : Main P.http (channels P))
      → Accounts P m
      → Ends (Accounts P) RoundPanic (round P.http (channels P) request files m)
  unfolding round
  round-Accounts none files m b = drain-Accounts m b
  round-Accounts (some request) files m b =
      elim (Bool-cases (starts_with (P.http.url request) "/public")) [
        | inl public ↦ static-Accounts request files m (inl public) b
        | inr other ↦ elim (Bool-cases (P.http.is_options request)) [
          | inl options ↦ static-Accounts request files m (inr options) b
          | inr api ↦
              rw (other, api)
                (Ends-bind (Accounts P) (Accounts P) RoundPanic
                  (forward P.http (channels P) request m) (drain P.http (channels P))
                  (forward-Accounts P el al request m b) λ m' _ k. drain-Accounts m' k)
        ]
      ]
