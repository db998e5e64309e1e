-- ===== src/Tests/SystemBench.antt =====
-- Channels that keep what they are given, and an HTTP server that notes whom it answered.
use mathlib.Core.List.{append_assoc, append-nil}
use tiny_media_server.Prelude.{
  ℕ, ◌≡◌, refl, sym, String, List, [], ◌∷◌, ◌++◌, true, Option, none, some, length, sum_by-append,
  arith, ◌==◌, string_key, some_injective,
}
use tiny_media_server.Io.{HttpRequest, IoEvent, IoAction}
use tiny_media_server.Tasks.Roles.{Uses}
use tiny_media_server.Main.{TinyHttp}
use tiny_media_server.System.{Parts}
use tiny_media_server.System.Crossbeam.{Channel, ChannelLaws, listed}
use tiny_media_server.Tests.Bench.{media, rtc_api, udp, crates}

-- What was taken, and what waits.
abbrev pub Fifo : Type 0 → Type 0
Fifo A = List A × List A

abbrev pub next_message : {A : Type 0} → Fifo A → Option A × Fifo A
next_message (t, []) = (none, (t, []))
next_message (t, a ∷ q) = (some a, (t ++ a ∷ [], q))

abbrev pub fifo : (A : Type 0) → Channel A
fifo A = record {
  Chan = Fifo A;
  bounded = λ n. ([], []);
  try_send = λ a c. (true, (c.0, c.1 ++ a ∷ []));
  send = λ a c. some (some (c.0, c.1 ++ a ∷ []));
  try_recv = next_message;
  given = λ c. c.0 ++ c.1;
  taken = λ c. c.0;
  waiting = λ c. length c.1;
}

module _ {A : Type 0} where
  next-given : (c : Fifo A) → (next_message c).1.0 ++ (next_message c).1.1 ≡ c.0 ++ c.1
  next-given (t, []) = refl
  next-given (t, a ∷ q) = append_assoc t (a ∷ []) q

  next-taken : (c : Fifo A) → (next_message c).1.0 ≡ c.0 ++ listed (next_message c).0
  next-taken (t, []) = sym (append-nil t)
  next-taken (t, a ∷ q) = refl

  pub next-Uses : (c : Fifo A) → Uses (next_message c).0 (length c.1) (length (next_message c).1.1)
  next-Uses (t, []) = tt
  next-Uses (t, a ∷ q) = omega arith

  send-given :
      (a : A) (c c' : Fifo A)
      → some (some (c.0, c.1 ++ a ∷ [])) ≡ some (some c')
      → c'.0 ++ c'.1 ≡ (c.0 ++ c.1) ++ a ∷ []
  send-given a c c' e =
      rw (← some_injective (some_injective e)) (sym (append_assoc c.0 c.1 (a ∷ [])))

  send-taken :
      (a : A) (c c' : Fifo A) → some (some (c.0, c.1 ++ a ∷ [])) ≡ some (some c') → c'.0 ≡ c.0
  send-taken a c c' e = rw (← some_injective (some_injective e)) refl

pub fifo_laws : (A : Type 0) → ChannelLaws (fifo A)
fifo_laws A = record {
  given-bounded = λ n. refl;
  try_send-given = λ a c. sym (append_assoc c.0 c.1 (a ∷ []));
  try_send-taken = λ a c. refl;
  send-given = send-given;
  send-taken = send-taken;
  try_recv-given = next-given;
  try_recv-taken = next-taken;
  taken-le-given = λ p c. omega (arith, sum_by-append p c.0 c.1);
  try_recv-Uses = next-Uses;
}

-- The status and the headers of a response.
pub record Reply : Type 0 where
  pub status : ℕ
  pub headers : List (String × String)

abbrev pub http : TinyHttp
http = record {
  Request = HttpRequest;
  url = λ r. r.path;
  is_options = λ r. r.method == "OPTIONS";
  method = λ r. r.method;
  headers = λ r. r.headers;
  body = λ r. some r.body;
  Header = String × String;
  from_bytes = λ k v. some (k, v);
  Response = Reply;
  from_file = λ content. record { status = 200; headers = [] };
  from_data = λ body. record { status = 200; headers = [] };
  from_string = λ s. record { status = 200; headers = [] };
  with_status_code = λ status x. record x { status = status };
  add_header = λ h x. record x { headers = x.headers ++ h ∷ [] };
  Clients = List (ℕ × ℕ);
  respond = λ r x c. (true, c ++ (r.req_id, x.status) ∷ []);
}

abbrev pub parts : Parts
parts = record {
  media = media;
  rtc = rtc_api;
  udp = udp;
  Bus = crates.Bus;
  new_bus = λ n. [];
  broadcast = crates.broadcast;
  decode = crates.decode;
  http = http;
  events = fifo IoEvent;
  actions = fifo IoAction;
}
