-- ===== src/Tasks/Session/Laws.antt =====
-- How opening a session can end.
use tiny_media_server.Prelude.{
  List, [], ◌∷◌, Option, none, some, Halt, no_candidate, unparsed_offer, refused_offer, Ends,
  Ends-bind, ◌≡◌, ok, refl,
}
use tiny_media_server.Prelude.SocketAddr.{SocketAddr}
use tiny_media_server.Tasks.Str0m.{Media}
use tiny_media_server.Tasks.Rtc.{RtcApi}
use tiny_media_server.Tasks.Session.{expect, add_local_candidates}

-- The panics of `WhipServerTask::new` and `WhepServerTask::new`.
abbrev pub NewPanic : Halt → Type 0
NewPanic no_candidate = Unit
NewPanic unparsed_offer = Unit
NewPanic refused_offer = Unit
NewPanic _ = ⊥

pub expect-Ends-none {ℓ} :
    {A : Type ℓ} (p : Halt) (Q : Halt → Type 0) (o : Option A)
    → (o ≡ none → Q p)
    → Ends (λ _. Unit) Q (expect p o)
expect-Ends-none p Q none q = q refl
expect-Ends-none p Q (some a) q = tt

pub expect-Ends {ℓ} :
    {A : Type ℓ} (p : Halt) (Q : Halt → Type 0) (o : Option A)
    → Q p
    → Ends (λ _. Unit) Q (expect p o)
expect-Ends p Q none q = q
expect-Ends p Q (some a) q = tt

pub expect-eq_ok {ℓ} :
    {A : Type ℓ} (p : Halt) (o : Option A) (a : A) → expect p o ≡ ok a → o ≡ some a
expect-eq_ok p none a e = cc
expect-eq_ok p (some b) a e = cc

pub add_local_candidates-Ends :
    (m : Media) (r : RtcApi m) (addrs : List SocketAddr) (rtc : r.Rtc)
    → Ends (λ _. Unit) NewPanic (add_local_candidates m r addrs rtc)
unfolding add_local_candidates
add_local_candidates-Ends m r [] rtc = tt
add_local_candidates-Ends m r (addr ∷ addrs) rtc =
    Ends-bind (λ _. Unit) (λ _. Unit) NewPanic (expect no_candidate (r.host addr)) _
      (expect-Ends no_candidate NewPanic (r.host addr) tt)
      λ c _ _. add_local_candidates-Ends m r addrs (r.add_local_candidate c rtc)
