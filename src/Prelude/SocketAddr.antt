-- ===== src/Prelude/SocketAddr.antt =====
-- std::net::SocketAddr. The sockets are opened in `Domain::IPV4`: an address and a port.
use tiny_media_server.Prelude.Tests.{nat_beq}
use tiny_media_server.Prelude.Equality.{Key}
use Prim.Native.Nat.{ℕ}
use mathlib.Core.Path.{◌≡◌}
use mathlib.Core.Bool.{Bool, true, ◌&&◌}
use mathlib.Core.Logic.{◌↔◌}
use native.Mathlib.Omega.{arith}

pub record SocketAddr : Type 0 where
  pub ip : ℕ
  pub port : ℕ

abbrev pub addr_beq : SocketAddr → SocketAddr → Bool
addr_beq a b = nat_beq a.ip b.ip && nat_beq a.port b.port

pub addr_beq_iff : (a b : SocketAddr) → (addr_beq a b ≡ true) ↔ (a ≡ b)
addr_beq_iff a b = ground arith

instance abbrev pub addr_key : Key SocketAddr
addr_key = record { same_key = addr_beq; same_key_iff = addr_beq_iff }
