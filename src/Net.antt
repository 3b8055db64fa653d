-- ===== src/Net.antt =====
-- Addresses. `IpAddr` and `SocketAddr` are those of the standard library: an address is its octets
-- read as a number. `IpNetwork` comes from the crate `ipnetwork` and is the parameter `IpNetworks`.
use Prim.Native.String.{String}
use Prim.Native.Char.{code}
use liteway.Common.{ℕ, ◌≡◌, refl, ◌↔◌, Bool, true, false, ◌&&◌, Option, List, [], ◌∷◌, arith, ◌==◌}
use liteway.Common.Keyed.{Eq}

-- A Rust string is its bytes; a literal of the source is ASCII.
abbrev pub Text : Type 0
Text = List ℕ

abbrev pub text : String → Text
text String.[] = []
text (String.◌∷◌ c s) = code c ∷ text s

abbrev pub text_eqb : Text → Text → Bool
text_eqb [] [] = true
text_eqb [] (b ∷ t) = false
text_eqb (a ∷ s) [] = false
text_eqb (a ∷ s) (b ∷ t) = a == b && text_eqb s t

pub text_eqb_iff : (s t : Text) → (text_eqb s t ≡ true) ↔ (s ≡ t)
text_eqb_iff [] [] = (λ _. refl, λ _. refl)
text_eqb_iff [] (b ∷ t) = (λ h. cc, λ h. cc)
text_eqb_iff (a ∷ s) [] = (λ h. cc, λ h. cc)
text_eqb_iff (a ∷ s) (b ∷ t) = ground (arith, text_eqb_iff s t)

instance abbrev pub text_eq : Eq Text
text_eq = record { eqb = text_eqb; eqb_iff = text_eqb_iff }

pub data IpAddr : Type 0 where
  v4 : ℕ → IpAddr
  v6 : ℕ → IpAddr

abbrev pub ip_eqb : IpAddr → IpAddr → Bool
ip_eqb (v4 a) (v4 b) = a == b
ip_eqb (v4 a) (v6 b) = false
ip_eqb (v6 a) (v4 b) = false
ip_eqb (v6 a) (v6 b) = a == b

pub ip_eqb_iff : (a b : IpAddr) → (ip_eqb a b ≡ true) ↔ (a ≡ b)
ip_eqb_iff (v4 a) (v4 b) = ground arith
ip_eqb_iff (v4 a) (v6 b) = (λ h. cc, λ h. cc)
ip_eqb_iff (v6 a) (v4 b) = (λ h. cc, λ h. cc)
ip_eqb_iff (v6 a) (v6 b) = ground arith

instance abbrev pub ip_eq : Eq IpAddr
ip_eq = record { eqb = ip_eqb; eqb_iff = ip_eqb_iff }

-- The flow information and the scope of an IPv6 endpoint take part in its equality.
pub data SocketAddr : Type 0 where
  v4 : ℕ → ℕ → SocketAddr
  v6 : ℕ → ℕ → ℕ → ℕ → SocketAddr

abbrev pub addr_eqb : SocketAddr → SocketAddr → Bool
addr_eqb (SocketAddr.v4 a p) (SocketAddr.v4 b q) = a == b && p == q
addr_eqb (SocketAddr.v4 a p) (SocketAddr.v6 b q f s) = false
addr_eqb (SocketAddr.v6 a p f s) (SocketAddr.v4 b q) = false
addr_eqb (SocketAddr.v6 a p f s) (SocketAddr.v6 b q g t) = a == b && p == q && f == g && s == t

pub addr_eqb_iff : (a b : SocketAddr) → (addr_eqb a b ≡ true) ↔ (a ≡ b)
addr_eqb_iff (SocketAddr.v4 a p) (SocketAddr.v4 b q) = ground arith
addr_eqb_iff (SocketAddr.v4 a p) (SocketAddr.v6 b q f s) = (λ h. cc, λ h. cc)
addr_eqb_iff (SocketAddr.v6 a p f s) (SocketAddr.v4 b q) = (λ h. cc, λ h. cc)
addr_eqb_iff (SocketAddr.v6 a p f s) (SocketAddr.v6 b q g t) = ground arith

instance abbrev pub addr_eq : Eq SocketAddr
addr_eq = record { eqb = addr_eqb; eqb_iff = addr_eqb_iff }

-- The operations of the crate that the source calls: `contains`, `prefix`, `ip`, `network`, `new`,
-- `parse`, `==`, and the order of the keys `(ip, prefix)` that `sort_by_key` compares.
pub record IpNetworks : Type 1 where
  pub Net : Type 0
  pub contains : Net → IpAddr → Bool
  pub prefix : Net → ℕ
  pub ip : Net → IpAddr
  pub network : Net → IpAddr
  pub make : IpAddr → ℕ → Option Net
  pub parse : Text → Option Net
  pub eqb : Net → Net → Bool
  pub eqb_iff : (a b : Net) → (eqb a b ≡ true) ↔ (a ≡ b)
