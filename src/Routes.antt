-- ===== src/Routes.antt =====
-- `RouteTable` of litewayd/src/state.rs: networks and the peers behind them.
pub mod Longest
pub mod Updates
mod Tests
use mathlib.Core.Option
use liteway.Common.{
  ℕ, Bool, not, Option, none, some, List, [], ◌∷◌, ◌++◌, ltb, ◌==◌, if◌then◌else◌, keep,
}
use liteway.Net.{IpAddr, IpNetworks}

-- `Iterator::max_by_key`: the last of the items with the largest key.
unfoldable pub max_by_key {ℓ} : {A : Type ℓ} → (A → ℕ) → List A → Option A
max_by_key key [] = none
max_by_key key (x ∷ xs) = elim (max_by_key key xs) [
  | none ↦ some x
  | some y ↦ if ltb (key y) (key x) then some x else some y
]

module _ (n : IpNetworks) where
  open n use {Net, contains, prefix, eqb}

  pub record RouteTable : Type 0 where
    pub routes : List (Net × ℕ)

  unfoldable pub new : RouteTable
  new = record { routes = [] }

  unfoldable pub insert : RouteTable → Net → ℕ → RouteTable
  insert t network peer_id = record {
    routes = keep (λ r. not (eqb r.0 network)) t.routes ++ ((network, peer_id) ∷ []);
  }

  unfoldable pub lookup : RouteTable → IpAddr → Option ℕ
  lookup t ip =
      Option.map (λ r. r.1) (max_by_key (λ r. prefix r.0) (keep (λ r. contains r.0 ip) t.routes))

  unfoldable pub remove_peer : RouteTable → ℕ → RouteTable
  remove_peer t peer_id = record { routes = keep (λ r. not (r.1 == peer_id)) t.routes }
