-- ===== src/Collective.antt =====
-- src/orchestration/collective_transport.hpp: what the router and the workers ask of a transport.
use aether_mo_e.Common.{ℕ, List, Result}

-- The implementations of the class, by their state. A call that throws leaves a state too.
pub record ICollectiveTransport : Type 1 where
  pub Link : Type 0
  pub send : List ℕ → Link → Result (Unit {0}) × Link
  pub receive : Link → Result (List ℕ) × Link
