-- ===== src/Chaos/Tests.antt =====
-- Delayed nodes behind the router, and kills of two workers.
use aether_mo_e.Common.{
  ℕ, ◌+◌, ◌*◌, ◌≤◌, ◌<◌, ◌≡◌, refl, List, [], ◌∷◌, map, some, ok, err, no_known_pid, true, arith,
  count, get_or,
}
use aether_mo_e.Router.Batch.{Router}
use aether_mo_e.Router.Nodes.{Node, nodes}
use aether_mo_e.Spawn.{Child, SpawnedWorkers, World, spawn_workers}
use aether_mo_e.Spawn.Pairs.{able}
use aether_mo_e.Chaos.{
  Delayed, delay_injecting_transport, delayed_send, set_send_delay, set_receive_delay, ChaosScript,
  schedule_kill,
}
use aether_mo_e.Chaos.Sessions.{IsDelayed, sends, receives, perform-delaying}
use aether_mo_e.Chaos.Kills.{IsScheduled, schedule_kill_hits}

abbrev node : ℕ → Node
node shard = record { shard_id = shard; is_alive = true; outbox = [] }

-- A node that gets slow on both sides.
abbrev slow : Node → Delayed Node
slow n = set_receive_delay 20 (set_send_delay 5 (delay_injecting_transport n 0 0))

abbrev slow_router : Router (Delayed Node)
slow_router = record {
  expert_to_shard = (5, 1) ∷ (6, 0) ∷ [];
  shard_transports = (0, slow (node 0)) ∷ (1, delay_injecting_transport (node 1) 0 7) ∷ [];
  expert_capacity = 2;
  unhealthy_shards = [];
}

perform-delaying_example :
    IsDelayed nodes (slow (node 0)) (sends [] ∷ receives ∷ sends (1 ∷ []) ∷ [])
perform-delaying_example =
    perform-delaying nodes (slow (node 0)) (sends [] ∷ receives ∷ sends (1 ∷ []) ∷ [])

abbrev sockets : ℕ → ℕ × ℕ
sockets k = (2 * k + 3, 2 * k + 4)

abbrev pids : ℕ → ℕ
pids k = 100 + k

abbrev shards : List ℕ
shards = 7 ∷ 9 ∷ []

shards_once : (q : ℕ) → count q shards ≤ 1
shards_once q = ground arith

schedule_kill_hits_example :
    (s : SpawnedWorkers) × (w : World) × (spawn_workers
        (able sockets (λ k. some (pids k)))
        shards
        []
      ≡ (ok s, w))
    × ((k window drawn now : ℕ) (c : ChaosScript)
        → k < 2
        → drawn ≤ window
        → let (result, c') = schedule_kill s (get_or shards k 0) window drawn now c in
          let pid = get_or (map (λ (x : Child). x.pid) w.children) k 0 in
          (result ≡ ok tt) × IsScheduled pid drawn now c c')
    × ((q window drawn now : ℕ) (c : ChaosScript)
        → count q shards ≡ 0
        → schedule_kill s q window drawn now c ≡ (err (no_known_pid q), c))
schedule_kill_hits_example = schedule_kill_hits sockets pids shards [] shards_once

slept_on_send : (delayed_send nodes [] (slow (node 0))).1.slept ≡ 5
slept_on_send = refl
