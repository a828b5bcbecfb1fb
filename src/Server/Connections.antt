-- ===== src/Server/Connections.antt =====
-- The connections of internal/server/ipc.go: the loop `acceptConnections`, the goroutines that it
-- starts, and `Stop`, which waits for them, as steps in any order. What a client sends is not
-- modelled, nor is a failed accept, after which the loop goes on.
pub mod Bounded
use supavisor.Prelude.{ℕ, zero, suc, ◌-◌, ◌≡◌, ◌≢◌, ◌<◌}

abbrev pub max_connections : ℕ
max_connections = 32

-- The loop waits for a client, holds one until there is a slot, has a slot for it, or is over.
pub data Accepting : Type 0 where
  waiting holding admitting over : Accepting

-- How far `Stop` is: it closes the channel, waits for the loop, and waits for the goroutines.
pub data Stopping : Type 0 where
  not_asked stop_chan_closed loop_ended stopped : Stopping

-- `connections` is the counter of the WaitGroup, `handling` the goroutines that have a slot.
pub record Connections : Type 0 where
  pub loop : Accepting
  pub slots : ℕ
  pub connections : ℕ
  pub handling : ℕ
  pub stop : Stopping

abbrev pub no_connections : Connections
no_connections = record {
  loop = waiting;
  slots = 0;
  connections = 0;
  handling = 0;
  stop = not_asked;
}

unfoldable pub take_slot : Connections → Connections
take_slot c = record c { loop = admitting; slots = suc c.slots }

unfoldable pub add_connection : Connections → Connections
add_connection c = record c {
  loop = waiting;
  connections = suc c.connections;
  handling = suc c.handling;
}

-- A goroutine gives its slot back before it is done.
unfoldable pub give_slot : Connections → Connections
give_slot c = record c { slots = c.slots - 1; handling = c.handling - 1 }

unfoldable pub connection_done : Connections → Connections
connection_done c = record c { connections = c.connections - 1 }

pub data Step (c : Connections) : Connections → Type 0 where
  accepts : c.loop ≡ waiting → Step c (record c { loop = holding })
  takes : c.loop ≡ holding → c.slots < max_connections → Step c (take_slot c)
  adds : c.loop ≡ admitting → Step c (add_connection c)
  drops : c.loop ≡ holding → c.stop ≢ not_asked → Step c (record c { loop = over })
  returns : c.loop ≡ waiting → c.stop ≢ not_asked → Step c (record c { loop = over })
  gives : 0 < c.handling → Step c (give_slot c)
  finishes : c.handling < c.connections → Step c (connection_done c)
  asks : c.stop ≡ not_asked → Step c (record c { stop = stop_chan_closed })
  sees_end : c.stop ≡ stop_chan_closed → c.loop ≡ over → Step c (record c { stop = loop_ended })
  sees_all : c.stop ≡ loop_ended → c.connections ≡ 0 → Step c (record c { stop = stopped })

pub data Reach (c : Connections) : Connections → Type 0 where
  here : Reach c c
  step : {u v : Connections} → Reach c u → Step u v → Reach c v
