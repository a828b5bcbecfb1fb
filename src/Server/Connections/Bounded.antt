-- ===== src/Server/Connections/Bounded.antt =====
-- How many clients internal/server/ipc.go serves at once, and that `Stop` waits for them.
use supavisor.Prelude.{ℕ, ◌+◌, ◌≡◌, ◌≤◌, refl, arith}
use supavisor.Server.Connections.{
  max_connections, Accepting, waiting, holding, admitting, over, loop_ended, stopped, Connections,
  no_connections, take_slot, add_connection, give_slot, connection_done, Step, accepts, takes, adds,
  drops, returns, gives, finishes, asks, sees_end, sees_all, Reach, here, step,
}

-- The slot of the client that the loop is about to serve.
abbrev held : Accepting → ℕ
held admitting = 1
held waiting = 0
held holding = 0
held over = 0

pub record IsBounded (c : Connections) : Type 0 where
  pub slots : c.slots ≡ c.handling + held c.loop
  pub limit : c.slots ≤ max_connections
  pub counted : c.handling ≤ c.connections
  pub ended : c.stop ≡ loop_ended → c.loop ≡ over
  pub stopped : c.stop ≡ stopped → (c.loop ≡ over) × (c.connections ≡ 0)

Step-IsBounded : {c d : Connections} → Step c d → IsBounded c → IsBounded d
unfolding take_slot add_connection give_slot connection_done
Step-IsBounded {c} (accepts h) b = record {
  slots = ground (arith, b.slots, h);
  limit = b.limit;
  counted = b.counted;
  ended = λ e. ground (arith, b.ended e, h);
  stopped = λ e. ground (arith, b.stopped e, h);
}
Step-IsBounded {c} (takes h less) b = record {
  slots = ground (arith, b.slots, h);
  limit = ground (arith, less);
  counted = b.counted;
  ended = λ e. ground (arith, b.ended e, h);
  stopped = λ e. ground (arith, b.stopped e, h);
}
Step-IsBounded {c} (adds h) b = record {
  slots = ground (arith, b.slots, h);
  limit = b.limit;
  counted = ground (arith, b.counted);
  ended = λ e. ground (arith, b.ended e, h);
  stopped = λ e. ground (arith, b.stopped e, h);
}
Step-IsBounded {c} (drops h k) b = record {
  slots = ground (arith, b.slots, h);
  limit = b.limit;
  counted = b.counted;
  ended = λ e. refl;
  stopped = λ e. ground (arith, b.stopped e);
}
Step-IsBounded {c} (returns h k) b = record {
  slots = ground (arith, b.slots, h);
  limit = b.limit;
  counted = b.counted;
  ended = λ e. refl;
  stopped = λ e. ground (arith, b.stopped e);
}
Step-IsBounded {c} (gives h) b = record {
  slots = omega (arith, b.slots, h);
  limit = omega (arith, b.limit);
  counted = omega (arith, b.counted);
  ended = b.ended;
  stopped = b.stopped;
}
Step-IsBounded {c} (finishes h) b = record {
  slots = b.slots;
  limit = b.limit;
  counted = omega (arith, h);
  ended = b.ended;
  stopped = λ e. ((b.stopped e).0, omega (arith, (b.stopped e).1));
}
Step-IsBounded {c} (asks h) b = record {
  slots = b.slots;
  limit = b.limit;
  counted = b.counted;
  ended = λ e. cc;
  stopped = λ e. cc;
}
Step-IsBounded {c} (sees_end h k) b = record {
  slots = b.slots;
  limit = b.limit;
  counted = b.counted;
  ended = λ e. k;
  stopped = λ e. cc;
}
Step-IsBounded {c} (sees_all h k) b = record {
  slots = b.slots;
  limit = b.limit;
  counted = b.counted;
  ended = λ e. cc;
  stopped = λ e. (b.ended h, k);
}

Reach-IsBounded : {c : Connections} → Reach no_connections c → IsBounded c
Reach-IsBounded here = record {
  slots = refl;
  limit = omega arith;
  counted = omega arith;
  ended = λ e. cc;
  stopped = λ e. cc;
}
Reach-IsBounded (step r s) = Step-IsBounded s (Reach-IsBounded r)

-- However clients come and go: at most as many are served at once as there are slots. Once `Stop`
-- waits for the goroutines, the loop is over and starts no more of them, and once it is done none
-- is left.
pub Reach-max_connections :
    (c : Connections)
    → Reach no_connections c
    → (c.handling ≤ max_connections)
      × (c.stop ≡ loop_ended → c.loop ≡ over)
      × (c.stop ≡ stopped → (c.loop ≡ over) × (c.handling ≡ 0))
Reach-max_connections c r =
    let b = Reach-IsBounded r in
    (
      omega (arith, b.slots, b.limit),
      b.ended,
      λ e. ((b.stopped e).0, omega (arith, b.counted, (b.stopped e).1)),
    )
