-- ===== src/Tests/Handshake.antt =====
-- The exchange of the data's path over small sockets, and the run in which the library comes too
-- early.
use ocolos_public.Prelude.{
  ℕ, zero, suc, List, done, ◌≡◌, ◌≤◌, refl, ◌⊎◌, Bool, true, false, [], ◌∷◌, ◌++◌, Option, none,
  some, ◌==◌, ◌&&◌, if◌then◌else◌, Bytes, codes, take, drop, arith,
}
use ocolos_public.Handshake.Sockets.{
  Network, IsNetwork, Leaves, System, Step, tracer_calls, library_calls, Run, Call, nothing, more,
  next_call,
}
use ocolos_public.Handshake.{strcpy}
use ocolos_public.Handshake.Startup.{before_main_calls, before_main_program}
use ocolos_public.Tests.Tracer.{usable}
use ocolos_public.Handshake.Follow.{Seen}
use ocolos_public.Handshake.Phases.{
  Phase, sight_at, tracer_port, library_port, send_data_path_calls, insert_machine_code_calls,
  send_data_path_program,
}
use ocolos_public.Utils.{to_string}
use ocolos_public.Handshake.Arrival.{after_fork, HasAddress, Run-HasAddress}
use ocolos_public.Handshake.Delivery.{
  IsDelivered, IsDeadlocked, before_listen, after_listen, Run-IsDelivered, Run-ends,
}

-- Which ports listen, the connections that wait, and the bytes on the way.
abbrev Ports : Type 0
Ports = (ℕ → Bool) × (ℕ → ℕ) × (ℕ → Bytes)

abbrev accept_from : Ports → ℕ → ℕ → Option Ports
accept_from w p zero = none
accept_from w p (suc m) = some (w.0, (λ q. if q == p then m else w.1 q), w.2)

abbrev read_some : Ports → ℕ → ℕ → Bytes → Option (Ports × Bytes)
read_some w p m [] = none
read_some w p m (c ∷ s) =
    some ((w.0, w.1, λ q. if q == p then drop m (c ∷ s) else w.2 q), take m (c ∷ s))

abbrev plain_network : Network
plain_network = record {
  World = Ports;
  listening = λ w. w.0;
  queued = λ w. w.1;
  arrived = λ w. w.2;
  listen = λ w p. ((λ q. if q == p then true else w.0 q), w.1, w.2);
  connect = λ w p. ((w.0, (λ q. if q == p && w.0 p then suc (w.1 q) else w.1 q), w.2), w.0 p);
  accept = λ w p. accept_from w p (w.1 p);
  write = λ w p s. (w.0, w.1, λ q. if q == p then w.2 q ++ s else w.2 q);
  read = λ w p m. read_some w p m (w.2 p);
}

left_as_is : (w : Ports) → Leaves plain_network w w.0 w.1 w.2
left_as_is w = record { listening_is = λ q. refl; queued_is = λ q. refl; arrived_is = λ q. refl }

plain_network-IsNetwork : IsNetwork plain_network
plain_network-IsNetwork = record {
  listens = λ w p. left_as_is _;
  connects = λ w p. refl;
  connect_leaves = λ w p. left_as_is _;
  accept_waits = λ w p e. rw e refl;
  accept_takes = λ w p m e. (_, rw e refl, left_as_is _);
  writes = λ w p s. left_as_is _;
  read_waits = λ w p m e. rw e refl;
  read_takes = λ w p m c s e. (_, rw e refl, left_as_is _);
}

-- Nobody listens, or the tracer does.
abbrev quiet : Ports
quiet = ((λ q. false), (λ q. 0), λ q. [])

abbrev with_tracer : Ports
with_tracer = ((λ q. q == 9000), (λ q. 0), λ q. [])

-- The path "/t/".
abbrev path : Bytes
path = codes "t/"

quiet-Seen : Seen plain_network plain_network-IsNetwork 47 path Phase.begun quiet
unfolding sight_at
quiet-Seen = record {
  first_listens_is = refl;
  first_queued_is = refl;
  second_listens_is = refl;
  second_queued_is = refl;
  text_is = refl;
}

with_tracer-Seen :
    Seen plain_network plain_network-IsNetwork 47 path Phase.tracer_listens with_tracer
unfolding sight_at
with_tracer-Seen = record {
  first_listens_is = refl;
  first_queued_is = refl;
  second_listens_is = refl;
  second_queued_is = refl;
  text_is = refl;
}

-- The calls of the thread of the tracer.
abbrev path_calls : List Call
path_calls = send_data_path_calls (47 ∷ path)

path_calls-program : send_data_path_program usable (47 ∷ path) ≡ done path_calls
unfolding send_data_path_program strcpy
path_calls-program = refl

-- The sockets after each call of the run: the library listens and connects, the tracer accepts,
-- connects and writes, and the library accepts and reads.
abbrev library_listens : Ports
library_listens = plain_network.listen with_tracer 18000

abbrev library_connected : Ports
library_connected = (plain_network.connect library_listens 9000).0

abbrev tracer_accepted : Ports
tracer_accepted = (
  library_connected.0,
  (λ q. if q == 9000 then 0 else library_connected.1 q),
  library_connected.2,
)

abbrev tracer_connected : Ports
tracer_connected = (plain_network.connect tracer_accepted 18000).0

abbrev tracer_written : Ports
tracer_written = plain_network.write tracer_connected 18000 (47 ∷ path)

abbrev library_accepted : Ports
library_accepted =
    (tracer_written.0, (λ q. if q == 18000 then 0 else tracer_written.1 q), tracer_written.2)

abbrev delivered : System plain_network
delivered = record {
  world = (
    library_accepted.0,
    library_accepted.1,
    λ q. if q == 18000 then [] else library_accepted.2 q,
  );
  tracer = record { calls = []; joined = true; got = []; has_exited = false };
  library = record { calls = []; joined = true; got = 47 ∷ path; has_exited = false };
}

delivered_run :
    Run plain_network
      (after_listen plain_network plain_network-IsNetwork 47 path path_calls with_tracer)
      7
      delivered
unfolding next_call
delivered_run =
    more
      (more
        (more
          (more
            (more (more (more nothing (library_calls refl)) (library_calls refl))
              (tracer_calls refl))
            (tracer_calls refl))
          (tracer_calls refl))
        (library_calls refl))
      (library_calls refl)

Run-IsDelivered_example :
    (7 ≤ 7)
    × (IsDelivered plain_network plain_network-IsNetwork 47 path delivered
        ⊎ ((u : System plain_network) × Step plain_network delivered u))
Run-IsDelivered_example =
    Run-IsDelivered plain_network plain_network-IsNetwork 47 path (refl, (refl, (refl, tt)))
      (omega arith) usable path_calls with_tracer 7 delivered path_calls-program with_tracer-Seen
      delivered_run

-- The library has listened and looked for the tracer, and then the tracer listens.
abbrev too_late : System plain_network
too_late = record {
  world = (
    (λ q. if q == tracer_port then true else if q == library_port then true else false),
    (λ q. if q == tracer_port && false then 1 else 0),
    λ q. [],
  );
  tracer = record {
    calls = drop 1 (send_data_path_calls (47 ∷ path));
    joined = false;
    got = [];
    has_exited = false;
  };
  library = record {
    calls = drop 2 insert_machine_code_calls;
    joined = false;
    got = [];
    has_exited = false;
  };
}

too_late_run :
    Run plain_network
      (before_listen plain_network plain_network-IsNetwork 47 path path_calls quiet)
      3
      too_late
unfolding next_call
too_late_run =
    more (more (more nothing (library_calls refl)) (library_calls refl)) (tracer_calls refl)

too_late-IsDeadlocked : IsDeadlocked plain_network plain_network-IsNetwork 47 path too_late
unfolding next_call
too_late-IsDeadlocked = record {
  refused = refl;
  tracer_accepts = refl;
  library_accepts = refl;
  tracer_waits = refl;
  library_waits = refl;
}

Run-ends_example :
    (3 ≤ 8)
    × (IsDelivered plain_network plain_network-IsNetwork 47 path too_late
        ⊎ ((u : System plain_network) × Step plain_network too_late u)
        ⊎ IsDeadlocked plain_network plain_network-IsNetwork 47 path too_late)
Run-ends_example =
    Run-ends plain_network plain_network-IsNetwork 47 path (refl, (refl, (refl, tt))) (omega arith)
      usable path_calls quiet 3 too_late path_calls-program quiet-Seen too_late_run

abbrev zeros : ℕ → ℕ
zeros i = 0

-- The sockets once main listens on port 8000, and the address 4660.
abbrev with_main : Ports
with_main = ((λ q. q == 8000), (λ q. 0), λ q. [])

-- The calls of before_main.
abbrev address_calls : List Call
address_calls = before_main_calls (codes "4660")

address_calls-program : before_main_program usable (to_string 4660) ≡ done address_calls
unfolding before_main_program strcpy to_string
address_calls-program = refl

-- The sockets after each call: the library connects, main accepts, the library writes, main reads.
abbrev before_main_connected : Ports
before_main_connected = (plain_network.connect with_main 8000).0

abbrev main_accepted : Ports
main_accepted = (
  before_main_connected.0,
  (λ q. if q == 8000 then 0 else before_main_connected.1 q),
  before_main_connected.2,
)

abbrev address_written : Ports
address_written = plain_network.write main_accepted 8000 (codes "4660")

abbrev arrived : System plain_network
arrived = record {
  world =
      (address_written.0, address_written.1, λ q. if q == 8000 then [] else address_written.2 q);
  tracer = record { calls = []; joined = false; got = codes "4660"; has_exited = false };
  library = record { calls = []; joined = true; got = []; has_exited = false };
}

arrived_run :
    Run plain_network
      (after_fork plain_network plain_network-IsNetwork address_calls with_main)
      4
      arrived
unfolding next_call
arrived_run =
    more (more (more (more nothing (library_calls refl)) (tracer_calls refl)) (library_calls refl))
      (tracer_calls refl)

Run-HasAddress_example :
    (4 ≤ 4)
    × (HasAddress plain_network plain_network-IsNetwork zeros 4660 arrived
        ⊎ ((u : System plain_network) × Step plain_network arrived u))
Run-HasAddress_example =
    Run-HasAddress plain_network plain_network-IsNetwork usable zeros address_calls 4660 with_main 4
      arrived (omega arith) refl address_calls-program
      (record {
        first_listens_is = refl;
        first_queued_is = refl;
        second_listens_is = refl;
        second_queued_is = refl;
        text_is = refl;
      })
      arrived_run
