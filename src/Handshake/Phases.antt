-- ===== src/Handshake/Phases.antt =====
-- The sending of the data's path, call by call: send_data_path of src/infrastructure.cpp, which a
-- thread of the tracer runs, and the start of insert_machine_code of src/replace_function.cpp with
-- get_data_path. The sockets themselves, their options and their closing are left out.
use ocolos_public.Prelude.{
  ℕ, ◌≡◌, Bool, true, false, List, [], ◌∷◌, Option, none, some, ◌==◌, Bytes, take, drop, arith,
  length, ltb, Bool-cases, inl, inr, Outcome, done, undefined, ◌>>◌,
}
use ocolos_public.Handshake.{strcpy}
use ocolos_public.Handshake.Sockets.{
  Network, IsNetwork, Call, listen_on, connect_to, accept_on, write_to, read_from, Party,
}
use ocolos_public.Handshake.Sockets.Machine.{Machine}
use ocolos_public.Handshake.Sockets.Ports.{Sight, Shows}

abbrev pub tracer_port : ℕ
tracer_port = 9000

abbrev pub library_port : ℕ
library_port = 18000

abbrev pub send_data_path_calls : Bytes → List Call
send_data_path_calls tmp_data_path =
    listen_on tracer_port
    ∷ accept_on tracer_port
    ∷ connect_to library_port
    ∷ write_to library_port tmp_data_path
    ∷ []

-- The calls of send_data_path, if its copy of the path fits into the block that malloc gives; if not,
-- what it does is undefined.
unfoldable pub send_data_path_program : (ℕ → ℕ) → Bytes → Outcome (List Call)
unfolding strcpy
send_data_path_program block tmp_data_path =
    strcpy (block (length tmp_data_path)) tmp_data_path >> done (send_data_path_calls tmp_data_path)

-- It makes the calls, if it is defined.
pub send_data_path_program-done :
    (block : ℕ → ℕ) (path : Bytes) (calls : List Call)
    → send_data_path_program block path ≡ done calls
    → send_data_path_calls path ≡ calls
unfolding send_data_path_program strcpy
send_data_path_program-done block path calls =
    elim (Bool-cases (ltb (length path) (block (length path)))) [
      | inl room ↦ rw room (λ e. cc)
      | inr full ↦ rw full (λ e. absurd (clash e))
    ]
  where
    clash : ◌≡◌ {A = Outcome (List Call)} undefined (done calls) → ⊥
    clash e = cc

abbrev pub insert_machine_code_calls : List Call
insert_machine_code_calls =
    listen_on library_port
    ∷ connect_to tracer_port
    ∷ accept_on library_port
    ∷ read_from library_port 80 true
    ∷ []

pub ports_apart : (tracer_port == library_port) ≡ false
ports_apart = ground arith

-- How far the two have come. `first` is the connection to the tracer's port, `second` that to the
-- library's; after `refused` the library has found nobody at the tracer's port.
pub data Phase : Type 0 where
  begun : Phase
  tracer_listens : Phase
  library_listens : Phase
  both_listen : Phase
  joined_first : Phase
  taken_first : Phase
  joined_second : Phase
  taken_second : Phase
  written : Phase
  taken_written : Phase
  delivered : Phase
  refused : Phase
  refused_listening : Phase

-- A program behind so many of its calls.
abbrev pub behind : List Call → ℕ → Bool → Bytes → Party
behind calls k joined got = record {
  calls = drop k calls;
  joined = joined;
  got = got;
  has_exited = false;
}

-- The path is not empty: it has a first char, and more.
module _ (c : ℕ) (s : Bytes) where
  unfoldable pub tracer_at : Phase → Party
  tracer_at begun = behind (send_data_path_calls (c ∷ s)) 0 false []
  tracer_at tracer_listens = behind (send_data_path_calls (c ∷ s)) 1 false []
  tracer_at library_listens = behind (send_data_path_calls (c ∷ s)) 0 false []
  tracer_at both_listen = behind (send_data_path_calls (c ∷ s)) 1 false []
  tracer_at joined_first = behind (send_data_path_calls (c ∷ s)) 1 false []
  tracer_at taken_first = behind (send_data_path_calls (c ∷ s)) 2 false []
  tracer_at joined_second = behind (send_data_path_calls (c ∷ s)) 3 true []
  tracer_at taken_second = behind (send_data_path_calls (c ∷ s)) 3 true []
  tracer_at written = behind (send_data_path_calls (c ∷ s)) 4 true []
  tracer_at taken_written = behind (send_data_path_calls (c ∷ s)) 4 true []
  tracer_at delivered = behind (send_data_path_calls (c ∷ s)) 4 true []
  tracer_at refused = behind (send_data_path_calls (c ∷ s)) 0 false []
  tracer_at refused_listening = behind (send_data_path_calls (c ∷ s)) 1 false []

  unfoldable pub library_at : Phase → Party
  library_at begun = behind insert_machine_code_calls 0 false []
  library_at tracer_listens = behind insert_machine_code_calls 0 false []
  library_at library_listens = behind insert_machine_code_calls 1 false []
  library_at both_listen = behind insert_machine_code_calls 1 false []
  library_at joined_first = behind insert_machine_code_calls 2 true []
  library_at taken_first = behind insert_machine_code_calls 2 true []
  library_at joined_second = behind insert_machine_code_calls 2 true []
  library_at taken_second = behind insert_machine_code_calls 3 true []
  library_at written = behind insert_machine_code_calls 2 true []
  library_at taken_written = behind insert_machine_code_calls 3 true []
  library_at delivered = behind insert_machine_code_calls 4 true (take 80 (c ∷ s))
  library_at refused = behind insert_machine_code_calls 2 false []
  library_at refused_listening = behind insert_machine_code_calls 2 false []

  abbrev see : Bool → ℕ → Bool → ℕ → Bytes → Sight
  see first m second k text = record {
    first_listens = first;
    first_queued = m;
    second_listens = second;
    second_queued = k;
    text = text;
  }

  unfoldable pub sight_at : Phase → Sight
  sight_at begun = see false 0 false 0 []
  sight_at tracer_listens = see true 0 false 0 []
  sight_at library_listens = see false 0 true 0 []
  sight_at both_listen = see true 0 true 0 []
  sight_at joined_first = see true 1 true 0 []
  sight_at taken_first = see true 0 true 0 []
  sight_at joined_second = see true 0 true 1 []
  sight_at taken_second = see true 0 true 0 []
  sight_at written = see true 0 true 1 (c ∷ s)
  sight_at taken_written = see true 0 true 0 (c ∷ s)
  sight_at delivered = see true 0 true 0 (drop 80 (c ∷ s))
  sight_at refused = see false 0 true 0 []
  sight_at refused_listening = see true 0 true 0 []

unfoldable pub next_tracer : Phase → Option Phase
next_tracer begun = some tracer_listens
next_tracer tracer_listens = none
next_tracer library_listens = some both_listen
next_tracer both_listen = none
next_tracer joined_first = some taken_first
next_tracer taken_first = some joined_second
next_tracer joined_second = some written
next_tracer taken_second = some taken_written
next_tracer written = none
next_tracer taken_written = none
next_tracer delivered = none
next_tracer refused = some refused_listening
next_tracer refused_listening = none

unfoldable pub next_library : Phase → Option Phase
next_library begun = some library_listens
next_library tracer_listens = some both_listen
next_library library_listens = some refused
next_library both_listen = some joined_first
next_library joined_first = none
next_library taken_first = none
next_library joined_second = some taken_second
next_library taken_second = none
next_library written = some taken_written
next_library taken_written = some delivered
next_library delivered = none
next_library refused = none
next_library refused_listening = none

-- The number of calls behind which a phase lies.
unfoldable pub rank : Phase → ℕ
rank begun = 0
rank tracer_listens = 1
rank library_listens = 1
rank both_listen = 2
rank joined_first = 3
rank taken_first = 4
rank joined_second = 5
rank taken_second = 6
rank written = 6
rank taken_written = 7
rank delivered = 8
rank refused = 2
rank refused_listening = 3

-- Whether the tracer listened before the library looked for it.
unfoldable pub in_time : Phase → Bool
in_time library_listens = false
in_time begun = false
in_time refused = false
in_time refused_listening = false
in_time ph = true

-- The table of the phases, on a path that is not empty.
abbrev pub path_machine : (n : Network) → IsNetwork n → ℕ → Bytes → Machine n
path_machine n laws c s = record {
  Phase = Phase;
  tracer_at = tracer_at c s;
  library_at = library_at c s;
  Seen = λ ph w. Shows n laws tracer_port library_port ports_apart (sight_at c s ph) w;
  next_tracer = next_tracer;
  next_library = next_library;
  rank = rank;
  marked = in_time;
}
