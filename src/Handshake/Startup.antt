-- ===== src/Handshake/Startup.antt =====
-- The start of the target process: main of src/tracer.cpp listens (create_tcp_socket of
-- src/infrastructure.cpp), forks, and waits in get_lib_addr; in the new process before_main of
-- src/replace_function.cpp sends the address of insert_machine_code.
use ocolos_public.Prelude.{
  ℕ, ◌≤◌, ◌≡◌, refl, ap, ◌⊎◌, inl, inr, true, false, List, [], ◌∷◌, Option, none, some, ◌==◌, Bytes,
  take, drop, arith, length, ltb, Bool-cases, Outcome, done, undefined, ◌>>◌,
}
use ocolos_public.Handshake.{strcpy}
use ocolos_public.Handshake.Sockets.{
  Network, IsNetwork, Call, listen_on, connect_to, accept_on, write_to, read_from, Party, next_call,
  System, Step,
}
use ocolos_public.Handshake.Sockets.Machine.{
  Machine, OnSome, TracerGoes, LibraryGoes, Advances, IsMachine, IsAt, tracer_moves, library_moves,
}
use ocolos_public.Handshake.Sockets.Ports.{
  Sight, Shows, Shows-connect_second, Shows-accept_second, Shows-write_second, Shows-read_second,
}
use ocolos_public.Handshake.Phases.{tracer_port, behind}

abbrev pub main_port : ℕ
main_port = 8000

-- A read of nothing is only reported.
abbrev pub get_lib_addr_calls : List Call
get_lib_addr_calls = listen_on main_port ∷ accept_on main_port ∷ read_from main_port 50 false ∷ []

abbrev pub before_main_calls : Bytes → List Call
before_main_calls addr = connect_to main_port ∷ write_to main_port addr ∷ []

-- The calls of before_main, if its copy of the address fits into the block that malloc gives; if not,
-- what it does is undefined.
unfoldable pub before_main_program : (ℕ → ℕ) → Bytes → Outcome (List Call)
unfolding strcpy
before_main_program block addr = strcpy (block (length addr)) addr >> done (before_main_calls addr)

-- It makes the calls, if it is defined.
pub before_main_program-done :
    (block : ℕ → ℕ) (addr : Bytes) (calls : List Call)
    → before_main_program block addr ≡ done calls
    → before_main_calls addr ≡ calls
unfolding before_main_program strcpy
before_main_program-done block addr calls =
    elim (Bool-cases (ltb (length addr) (block (length addr)))) [
      | inl room ↦ rw room (λ e. cc)
      | inr full ↦ rw full (λ e. absurd (clash e))
    ]
  where
    clash : ◌≡◌ {A = Outcome (List Call)} undefined (done calls) → ⊥
    clash e = cc

pub main_port_apart : (tracer_port == main_port) ≡ false
main_port_apart = ground arith

pub data StartPhase : Type 0 where
  forked : StartPhase
  connected : StartPhase
  taken : StartPhase
  sent : StartPhase
  taken_sent : StartPhase
  received : StartPhase

module _ (c : ℕ) (s : Bytes) where
  unfoldable pub main_at : StartPhase → Party
  main_at forked = behind get_lib_addr_calls 1 false []
  main_at connected = behind get_lib_addr_calls 1 false []
  main_at taken = behind get_lib_addr_calls 2 false []
  main_at sent = behind get_lib_addr_calls 1 false []
  main_at taken_sent = behind get_lib_addr_calls 2 false []
  main_at received = behind get_lib_addr_calls 3 false (take 50 (c ∷ s))

  unfoldable pub before_main_at : StartPhase → Party
  before_main_at forked = behind (before_main_calls (c ∷ s)) 0 false []
  before_main_at connected = behind (before_main_calls (c ∷ s)) 1 true []
  before_main_at taken = behind (before_main_calls (c ∷ s)) 1 true []
  before_main_at sent = behind (before_main_calls (c ∷ s)) 2 true []
  before_main_at taken_sent = behind (before_main_calls (c ∷ s)) 2 true []
  before_main_at received = behind (before_main_calls (c ∷ s)) 2 true []

  abbrev see : ℕ → Bytes → Sight
  see k text = record {
    first_listens = false;
    first_queued = 0;
    second_listens = true;
    second_queued = k;
    text = text;
  }

  unfoldable pub start_sight : StartPhase → Sight
  start_sight forked = see 0 []
  start_sight connected = see 1 []
  start_sight taken = see 0 []
  start_sight sent = see 1 (c ∷ s)
  start_sight taken_sent = see 0 (c ∷ s)
  start_sight received = see 0 (drop 50 (c ∷ s))

unfoldable pub next_main : StartPhase → Option StartPhase
next_main forked = none
next_main connected = some taken
next_main taken = none
next_main sent = some taken_sent
next_main taken_sent = some received
next_main received = none

unfoldable pub next_before_main : StartPhase → Option StartPhase
next_before_main forked = some connected
next_before_main connected = some sent
next_before_main taken = some taken_sent
next_before_main sent = none
next_before_main taken_sent = none
next_before_main received = none

unfoldable pub start_rank : StartPhase → ℕ
start_rank forked = 0
start_rank connected = 1
start_rank taken = 2
start_rank sent = 2
start_rank taken_sent = 3
start_rank received = 4

pub start_rank-bound : (ph : StartPhase) → start_rank ph ≤ 4
unfolding start_rank
start_rank-bound forked = omega arith
start_rank-bound connected = omega arith
start_rank-bound taken = omega arith
start_rank-bound sent = omega arith
start_rank-bound taken_sent = omega arith
start_rank-bound received = omega arith

module _ (n : Network) (laws : IsNetwork n) (c : ℕ) (s : Bytes) where
  open n use {World}

  abbrev pub StartSeen : StartPhase → World → Type 0
  StartSeen ph w = Shows n laws tracer_port main_port main_port_apart (start_sight c s ph) w

  abbrev pub start_machine : Machine n
  start_machine = record {
    Phase = StartPhase;
    tracer_at = main_at c s;
    library_at = before_main_at c s;
    Seen = StartSeen;
    next_tracer = next_main;
    next_library = next_before_main;
    rank = start_rank;
    marked = λ ph. true;
  }

  main_goes :
      (ph : StartPhase) (w : World)
      → StartSeen ph w
      → TracerGoes n start_machine w ph (next_main ph)
  unfolding main_at before_main_at start_sight next_main next_call
  main_goes forked w h = rw (laws.accept_waits w main_port h.second_queued_is) refl
  main_goes connected w h =
      let (w', e, h') =
        Shows-accept_second n laws tracer_port main_port main_port_apart w 0 refl h in
      (w', rw e refl, h', refl)
  main_goes taken w h = rw (laws.read_waits w main_port 50 h.text_is) refl
  main_goes sent w h =
      let (w', e, h') =
        Shows-accept_second n laws tracer_port main_port main_port_apart w 0 refl h in
      (w', rw e refl, h', refl)
  main_goes taken_sent w h =
      let (w', e, h') =
        Shows-read_second n laws tracer_port main_port main_port_apart w 50 c s refl h in
      (w', rw e refl, h', refl)
  main_goes received w h = refl

  before_main_goes :
      (ph : StartPhase) (w : World)
      → StartSeen ph w
      → LibraryGoes n start_machine w ph (next_before_main ph)
  unfolding main_at before_main_at start_sight next_before_main next_call
  before_main_goes forked w h = (
    _,
    rw (laws.connects w main_port, h.second_listens_is) refl,
    Shows-connect_second n laws tracer_port main_port main_port_apart w refl h,
    refl,
  )
  before_main_goes connected w h =
      (_, refl, Shows-write_second n laws tracer_port main_port main_port_apart w (c ∷ s) h, refl)
  before_main_goes taken w h =
      (_, refl, Shows-write_second n laws tracer_port main_port main_port_apart w (c ∷ s) h, refl)
  before_main_goes sent w h = refl
  before_main_goes taken_sent w h = refl
  before_main_goes received w h = refl

  main-Advances : (ph : StartPhase) → OnSome (Advances n start_machine ph) (next_main ph)
  unfolding next_main start_rank
  main-Advances forked = tt
  main-Advances connected = (refl, λ e. refl)
  main-Advances taken = tt
  main-Advances sent = (refl, λ e. refl)
  main-Advances taken_sent = (refl, λ e. refl)
  main-Advances received = tt

  before_main-Advances :
      (ph : StartPhase) → OnSome (Advances n start_machine ph) (next_before_main ph)
  unfolding next_before_main start_rank
  before_main-Advances forked = (refl, λ e. refl)
  before_main-Advances connected = (refl, λ e. refl)
  before_main-Advances taken = (refl, λ e. refl)
  before_main-Advances sent = tt
  before_main-Advances taken_sent = tt
  before_main-Advances received = tt

  pub start_machine-IsMachine : IsMachine n start_machine
  start_machine-IsMachine = record {
    tracer_goes = main_goes;
    library_goes = before_main_goes;
    tracer_advances = main-Advances;
    library_advances = before_main-Advances;
  }

  -- Both have made all their calls, and main has the text.
  pub record HasText (t : System n) : Type 0 where
    pub got_is : t.tracer.got ≡ take 50 (c ∷ s)
    pub main_done : (t.tracer.calls ≡ []) × (t.tracer.has_exited ≡ false)
    pub before_main_done : (t.library.calls ≡ []) × (t.library.has_exited ≡ false)

  pub IsAt-HasText :
      (ph : StartPhase) (t : System n)
      → IsAt n start_machine ph t
      → HasText t ⊎ ((u : System n) × Step n t u)
  unfolding main_at before_main_at next_main next_before_main
  IsAt-HasText forked t at =
      inr (library_moves n start_machine start_machine-IsMachine forked connected t at refl)
  IsAt-HasText connected t at =
      inr (tracer_moves n start_machine start_machine-IsMachine connected taken t at refl)
  IsAt-HasText taken t at =
      inr (library_moves n start_machine start_machine-IsMachine taken taken_sent t at refl)
  IsAt-HasText sent t at =
      inr (tracer_moves n start_machine start_machine-IsMachine sent taken_sent t at refl)
  IsAt-HasText taken_sent t at =
      inr (tracer_moves n start_machine start_machine-IsMachine taken_sent received t at refl)
  IsAt-HasText received t at = inl (record {
    got_is = ap Party.got at.tracer_is;
    main_done = (ap Party.calls at.tracer_is, ap Party.has_exited at.tracer_is);
    before_main_done = (ap Party.calls at.library_is, ap Party.has_exited at.library_is);
  })
