-- ===== src/Handshake/Arrival.antt =====
-- Every run of the start of the target process, up to the address that main then has.
use ocolos_public.Prelude.{
  ℕ, ◌^◌, ◌≤◌, ◌<◌, ◌≡◌, refl, ap, ◌∙◌, sym, subst, ◌⊎◌, inl, inr, true, false, List, [], ◌∷◌,
  Bytes, length, take, drop, done, arith,
}
use ocolos_public.Utils.{to_string}
use ocolos_public.Handshake.{get_lib_addr}
use ocolos_public.Handshake.Messages.{
  get_lib_addr-to_string, to_string-some, to_string-length, take-all,
}
use ocolos_public.Handshake.Sockets.{Network, IsNetwork, Call, party, System, Step, Run}
use ocolos_public.Handshake.Sockets.Machine.{IsAt, Run-Reaches}
use ocolos_public.Handshake.Sockets.Ports.{Sight, Shows}
use ocolos_public.Handshake.Phases.{tracer_port}
use ocolos_public.Handshake.Startup.{
  main_port, main_port_apart, get_lib_addr_calls, before_main_calls, before_main_program,
  before_main_program-done, StartPhase, main_at, before_main_at, start_sight, start_rank,
  start_rank-bound, StartSeen, start_machine, start_machine-IsMachine, HasText, IsAt-HasText,
}

starts_with_char : (t : Bytes) → 0 < length t → (c : ℕ) × (s : Bytes) × (c ∷ s ≡ t)
starts_with_char [] h = absurd (omega arith)
starts_with_char (c ∷ s) h = (c, s, refl)

-- What is seen of the sockets after the fork: main listens, and nothing has come.
abbrev pub listens_only : Sight
listens_only = record {
  first_listens = false;
  first_queued = 0;
  second_listens = true;
  second_queued = 0;
  text = [];
}

module _ (n : Network) (laws : IsNetwork n) where
  open n use {World}

  -- main behind create_tcp_socket and the fork, and before_main at its start.
  abbrev pub after_fork : List Call → World → System n
  after_fork calls w = record {
    world = w;
    tracer = party (drop 1 get_lib_addr_calls);
    library = party calls;
  }

  -- main has the address as get_lib_addr reads it, and both have made all their calls.
  pub record HasAddress (junk : ℕ → ℕ) (addr : ℕ) (t : System n) : Type 0 where
    pub addr_is : get_lib_addr junk t.tracer.got ≡ done addr
    pub main_done : (t.tracer.calls ≡ []) × (t.tracer.has_exited ≡ false)
    pub before_main_done : (t.library.calls ≡ []) × (t.library.has_exited ≡ false)

  HasText-HasAddress :
      (junk : ℕ → ℕ) (addr c : ℕ) (s : Bytes) (t : System n)
      → addr < 2 ^ 63
      → junk (length (to_string addr)) ≡ 0
      → (c ∷ s) ≡ to_string addr
      → HasText n laws c s t
      → HasAddress junk addr t
  HasText-HasAddress junk addr c s t h zeroed is x = record {
    addr_is =
        ap (get_lib_addr junk) (
          x.got_is
          ∙ ap (take 50) is
          ∙ take-all 50 (to_string addr) (omega (arith, to_string-length addr h)))
        ∙ get_lib_addr-to_string junk addr h zeroed;
    main_done = x.main_done;
    before_main_done = x.before_main_done;
  }

  run_text :
      (junk : ℕ → ℕ) (addr c : ℕ) (s : Bytes) (w : World) (m : ℕ) (t : System n)
      → addr < 2 ^ 63
      → junk (length (to_string addr)) ≡ 0
      → (c ∷ s) ≡ to_string addr
      → StartSeen n laws c s StartPhase.forked w
      → Run n (after_fork (before_main_calls (c ∷ s)) w) m t
      → (m ≤ 4) × (HasAddress junk addr t ⊎ ((u : System n) × Step n t u))
  unfolding main_at before_main_at start_rank
  run_text junk addr c s w m t h zeroed is seen run =
      let start : IsAt n (start_machine n laws c s) StartPhase.forked
          (after_fork (before_main_calls (c ∷ s)) w) =
        record { tracer_is = refl; library_is = refl; seen = seen } in
      let (ph, at, up, kept) =
        Run-Reaches n (start_machine n laws c s) (start_machine-IsMachine n laws c s)
          StartPhase.forked (after_fork (before_main_calls (c ∷ s)) w) start m t run in
      (
        omega (arith, up, start_rank-bound ph),
        elim (IsAt-HasText n laws c s ph t at) [
          | inl there ↦ inl (HasText-HasAddress junk addr c s t h zeroed is there)
          | inr step ↦ inr step
        ],
      )

  -- The address of insert_machine_code arrives. From the fork on, in whatever order main and the
  -- library in the new process make their calls, they make at most four, and in every state that they
  -- come to one of them can make its next call, unless both are at their end, neither has exited, and
  -- get_lib_addr has the address. The address must be a positive long, the byte that malloc left
  -- behind the text in the tracer's buffer be 0, and there must be room for one byte more than the text
  -- has in the block that malloc gives the library for the text.
  pub Run-HasAddress :
      (block junk : ℕ → ℕ) (calls : List Call) (addr : ℕ) (w : World) (m : ℕ) (t : System n)
      → addr < 2 ^ 63
      → junk (length (to_string addr)) ≡ 0
      → before_main_program block (to_string addr) ≡ done calls
      → Shows n laws tracer_port main_port main_port_apart listens_only w
      → Run n (after_fork calls w) m t
      → (m ≤ 4) × (HasAddress junk addr t ⊎ ((u : System n) × Step n t u))
  unfolding start_sight
  Run-HasAddress block junk calls addr w m t h zeroed program seen run =
      let (c, s, is) = starts_with_char (to_string addr) (to_string-some addr) in
      let made = before_main_program-done block (to_string addr) calls program in
      run_text junk addr c s w m t h zeroed is seen
        (subst (λ x. Run n (after_fork x w) m t) (sym (ap before_main_calls is ∙ made)) run)
