-- ===== src/Handshake/Delivery.antt =====
-- Every run of the two programs that exchange the path of the data: how long it is, and how it ends.
use ocolos_public.Prelude.{
  ℕ, List, subst, ◌≤◌, ◌≡◌, refl, sym, ap, ◌∙◌, ◌⊎◌, inl, inr, true, false, [], ◌∷◌, none, Bytes,
  length, drop, done, arith,
}
use ocolos_public.Handshake.{get_data_path}
use ocolos_public.Handshake.Messages.{HasNoNul, get_data_path-whole, take-all}
use ocolos_public.Handshake.Sockets.{
  Network, IsNetwork, Party, party, advance, System, Step, Run, Call,
}
use ocolos_public.Handshake.Sockets.Machine.{IsAt, Run-Reaches, tracer_moves, library_moves}
use ocolos_public.Handshake.Phases.{
  Phase, tracer_at, library_at, next_tracer, next_library, send_data_path_calls,
  send_data_path_program, send_data_path_program-done, insert_machine_code_calls, rank, in_time,
  path_machine,
}
use ocolos_public.Handshake.Follow.{Seen, path_machine-IsMachine}

rank-bound : (ph : Phase) → rank ph ≤ 8
unfolding rank
rank-bound Phase.begun = omega arith
rank-bound Phase.tracer_listens = omega arith
rank-bound Phase.library_listens = omega arith
rank-bound Phase.both_listen = omega arith
rank-bound Phase.joined_first = omega arith
rank-bound Phase.taken_first = omega arith
rank-bound Phase.joined_second = omega arith
rank-bound Phase.taken_second = omega arith
rank-bound Phase.written = omega arith
rank-bound Phase.taken_written = omega arith
rank-bound Phase.delivered = omega arith
rank-bound Phase.refused = omega arith
rank-bound Phase.refused_listening = omega arith

module _ (n : Network) (laws : IsNetwork n) (c : ℕ) (s : Bytes) where
  open n use {World}

  -- The library has the path as get_data_path reads it, and both programs have made all their calls.
  pub record IsDelivered (t : System n) : Type 0 where
    pub path_is : get_data_path t.library.got ≡ done (c ∷ s)
    pub tracer_done : (t.tracer.calls ≡ []) × (t.tracer.has_exited ≡ false)
    pub library_done : (t.library.calls ≡ []) × (t.library.has_exited ≡ false)

  -- Both programs wait for a connection that nobody makes.
  pub record IsDeadlocked (t : System n) : Type 0 where
    pub refused : t.library.joined ≡ false
    pub tracer_accepts : t.tracer.calls ≡ drop 1 (send_data_path_calls (c ∷ s))
    pub library_accepts : t.library.calls ≡ drop 2 insert_machine_code_calls
    pub tracer_waits : advance n t.world t.tracer ≡ none
    pub library_waits : advance n t.world t.library ≡ none

  -- The thread of the tracer and the library, before their first calls, on the sockets `w`.
  abbrev pub before_listen : List Call → World → System n
  before_listen calls w = record {
    world = w;
    tracer = party calls;
    library = party insert_machine_code_calls;
  }

  -- The same, once the tracer has made its first call and listens.
  abbrev pub after_listen : List Call → World → System n
  after_listen calls w = record {
    world = w;
    tracer = party (drop 1 calls);
    library = party insert_machine_code_calls;
  }

  module _ (clean : HasNoNul (c ∷ s)) (short : length (c ∷ s) ≤ 80) where
    -- How a state goes on: delivered, or with a step, or not at all.
    abbrev Goes : Phase → System n → Type 0
    Goes ph t =
        IsDelivered t ⊎ ((u : System n) × Step n t u) ⊎ (IsDeadlocked t × (in_time ph ≡ false))

    delivered-IsDelivered :
        (t : System n) → IsAt n (path_machine n laws c s) Phase.delivered t → IsDelivered t
    unfolding tracer_at library_at
    delivered-IsDelivered t at =
        let got : t.library.got ≡ c ∷ s = ap Party.got at.library_is ∙ take-all 80 (c ∷ s) short in
        let reads = get_data_path-whole c s clean short in
        record {
          path_is = ap get_data_path got ∙ reads;
          tracer_done = (ap Party.calls at.tracer_is, ap Party.has_exited at.tracer_is);
          library_done = (ap Party.calls at.library_is, ap Party.has_exited at.library_is);
        }

    refused-IsDeadlocked :
        (t : System n) → IsAt n (path_machine n laws c s) Phase.refused_listening t → IsDeadlocked t
    unfolding tracer_at library_at next_tracer next_library
    refused-IsDeadlocked t at = record {
      refused = ap Party.joined at.library_is;
      tracer_accepts = ap Party.calls at.tracer_is;
      library_accepts = ap Party.calls at.library_is;
      tracer_waits =
          ap (advance n t.world) at.tracer_is
          ∙ (path_machine-IsMachine n laws c s).tracer_goes Phase.refused_listening t.world at.seen;
      library_waits =
          ap (advance n t.world) at.library_is
          ∙ (path_machine-IsMachine n laws c s).library_goes Phase.refused_listening t.world
              at.seen;
    }

    IsAt-Goes : (ph : Phase) (t : System n) → IsAt n (path_machine n laws c s) ph t → Goes ph t
    unfolding next_tracer next_library in_time
    IsAt-Goes Phase.begun t at = inr (
        inl (
          tracer_moves n (path_machine n laws c s) (path_machine-IsMachine n laws c s) Phase.begun
            Phase.tracer_listens t at refl))
    IsAt-Goes Phase.tracer_listens t at = inr (
        inl (
          library_moves n (path_machine n laws c s) (path_machine-IsMachine n laws c s)
            Phase.tracer_listens Phase.both_listen t at refl))
    IsAt-Goes Phase.library_listens t at = inr (
        inl (
          tracer_moves n (path_machine n laws c s) (path_machine-IsMachine n laws c s)
            Phase.library_listens Phase.both_listen t at refl))
    IsAt-Goes Phase.both_listen t at = inr (
        inl (
          library_moves n (path_machine n laws c s) (path_machine-IsMachine n laws c s)
            Phase.both_listen Phase.joined_first t at refl))
    IsAt-Goes Phase.joined_first t at = inr (
        inl (
          tracer_moves n (path_machine n laws c s) (path_machine-IsMachine n laws c s)
            Phase.joined_first Phase.taken_first t at refl))
    IsAt-Goes Phase.taken_first t at = inr (
        inl (
          tracer_moves n (path_machine n laws c s) (path_machine-IsMachine n laws c s)
            Phase.taken_first Phase.joined_second t at refl))
    IsAt-Goes Phase.joined_second t at = inr (
        inl (
          tracer_moves n (path_machine n laws c s) (path_machine-IsMachine n laws c s)
            Phase.joined_second Phase.written t at refl))
    IsAt-Goes Phase.taken_second t at = inr (
        inl (
          tracer_moves n (path_machine n laws c s) (path_machine-IsMachine n laws c s)
            Phase.taken_second Phase.taken_written t at refl))
    IsAt-Goes Phase.written t at = inr (
        inl (
          library_moves n (path_machine n laws c s) (path_machine-IsMachine n laws c s)
            Phase.written Phase.taken_written t at refl))
    IsAt-Goes Phase.taken_written t at = inr (
        inl (
          library_moves n (path_machine n laws c s) (path_machine-IsMachine n laws c s)
            Phase.taken_written Phase.delivered t at refl))
    IsAt-Goes Phase.delivered t at = inl (delivered-IsDelivered t at)
    IsAt-Goes Phase.refused t at = inr (
        inl (
          tracer_moves n (path_machine n laws c s) (path_machine-IsMachine n laws c s) Phase.refused
            Phase.refused_listening t at refl))
    IsAt-Goes Phase.refused_listening t at = inr (inr (refused-IsDeadlocked t at, refl))

    run_listening :
        (w : World) (m : ℕ) (t : System n)
        → Seen n laws c s Phase.tracer_listens w
        → Run n (after_listen (send_data_path_calls (c ∷ s)) w) m t
        → (m ≤ 7) × (IsDelivered t ⊎ ((u : System n) × Step n t u))
    unfolding tracer_at library_at in_time rank
    run_listening w m t seen run =
        let start : IsAt n (path_machine n laws c s) Phase.tracer_listens
            (after_listen (send_data_path_calls (c ∷ s)) w) =
          record { tracer_is = refl; library_is = refl; seen = seen } in
        let (ph, at, up, kept) =
          Run-Reaches n (path_machine n laws c s) (path_machine-IsMachine n laws c s)
            Phase.tracer_listens (after_listen (send_data_path_calls (c ∷ s)) w) start m t run in
        (
          omega (arith, up, rank-bound ph),
          elim (IsAt-Goes ph t at) [
            | inl there ↦ inl there
            | inr waits ↦ elim waits [
              | inl step ↦ inr step
              | inr (lock, late) ↦ absurd (clash (sym (kept refl) ∙ late))
            ]
          ],
        )
      where
        clash : true ≡ false → ⊥
        clash e = cc

    -- The path of the data arrives, if the thread of the tracer listens before the library starts.
    -- From there, in whatever order the two make their calls: they make at most seven calls, and in
    -- every state that they come to one of them can make its next call, unless both are at their
    -- end, neither has exited, and get_data_path has given the library the path. The path must not
    -- be empty, have 80 bytes at most, and no NUL, and there must be
    -- room for one byte more than the path has in the block that malloc gives the tracer for the path.
    pub Run-IsDelivered :
        (block : ℕ → ℕ) (calls : List Call) (w : World) (m : ℕ) (t : System n)
        → send_data_path_program block (c ∷ s) ≡ done calls
        → Seen n laws c s Phase.tracer_listens w
        → Run n (after_listen calls w) m t
        → (m ≤ 7) × (IsDelivered t ⊎ ((u : System n) × Step n t u))
    Run-IsDelivered block calls w m t is seen run = run_listening w m t seen (
        subst (λ x. Run n (after_listen x w) m t)
          (sym (send_data_path_program-done block (c ∷ s) calls is)) run)

    run_all :
        (w : World) (m : ℕ) (t : System n)
        → Seen n laws c s Phase.begun w
        → Run n (before_listen (send_data_path_calls (c ∷ s)) w) m t
        → (m ≤ 8) × (IsDelivered t ⊎ ((u : System n) × Step n t u) ⊎ IsDeadlocked t)
    unfolding tracer_at library_at rank
    run_all w m t seen run =
        let start : IsAt n (path_machine n laws c s) Phase.begun
            (before_listen (send_data_path_calls (c ∷ s)) w) =
          record { tracer_is = refl; library_is = refl; seen = seen } in
        let (ph, at, up, kept) =
          Run-Reaches n (path_machine n laws c s) (path_machine-IsMachine n laws c s) Phase.begun
            (before_listen (send_data_path_calls (c ∷ s)) w) start m t run in
        (
          omega (arith, up, rank-bound ph),
          elim (IsAt-Goes ph t at) [
            | inl there ↦ inl there
            | inr waits ↦ elim waits [
              | inl step ↦ inr (inl step)
              | inr (lock, late) ↦ inr (inr lock)
            ]
          ],
        )

    -- The whole exchange, with no assumption on who starts: in whatever order the two make their
    -- calls, they make at most eight, and in every state that they come to one of them can make its
    -- next call, unless the library has the path and both are at their end, or the library's connect
    -- was refused, because the tracer did not listen yet, and both wait in accept for ever. The path
    -- must not be empty, have 80 bytes at most, and no NUL, and there must be
    -- room for one byte more than the path has in the block that malloc gives the tracer for the path.
    pub Run-ends :
        (block : ℕ → ℕ) (calls : List Call) (w : World) (m : ℕ) (t : System n)
        → send_data_path_program block (c ∷ s) ≡ done calls
        → Seen n laws c s Phase.begun w
        → Run n (before_listen calls w) m t
        → (m ≤ 8) × (IsDelivered t ⊎ ((u : System n) × Step n t u) ⊎ IsDeadlocked t)
    Run-ends block calls w m t is seen run = run_all w m t seen (
        subst (λ x. Run n (before_listen x w) m t)
          (sym (send_data_path_program-done block (c ∷ s) calls is)) run)
