-- ===== src/Handshake/Follow.antt =====
-- The two programs that exchange the path follow the table of phases.
use ocolos_public.Prelude.{ℕ, refl, ◌∷◌, Bytes}
use ocolos_public.Handshake.Sockets.{Network, IsNetwork, next_call}
use ocolos_public.Handshake.Sockets.Machine.{OnSome, TracerGoes, LibraryGoes, Advances, IsMachine}
use ocolos_public.Handshake.Sockets.Ports.{
  Shows, Shows-listen_first, Shows-listen_second, Shows-connect_first, Shows-connect_refused,
  Shows-connect_second, Shows-accept_first, Shows-accept_second, Shows-write_second,
  Shows-read_second,
}
use ocolos_public.Handshake.Phases.{
  tracer_port, library_port, ports_apart, Phase, tracer_at, library_at, sight_at, next_tracer,
  next_library, rank, in_time, path_machine,
}

module _ (n : Network) (laws : IsNetwork n) (c : ℕ) (s : Bytes) where
  open n use {World}

  -- What is seen of the sockets in a phase.
  abbrev pub Seen : Phase → World → Type 0
  Seen ph w = Shows n laws tracer_port library_port ports_apart (sight_at c s ph) w

  tracer_goes :
      (ph : Phase) (w : World)
      → Seen ph w
      → TracerGoes n (path_machine n laws c s) w ph (next_tracer ph)
  unfolding tracer_at library_at sight_at next_tracer next_call
  tracer_goes Phase.begun w h =
      (_, refl, Shows-listen_first n laws tracer_port library_port ports_apart w h, refl)
  tracer_goes Phase.tracer_listens w h = rw (laws.accept_waits w tracer_port h.first_queued_is) refl
  tracer_goes Phase.library_listens w h =
      (_, refl, Shows-listen_first n laws tracer_port library_port ports_apart w h, refl)
  tracer_goes Phase.both_listen w h = rw (laws.accept_waits w tracer_port h.first_queued_is) refl
  tracer_goes Phase.joined_first w h =
      let (w', e, h') = Shows-accept_first n laws tracer_port library_port ports_apart w 0 refl h in
      (w', rw e refl, h', refl)
  tracer_goes Phase.taken_first w h = (
    _,
    rw (laws.connects w library_port, h.second_listens_is) refl,
    Shows-connect_second n laws tracer_port library_port ports_apart w refl h,
    refl,
  )
  tracer_goes Phase.joined_second w h =
      (_, refl, Shows-write_second n laws tracer_port library_port ports_apart w (c ∷ s) h, refl)
  tracer_goes Phase.taken_second w h =
      (_, refl, Shows-write_second n laws tracer_port library_port ports_apart w (c ∷ s) h, refl)
  tracer_goes Phase.written w h = refl
  tracer_goes Phase.taken_written w h = refl
  tracer_goes Phase.delivered w h = refl
  tracer_goes Phase.refused w h =
      (_, refl, Shows-listen_first n laws tracer_port library_port ports_apart w h, refl)
  tracer_goes Phase.refused_listening w h =
      rw (laws.accept_waits w tracer_port h.first_queued_is) refl

  library_goes :
      (ph : Phase) (w : World)
      → Seen ph w
      → LibraryGoes n (path_machine n laws c s) w ph (next_library ph)
  unfolding tracer_at library_at sight_at next_library next_call
  library_goes Phase.begun w h =
      (_, refl, Shows-listen_second n laws tracer_port library_port ports_apart w h, refl)
  library_goes Phase.tracer_listens w h =
      (_, refl, Shows-listen_second n laws tracer_port library_port ports_apart w h, refl)
  library_goes Phase.library_listens w h = (
    _,
    rw (laws.connects w tracer_port, h.first_listens_is) refl,
    Shows-connect_refused n laws tracer_port library_port ports_apart w refl h,
    refl,
  )
  library_goes Phase.both_listen w h = (
    _,
    rw (laws.connects w tracer_port, h.first_listens_is) refl,
    Shows-connect_first n laws tracer_port library_port ports_apart w refl h,
    refl,
  )
  library_goes Phase.joined_first w h =
      rw (laws.accept_waits w library_port h.second_queued_is) refl
  library_goes Phase.taken_first w h = rw (laws.accept_waits w library_port h.second_queued_is) refl
  library_goes Phase.joined_second w h =
      let (w', e, h') =
        Shows-accept_second n laws tracer_port library_port ports_apart w 0 refl h in
      (w', rw e refl, h', refl)
  library_goes Phase.taken_second w h = rw (laws.read_waits w library_port 80 h.text_is) refl
  library_goes Phase.written w h =
      let (w', e, h') =
        Shows-accept_second n laws tracer_port library_port ports_apart w 0 refl h in
      (w', rw e refl, h', refl)
  library_goes Phase.taken_written w h =
      let (w', e, h') =
        Shows-read_second n laws tracer_port library_port ports_apart w 80 c s refl h in
      (w', rw e refl, h', refl)
  library_goes Phase.delivered w h = refl
  library_goes Phase.refused w h = rw (laws.accept_waits w library_port h.second_queued_is) refl
  library_goes Phase.refused_listening w h =
      rw (laws.accept_waits w library_port h.second_queued_is) refl

  next_tracer-Advances :
      (ph : Phase) → OnSome (Advances n (path_machine n laws c s) ph) (next_tracer ph)
  unfolding next_tracer rank in_time
  next_tracer-Advances Phase.begun = (refl, λ e. refl)
  next_tracer-Advances Phase.tracer_listens = tt
  next_tracer-Advances Phase.library_listens = (refl, λ e. refl)
  next_tracer-Advances Phase.both_listen = tt
  next_tracer-Advances Phase.joined_first = (refl, λ e. refl)
  next_tracer-Advances Phase.taken_first = (refl, λ e. refl)
  next_tracer-Advances Phase.joined_second = (refl, λ e. refl)
  next_tracer-Advances Phase.taken_second = (refl, λ e. refl)
  next_tracer-Advances Phase.written = tt
  next_tracer-Advances Phase.taken_written = tt
  next_tracer-Advances Phase.delivered = tt
  next_tracer-Advances Phase.refused = (refl, λ e. e)
  next_tracer-Advances Phase.refused_listening = tt

  next_library-Advances :
      (ph : Phase) → OnSome (Advances n (path_machine n laws c s) ph) (next_library ph)
  unfolding next_library rank in_time
  next_library-Advances Phase.begun = (refl, λ e. e)
  next_library-Advances Phase.tracer_listens = (refl, λ e. refl)
  next_library-Advances Phase.library_listens = (refl, λ e. e)
  next_library-Advances Phase.both_listen = (refl, λ e. refl)
  next_library-Advances Phase.joined_first = tt
  next_library-Advances Phase.taken_first = tt
  next_library-Advances Phase.joined_second = (refl, λ e. refl)
  next_library-Advances Phase.taken_second = tt
  next_library-Advances Phase.written = (refl, λ e. refl)
  next_library-Advances Phase.taken_written = (refl, λ e. refl)
  next_library-Advances Phase.delivered = tt
  next_library-Advances Phase.refused = tt
  next_library-Advances Phase.refused_listening = tt

  pub path_machine-IsMachine : IsMachine n (path_machine n laws c s)
  path_machine-IsMachine = record {
    tracer_goes = tracer_goes;
    library_goes = library_goes;
    tracer_advances = next_tracer-Advances;
    library_advances = next_library-Advances;
  }
