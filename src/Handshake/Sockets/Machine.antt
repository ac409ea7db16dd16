-- ===== src/Handshake/Sockets/Machine.antt =====
-- Two programs that follow a table of phases: what holds of all their runs.
use ocolos_public.Prelude.{
  ℕ, suc, ◌+◌, ◌≡◌, sym, ap, ◌∙◌, subst, Bool, true, Option, none, some, arith,
}
use ocolos_public.Handshake.Sockets.{
  Network, Party, advance, System, Step, tracer_calls, library_calls, Run, nothing, more,
}

-- Per phase the two programs, what is seen of the sockets, the phases to which a call of either
-- leads, the number of calls behind it, and a mark.
pub record Machine (n : Network) : Type 1 where
  pub Phase : Type 0
  pub tracer_at : Phase → Party
  pub library_at : Phase → Party
  pub Seen : Phase → n.World → Type 0
  pub next_tracer : Phase → Option Phase
  pub next_library : Phase → Option Phase
  pub rank : Phase → ℕ
  pub marked : Phase → Bool

-- A value that is there has the property.
abbrev pub OnSome {ℓ} : {A : Type ℓ} → (A → Type 0) → Option A → Type 0
OnSome P none = Unit
OnSome P (some a) = P a

module _ (n : Network) (m : Machine n) where
  open n use {World}
  open m use {Phase, tracer_at, library_at, Seen, next_tracer, next_library, rank, marked}

  -- A call of the tracer leads to the next phase, or waits if there is none.
  abbrev pub TracerGoes : World → Phase → Option Phase → Type 0
  TracerGoes w ph none = advance n w (tracer_at ph) ≡ none
  TracerGoes w ph (some next) =
      (w' : World) × (advance n w (tracer_at ph) ≡ some (w', tracer_at next))
      × Seen next w'
      × (library_at next ≡ library_at ph)

  abbrev pub LibraryGoes : World → Phase → Option Phase → Type 0
  LibraryGoes w ph none = advance n w (library_at ph) ≡ none
  LibraryGoes w ph (some next) =
      (w' : World) × (advance n w (library_at ph) ≡ some (w', library_at next))
      × Seen next w'
      × (tracer_at next ≡ tracer_at ph)

  -- From a phase to the next one: one call more, and a mark stays.
  abbrev pub Advances : Phase → Phase → Type 0
  Advances ph next = (rank next ≡ suc (rank ph)) × (marked ph ≡ true → marked next ≡ true)

  -- The programs follow the table.
  pub record IsMachine : Type 0 where
    pub tracer_goes : (ph : Phase) (w : World) → Seen ph w → TracerGoes w ph (next_tracer ph)
    pub library_goes : (ph : Phase) (w : World) → Seen ph w → LibraryGoes w ph (next_library ph)
    pub tracer_advances : (ph : Phase) → OnSome (Advances ph) (next_tracer ph)
    pub library_advances : (ph : Phase) → OnSome (Advances ph) (next_library ph)

  -- Both programs are where the phase says.
  pub record IsAt (ph : Phase) (t : System n) : Type 0 where
    pub tracer_is : t.tracer ≡ tracer_at ph
    pub library_is : t.library ≡ library_at ph
    pub seen : Seen ph t.world

  -- The state is at some phase that lies `k` calls behind `ph`.
  abbrev pub Reaches : Phase → ℕ → System n → Type 0
  Reaches ph k t =
      (next : Phase) × IsAt next t
      × (rank next ≡ k + rank ph)
      × (marked ph ≡ true → marked next ≡ true)

  some_pair :
      (a c : World) (b d : Party)
      → ◌≡◌ {A = Option (World × Party)} (some (a, b)) (some (c, d))
      → (a ≡ c) × (b ≡ d)
  some_pair a c b d e = (cc, cc)

  none_pair : (c : World) (d : Party) → ◌≡◌ {A = Option (World × Party)} none (some (c, d)) → ⊥
  none_pair c d e = cc

  tracer_step :
      (ph : Phase) (o : Option Phase) (w w' : World) (p q : Party)
      → TracerGoes w ph o
      → OnSome (Advances ph) o
      → advance n w (tracer_at ph) ≡ some (w', p)
      → q ≡ library_at ph
      → Reaches ph 1 (record { world = w'; tracer = p; library = q })
  tracer_step ph none w w' p q wait on e lib = absurd (none_pair w' p (sym wait ∙ e))
  tracer_step ph (some next) w w' p q (w'', e', seen, same) (up, kept) e lib =
      let (we, pe) = some_pair w'' w' (tracer_at next) p (sym e' ∙ e) in
      (
        next,
        record {
          tracer_is = sym pe;
          library_is = lib ∙ sym same;
          seen = subst (Seen next) we seen;
        },
        omega (arith, up),
        kept,
      )

  library_step :
      (ph : Phase) (o : Option Phase) (w w' : World) (p q : Party)
      → LibraryGoes w ph o
      → OnSome (Advances ph) o
      → advance n w (library_at ph) ≡ some (w', p)
      → q ≡ tracer_at ph
      → Reaches ph 1 (record { world = w'; tracer = q; library = p })
  library_step ph none w w' p q wait on e own = absurd (none_pair w' p (sym wait ∙ e))
  library_step ph (some next) w w' p q (w'', e', seen, same) (up, kept) e own =
      let (we, pe) = some_pair w'' w' (library_at next) p (sym e' ∙ e) in
      (
        next,
        record {
          tracer_is = own ∙ sym same;
          library_is = sym pe;
          seen = subst (Seen next) we seen;
        },
        omega (arith, up),
        kept,
      )

  module _ (laws : IsMachine) where
    Step-Reaches : (ph : Phase) (t u : System n) → IsAt ph t → Step n t u → Reaches ph 1 u
    Step-Reaches ph t _ at (tracer_calls {w} {p} e) =
        tracer_step ph (next_tracer ph) t.world w p t.library (laws.tracer_goes ph t.world at.seen)
          (laws.tracer_advances ph) (ap (advance n t.world) (sym at.tracer_is) ∙ e) at.library_is
    Step-Reaches ph t _ at (library_calls {w} {p} e) =
        library_step ph (next_library ph) t.world w p t.tracer
          (laws.library_goes ph t.world at.seen) (laws.library_advances ph)
          (ap (advance n t.world) (sym at.library_is) ∙ e) at.tracer_is

    -- Every state of a run is at a phase.
    pub Run-Reaches :
        (ph : Phase) (t : System n)
        → IsAt ph t
        → (k : ℕ) (u : System n) → Run n t k u
        → Reaches ph k u
    Run-Reaches ph t at _ _ nothing = (ph, at, omega arith, λ e. e)
    Run-Reaches ph t at _ u (more {m} {t = v} run step) =
        let (next, here, up, kept) = Run-Reaches ph t at m v run in
        let (last, there, up', kept') = Step-Reaches next v u here step in
        (last, there, omega (arith, up, up'), λ e. kept' (kept e))

    pub tracer_moves :
        (ph next : Phase) (t : System n)
        → IsAt ph t
        → next_tracer ph ≡ some next
        → (u : System n) × Step n t u
    tracer_moves ph next t at e =
        let (w', e', seen, same) =
          subst (TracerGoes t.world ph) e (laws.tracer_goes ph t.world at.seen) in
        (_, tracer_calls (ap (advance n t.world) at.tracer_is ∙ e'))

    pub library_moves :
        (ph next : Phase) (t : System n)
        → IsAt ph t
        → next_library ph ≡ some next
        → (u : System n) × Step n t u
    library_moves ph next t at e =
        let (w', e', seen, same) =
          subst (LibraryGoes t.world ph) e (laws.library_goes ph t.world at.seen) in
        (_, library_calls (ap (advance n t.world) at.library_is ∙ e'))
