-- ===== src/Handshake/Sockets.antt =====
-- The sockets between tracer and library, as listen(2), connect(2), accept(2), write(2) and read(2)
-- document them, and the calls that each of the two programs makes on them.
pub mod Ports
pub mod Machine
use ocolos_public.Prelude.{
  ℕ, suc, ◌≡◌, Bool, true, false, List, [], ◌∷◌, ◌++◌, Option, none, some, ◌==◌, ◌&&◌,
  if◌then◌else◌, Bytes, length, take, drop,
}

-- The kernel's side. Per port: whether a socket listens, how many connections wait for an accept,
-- and the bytes that were written to its connection and not read. An accept and a read give `none`
-- while they wait; a connect says whether it succeeded.
pub record Network : Type 1 where
  pub World : Type 0
  pub listening : World → ℕ → Bool
  pub queued : World → ℕ → ℕ
  pub arrived : World → ℕ → Bytes
  pub listen : World → ℕ → World
  pub connect : World → ℕ → World × Bool
  pub accept : World → ℕ → Option World
  pub write : World → ℕ → Bytes → World
  pub read : World → ℕ → ℕ → Option (World × Bytes)

-- What a call leaves of the three.
pub record Leaves (n : Network) (w : n.World) (listening : ℕ → Bool) (queued : ℕ → ℕ)
    (arrived : ℕ → Bytes) : Type 0 where
  pub listening_is : (q : ℕ) → n.listening w q ≡ listening q
  pub queued_is : (q : ℕ) → n.queued w q ≡ queued q
  pub arrived_is : (q : ℕ) → n.arrived w q ≡ arrived q

-- A connect succeeds where a socket listens, and is queued; an accept waits for one, and takes it; a
-- short text that is written arrives whole, and a read waits for some and takes what there is, up to
-- its size.
pub record IsNetwork (n : Network) : Type 0 where
  pub listens :
      (w : n.World) (p : ℕ)
      → Leaves n
          (n.listen w p)
          (λ q. if q == p then true else n.listening w q)
          (n.queued w)
          (n.arrived w)
  pub connects : (w : n.World) (p : ℕ) → (n.connect w p).1 ≡ n.listening w p
  pub connect_leaves :
      (w : n.World) (p : ℕ)
      → Leaves n
          (n.connect w p).0
          (n.listening w)
          (λ q. if q == p && n.listening w p then suc (n.queued w q) else n.queued w q)
          (n.arrived w)
  pub accept_waits : (w : n.World) (p : ℕ) → n.queued w p ≡ 0 → n.accept w p ≡ none
  pub accept_takes :
      (w : n.World) (p m : ℕ)
      → n.queued w p ≡ suc m
      → (w' : n.World) × (n.accept w p ≡ some w')
        × Leaves n w' (n.listening w) (λ q. if q == p then m else n.queued w q) (n.arrived w)
  pub writes :
      (w : n.World) (p : ℕ) (s : Bytes)
      → Leaves n
          (n.write w p s)
          (n.listening w)
          (n.queued w)
          (λ q. if q == p then n.arrived w q ++ s else n.arrived w q)
  pub read_waits : (w : n.World) (p m : ℕ) → n.arrived w p ≡ [] → n.read w p m ≡ none
  pub read_takes :
      (w : n.World) (p m c : ℕ) (s : Bytes)
      → n.arrived w p ≡ c ∷ s
      → (w' : n.World) × (n.read w p m ≡ some (w', take m (c ∷ s)))
        × Leaves n w'
            (n.listening w)
            (n.queued w)
            (λ q. if q == p then drop m (c ∷ s) else n.arrived w q)

-- The calls that one program makes, by the port of the connection; a read with its size, and with
-- whether the program exits if it gives nothing.
pub data Call : Type 0 where
  listen_on : ℕ → Call
  connect_to : ℕ → Call
  accept_on : ℕ → Call
  write_to : ℕ → Bytes → Call
  read_from : ℕ → ℕ → Bool → Call

-- One of the two programs: the calls before it, whether its last connect succeeded, what it has
-- read, and whether it has exited.
pub record Party : Type 0 where
  pub calls : List Call
  pub joined : Bool
  pub got : Bytes
  pub has_exited : Bool

abbrev pub party : List Call → Party
party calls = record { calls = calls; joined = false; got = []; has_exited = false }

module _ (n : Network) where
  open n use {World, listen, connect, accept, write, read}

  abbrev with_read : Party → List Call → Bool → World × Bytes → World × Party
  with_read p cs true (w', []) = (w', record p { calls = []; has_exited = true })
  with_read p cs false (w', []) = (w', record p { calls = cs; got = [] })
  with_read p cs must (w', c ∷ s) = (w', record p { calls = cs; got = c ∷ s })

  -- The next call of a program: `none` while it waits, or has no call left. The result of connect is
  -- not looked at; a write that fails, or writes nothing, exits.
  unfoldable pub next_call : World → Party → List Call → Option (World × Party)
  next_call w p [] = none
  next_call w p (listen_on port ∷ cs) = some (listen w port, record p { calls = cs })
  next_call w p (connect_to port ∷ cs) =
      some ((connect w port).0, record p { calls = cs; joined = (connect w port).1 })
  next_call w p (accept_on port ∷ cs) = elim (accept w port) [
    | none ↦ none
    | some w' ↦ some (w', record p { calls = cs })
  ]
  next_call w p (write_to port [] ∷ cs) = some (w, record p { calls = []; has_exited = true })
  next_call w p (write_to port (c ∷ s) ∷ cs) =
      if p.joined
      then some (write w port (c ∷ s), record p { calls = cs })
      else some (w, record p { calls = []; has_exited = true })
  next_call w p (read_from port size must ∷ cs) = elim (read w port size) [
    | none ↦ none
    | some r ↦ some (with_read p cs must r)
  ]

  abbrev pub advance : World → Party → Option (World × Party)
  advance w p = next_call w p p.calls

  -- The tracer, the library, and the sockets between them. One step is a call of either.
  pub record System : Type 0 where
    pub world : World
    pub tracer : Party
    pub library : Party

  pub data Step (s : System) : System → Type 0 where
    tracer_calls :
        {w : World} {p : Party}
        → advance s.world s.tracer ≡ some (w, p)
        → Step s (record { world = w; tracer = p; library = s.library })
    library_calls :
        {w : World} {p : Party}
        → advance s.world s.library ≡ some (w, p)
        → Step s (record { world = w; tracer = s.tracer; library = p })

  -- A run of so many steps, in any order of the two programs.
  pub data Run (s : System) : ℕ → System → Type 0 where
    nothing : Run s 0 s
    more : {m : ℕ} {t u : System} → Run s m t → Step t u → Run s (suc m) u

  -- Neither program can make a call.
  pub record IsStuck (s : System) : Type 0 where
    pub tracer_waits : advance s.world s.tracer ≡ none
    pub library_waits : advance s.world s.library ≡ none
