-- ===== src/Handshake/Sockets/Ports.antt =====
-- What is seen of two ports, and how each call changes it.
use ocolos_public.Prelude.{
  ℕ, suc, ◌≡◌, refl, ap, ◌∙◌, Bool, true, false, ◌∷◌, ◌++◌, some, ◌==◌, Bytes, take, drop, arith,
  ==_refl,
}
use ocolos_public.Handshake.Sockets.{Network, IsNetwork}

-- Of a first port whether it listens and how many wait, and of a second the same and its bytes.
pub record Sight : Type 0 where
  pub first_listens : Bool
  pub first_queued : ℕ
  pub second_listens : Bool
  pub second_queued : ℕ
  pub text : Bytes

module _ (n : Network) (laws : IsNetwork n) (a b : ℕ) (apart : (a == b) ≡ false) where
  open n use {World, listening, queued, arrived}

  pub record Shows (o : Sight) (w : World) : Type 0 where
    pub first_listens_is : listening w a ≡ o.first_listens
    pub first_queued_is : queued w a ≡ o.first_queued
    pub second_listens_is : listening w b ≡ o.second_listens
    pub second_queued_is : queued w b ≡ o.second_queued
    pub text_is : arrived w b ≡ o.text

  apart' : (b == a) ≡ false
  apart' = ground (arith, apart)

  pub Shows-listen_first :
      {o : Sight} (w : World) → Shows o w → Shows (record o { first_listens = true }) (n.listen w a)
  Shows-listen_first w s =
      let l = laws.listens w a in
      record {
        first_listens_is = l.listening_is a ∙ rw (==_refl a) refl;
        first_queued_is = l.queued_is a ∙ s.first_queued_is;
        second_listens_is = l.listening_is b ∙ rw apart' s.second_listens_is;
        second_queued_is = l.queued_is b ∙ s.second_queued_is;
        text_is = l.arrived_is b ∙ s.text_is;
      }

  pub Shows-listen_second :
      {o : Sight} (w : World)
      → Shows o w
      → Shows (record o { second_listens = true }) (n.listen w b)
  Shows-listen_second w s =
      let l = laws.listens w b in
      record {
        first_listens_is = l.listening_is a ∙ rw apart s.first_listens_is;
        first_queued_is = l.queued_is a ∙ s.first_queued_is;
        second_listens_is = l.listening_is b ∙ rw (==_refl b) refl;
        second_queued_is = l.queued_is b ∙ s.second_queued_is;
        text_is = l.arrived_is b ∙ s.text_is;
      }

  pub Shows-connect_first :
      {o : Sight} (w : World)
      → o.first_listens ≡ true
      → Shows o w
      → Shows (record o { first_queued = suc o.first_queued }) (n.connect w a).0
  Shows-connect_first w on s =
      let l = laws.connect_leaves w a in
      record {
        first_listens_is = l.listening_is a ∙ s.first_listens_is;
        first_queued_is =
            l.queued_is a ∙ rw (==_refl a, s.first_listens_is, on) (ap suc s.first_queued_is);
        second_listens_is = l.listening_is b ∙ s.second_listens_is;
        second_queued_is = l.queued_is b ∙ rw apart' s.second_queued_is;
        text_is = l.arrived_is b ∙ s.text_is;
      }

  -- A connect to a port where nothing listens changes nothing.
  pub Shows-connect_refused :
      {o : Sight} (w : World) → o.first_listens ≡ false → Shows o w → Shows o (n.connect w a).0
  Shows-connect_refused w off s =
      let l = laws.connect_leaves w a in
      record {
        first_listens_is = l.listening_is a ∙ s.first_listens_is;
        first_queued_is = l.queued_is a ∙ rw (==_refl a, s.first_listens_is, off) s.first_queued_is;
        second_listens_is = l.listening_is b ∙ s.second_listens_is;
        second_queued_is = l.queued_is b ∙ rw apart' s.second_queued_is;
        text_is = l.arrived_is b ∙ s.text_is;
      }

  pub Shows-connect_second :
      {o : Sight} (w : World)
      → o.second_listens ≡ true
      → Shows o w
      → Shows (record o { second_queued = suc o.second_queued }) (n.connect w b).0
  Shows-connect_second w on s =
      let l = laws.connect_leaves w b in
      record {
        first_listens_is = l.listening_is a ∙ s.first_listens_is;
        first_queued_is = l.queued_is a ∙ rw apart s.first_queued_is;
        second_listens_is = l.listening_is b ∙ s.second_listens_is;
        second_queued_is =
            l.queued_is b ∙ rw (==_refl b, s.second_listens_is, on) (ap suc s.second_queued_is);
        text_is = l.arrived_is b ∙ s.text_is;
      }

  pub Shows-accept_first :
      {o : Sight} (w : World) (m : ℕ)
      → o.first_queued ≡ suc m
      → Shows o w
      → (w' : World) × (n.accept w a ≡ some w') × Shows (record o { first_queued = m }) w'
  Shows-accept_first w m some_wait s =
      let (w', e, l) = laws.accept_takes w a m (s.first_queued_is ∙ some_wait) in
      (
        w',
        e,
        record {
          first_listens_is = l.listening_is a ∙ s.first_listens_is;
          first_queued_is = l.queued_is a ∙ rw (==_refl a) refl;
          second_listens_is = l.listening_is b ∙ s.second_listens_is;
          second_queued_is = l.queued_is b ∙ rw apart' s.second_queued_is;
          text_is = l.arrived_is b ∙ s.text_is;
        },
      )

  pub Shows-accept_second :
      {o : Sight} (w : World) (m : ℕ)
      → o.second_queued ≡ suc m
      → Shows o w
      → (w' : World) × (n.accept w b ≡ some w') × Shows (record o { second_queued = m }) w'
  Shows-accept_second w m some_wait s =
      let (w', e, l) = laws.accept_takes w b m (s.second_queued_is ∙ some_wait) in
      (
        w',
        e,
        record {
          first_listens_is = l.listening_is a ∙ s.first_listens_is;
          first_queued_is = l.queued_is a ∙ rw apart s.first_queued_is;
          second_listens_is = l.listening_is b ∙ s.second_listens_is;
          second_queued_is = l.queued_is b ∙ rw (==_refl b) refl;
          text_is = l.arrived_is b ∙ s.text_is;
        },
      )

  pub Shows-write_second :
      {o : Sight} (w : World) (t : Bytes)
      → Shows o w
      → Shows (record o { text = o.text ++ t }) (n.write w b t)
  Shows-write_second {o} w t s =
      let l = laws.writes w b t in
      record {
        first_listens_is = l.listening_is a ∙ s.first_listens_is;
        first_queued_is = l.queued_is a ∙ s.first_queued_is;
        second_listens_is = l.listening_is b ∙ s.second_listens_is;
        second_queued_is = l.queued_is b ∙ s.second_queued_is;
        text_is = l.arrived_is b ∙ rw (==_refl b, s.text_is) refl;
      }

  pub Shows-read_second :
      {o : Sight} (w : World) (m c : ℕ) (t : Bytes)
      → o.text ≡ c ∷ t
      → Shows o w
      → (w' : World) × (n.read w b m ≡ some (w', take m (c ∷ t)))
        × Shows (record o { text = drop m (c ∷ t) }) w'
  Shows-read_second w m c t there s =
      let (w', e, l) = laws.read_takes w b m c t (s.text_is ∙ there) in
      (
        w',
        e,
        record {
          first_listens_is = l.listening_is a ∙ s.first_listens_is;
          first_queued_is = l.queued_is a ∙ s.first_queued_is;
          second_listens_is = l.listening_is b ∙ s.second_listens_is;
          second_queued_is = l.queued_is b ∙ s.second_queued_is;
          text_is = l.arrived_is b ∙ rw (==_refl b) refl;
        },
      )
