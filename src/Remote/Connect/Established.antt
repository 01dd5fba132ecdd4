-- ===== src/Remote/Connect/Established.antt =====
-- What the level of a connection says.
use sirr_mesh.Base.{
  ◌≡◌, refl, subst, Bool, true, false, Option, none, some, Bool-cases, inl, inr, Result, ok, err,
}
use sirr_mesh.Exterrors.{Error}
use sirr_mesh.Remote.Connect.{
  Mode, verifying, skipping, plaintext, Dialed, Dial, Connected, in_plain, connect_plain,
  plain_mode, hello_skipping, starttls_skipping, connect_skipping, skip_mode, hello_verifying,
  starttls_verifying, connect_verifying, connect_mode, connect,
}

-- By the way in which the last handshake was done.
abbrev pub By : Dial → Mode → Connected → Type 0
By w verifying c =
    (c.level ≡ 2)
    × ((w.dialed verifying).hello_err ≡ none)
    × (c.state ≡ (w.dialed verifying).tls_state)
By w skipping c =
    (c.level ≡ 1)
    × ((w.dialed skipping).hello_err ≡ none)
    × (c.state ≡ (w.dialed skipping).tls_state)
    × ((e : Error) × (c.tls_err ≡ some e) × (w.is_verify e ≡ true))
By w plaintext c = (c.level ≡ 0) × (c.state.handshake_complete ≡ false)

abbrev pub Established : Dial → Connected → Type 0
Established w c = By w c.mode c

abbrev pub Opens : Dial → Result Error Connected → Type 0
Opens w (err e) = Unit {0}
Opens w (ok c) = Established w c

connect_plain-Opens :
    (w : Dial) (e : Option Error) (d : Dialed) (o : Option Error) → Opens w (connect_plain e d o)
unfolding connect_plain in_plain
connect_plain-Opens w e d (some x) = tt
connect_plain-Opens w e d none = (refl, refl)

plain_mode-Opens : (w : Dial) (e : Option Error) → Opens w (plain_mode w e)
unfolding plain_mode
plain_mode-Opens w e = connect_plain-Opens w e (w.dialed plaintext) (w.dialed plaintext).connect_err

module _ (w : Dial) (x : Error) (verify : w.is_verify x ≡ true) where
  abbrev again : Dialed
  again = w.dialed skipping

  hello_skipping-Opens :
      (o : Option Error) → again.hello_err ≡ o → Opens w (hello_skipping w (some x) again o)
  unfolding hello_skipping
  hello_skipping-Opens (some y) e = plain_mode-Opens w (some y)
  hello_skipping-Opens none e = (refl, e, refl, (x, refl, verify))

  starttls_skipping-Opens :
      (b : Bool) (o : Option Error) → Opens w (starttls_skipping w (some x) again b o)
  unfolding starttls_skipping in_plain
  starttls_skipping-Opens false o = (refl, refl)
  starttls_skipping-Opens true (some y) = tt
  starttls_skipping-Opens true none = hello_skipping-Opens again.hello_err refl

  connect_skipping-Opens : (o : Option Error) → Opens w (connect_skipping w (some x) again o)
  unfolding connect_skipping
  connect_skipping-Opens (some y) = tt
  connect_skipping-Opens none = starttls_skipping-Opens again.starttls again.starttls_err

  skip_mode-Opens : Opens w (skip_mode w (some x))
  unfolding skip_mode
  skip_mode-Opens = connect_skipping-Opens again.connect_err

hello_verifying-Opens :
    (w : Dial) (o : Option Error)
    → (w.dialed verifying).hello_err ≡ o
    → Opens w (hello_verifying w (w.dialed verifying) o)
unfolding hello_verifying
hello_verifying-Opens w none e = (refl, e, refl)
hello_verifying-Opens w (some x) e = elim (Bool-cases (w.is_verify x)) [
  | inl v ↦ rw v (skip_mode-Opens w x v)
  | inr v ↦ rw v (plain_mode-Opens w (some x))
]

starttls_verifying-Opens :
    (w : Dial) (b : Bool) (o : Option Error)
    → Opens w (starttls_verifying w (w.dialed verifying) b o)
unfolding starttls_verifying in_plain
starttls_verifying-Opens w false o = (refl, refl)
starttls_verifying-Opens w true (some y) = tt
starttls_verifying-Opens w true none = hello_verifying-Opens w (w.dialed verifying).hello_err refl

connect_verifying-Opens :
    (w : Dial) (o : Option Error) → Opens w (connect_verifying w (w.dialed verifying) o)
unfolding connect_verifying
connect_verifying-Opens w (some y) = tt
connect_verifying-Opens w none =
    starttls_verifying-Opens w (w.dialed verifying).starttls (w.dialed verifying).starttls_err

connect_mode-Opens : (w : Dial) (b : Bool) → Opens w (connect_mode w b)
unfolding connect_mode
connect_mode-Opens w true = connect_verifying-Opens w (w.dialed verifying).connect_err
connect_mode-Opens w false = plain_mode-Opens w none

-- The level of an open connection is what its last handshake was: authenticated if a handshake that
-- verifies the certificate was complete, encrypted if one that does not was, after a verification that
-- failed, and none without TLS.
pub connect-Established : (w : Dial) {c : Connected} → connect w ≡ ok c → Established w c
unfolding connect
connect-Established w h = subst (Opens w) h (connect_mode-Opens w w.has_config)
