-- ===== src/Core/Connect/Closed.antt =====
-- What `ConnectMode.Run` leaves open, and what its error says.
use gonc.Prelude.{◌≡◌, ◌⊎◌, inl, inr, refl, List, [], ◌∷◌, Option, some, Bool, true, false}
use gonc.Prelude.Result.{Result, ok, err}
use gonc.Text.{Str}
use gonc.Errors.{Error, cause, is_retryable}
use gonc.Errors.Classify.{is_retryable-with_context}
use gonc.Core.{Network, ConnectMode, Capability}
use gonc.Core.Connect.{
  Event, dials, handles, closes_conn, closes_dialer, connect_error, after_dial, run_connect,
}

-- The connections that are open after some events, and whether the dialer still is.
abbrev pub dialer_open : Bool → List Event → Bool
dialer_open b [] = b
dialer_open b (closes_dialer ∷ es) = dialer_open false es
dialer_open b (dials n a ∷ es) = dialer_open b es
dialer_open b (handles ∷ es) = dialer_open b es
dialer_open b (closes_conn ∷ es) = dialer_open b es

-- The capability works on an open connection, which is closed behind it.
abbrev pub conn_open : Bool → List Event → Bool
conn_open b [] = b
conn_open b (handles ∷ es) = conn_open true es
conn_open b (closes_conn ∷ es) = conn_open false es
conn_open b (dials n a ∷ es) = conn_open b es
conn_open b (closes_dialer ∷ es) = conn_open b es

module _ {Conn : Type 0} (dial : Network → Str → Result Error Conn)
    (handle : Capability → Conn → Option Error) where
  ends_closed :
      (m : ConnectMode) (r : Result Error Conn)
      → (dialer_open true (after_dial dial handle m r).events ≡ false)
        × (conn_open false (after_dial dial handle m r).events ≡ false)
  unfolding after_dial
  ends_closed m (ok conn) = (refl, refl)
  ends_closed m (err e) = (refl, refl)

  same_class :
      (m : ConnectMode) (e : Error)
      → is_retryable (cause (connect_error m.address e)) ≡ is_retryable (cause e)
  unfolding connect_error
  same_class m e = is_retryable-with_context (_ ∷ []) e

  result_of :
      (m : ConnectMode) (r : Result Error Conn)
      → ((conn : Conn) × (r ≡ ok conn)
          × ((after_dial dial handle m r).returned ≡ handle m.capability conn))
        ⊎ ((e : Error) × (f : Error) × (r ≡ err e)
            × ((after_dial dial handle m r).returned ≡ some f)
            × (is_retryable (cause f) ≡ is_retryable (cause e)))
  unfolding after_dial
  result_of m (ok conn) = inl (conn, refl, refl)
  result_of m (err e) = inr (e, connect_error m.address e, refl, refl, same_class m e)

  -- `Run` leaves neither the connection nor the dialer open, whether the dial succeeds or not. It
  -- returns what the capability returns or, if the dial fails, an error that is retried exactly if the
  -- dial's error is.
  pub run_connect_closes :
      (m : ConnectMode)
      → (dialer_open true (run_connect dial handle m).events ≡ false)
        × (conn_open false (run_connect dial handle m).events ≡ false)
        × (((conn : Conn) × (dial m.network m.address ≡ ok conn)
              × ((run_connect dial handle m).returned ≡ handle m.capability conn))
            ⊎ ((e : Error) × (f : Error) × (dial m.network m.address ≡ err e)
                × ((run_connect dial handle m).returned ≡ some f)
                × (is_retryable (cause f) ≡ is_retryable (cause e))))
  unfolding run_connect
  run_connect_closes m =
      let (a, b) = ends_closed m (dial m.network m.address) in
      (a, b, result_of m (dial m.network m.address))
