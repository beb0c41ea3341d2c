-- ===== src/Tunnel/Reverse/Close.antt =====
-- tunnel/reverse_tunnel.go: `Close`, of a tunnel that was started, in one go. Whether the wait group is
-- done before the five seconds are over is a parameter, as is what `client.Close` returns.
use gonc.Prelude.{◌≡◌, refl, List, [], ◌∷◌, ◌++◌, Option, none, some, Bool, true, false}
use gonc.Text.{Str, codes}
use gonc.Errors.{Error, plain}
use gonc.Tunnel.Auth.{saying}
use gonc.Tunnel.Reverse.{ReverseTunnel, SshForwardListener}
use gonc.Tunnel.Reverse.Listener.{close}

-- `fmt.Errorf("reverse tunnel close: %v", errs)`: the texts in brackets, with spaces between them
spaced : List Str → Str
spaced [] = []
spaced (t ∷ []) = t
spaced (t ∷ u ∷ ts) = t ++ b' ' ∷ spaced (u ∷ ts)

abbrev texts_of : (Error → Str) → List Error → List Str
texts_of text [] = []
texts_of text (e ∷ es) = text e ∷ texts_of text es

timeout_errors : Bool → List Error
timeout_errors true = []
timeout_errors false = plain (codes "timeout waiting for handlers to finish") ∷ []

ssh_errors : Option Error → List Error
ssh_errors none = []
ssh_errors (some e) = saying (codes "SSH close") e ∷ []

client_errors : {Client : Type 0} → (Client → Option Error) → Option Client → List Error
unfolding ssh_errors
client_errors client_close none = []
client_errors client_close (some c) = ssh_errors (client_close c)

summary : (Error → Str) → List Error → Option Error
unfolding spaced
summary text [] = none
summary text (e ∷ es) =
    some (plain (codes "reverse tunnel close: [" ++ spaced (texts_of text (e ∷ es)) ++ b']' ∷ []))

module _ {Client Incoming : Type 0} where
  abbrev shut_listener :
      Option (SshForwardListener Client Incoming) → Option (SshForwardListener Client Incoming)
  shut_listener none = none
  shut_listener (some l) = some (close l).0

module _ {Client Incoming : Type 0} (error_text : Error → Str)
    (client_close : Client → Option Error) (in_time : Bool) where
  -- the error, the tunnel and the listener that it has closed
  close_at :
      Bool
      → ReverseTunnel Client Incoming
      → Option Error × ReverseTunnel Client Incoming × Option (SshForwardListener Client Incoming)
  unfolding timeout_errors client_errors summary
  close_at true rt = (none, rt, none)
  close_at false rt = (
    summary error_text (timeout_errors in_time ++ client_errors client_close rt.client),
    record rt { closed = true; cancelled = true; listener = none; client = none },
    shut_listener rt.listener,
  )

  -- `Close`
  pub close_tunnel :
      ReverseTunnel Client Incoming
      → Option Error × ReverseTunnel Client Incoming × Option (SshForwardListener Client Incoming)
  unfolding close_at
  close_tunnel rt = close_at rt.closed rt

  -- A second `Close` returns nil and changes nothing.
  pub close-close :
      (rt : ReverseTunnel Client Incoming)
      → rt.closed ≡ false
      → let (e, s, l) = close_tunnel rt in
        (s.client ≡ none)
        × (s.listener ≡ none)
        × (s.cancelled ≡ true)
        × (close_tunnel s ≡ (none, s, none))
  unfolding close_tunnel close_at
  close-close rt c = rw c (refl, refl, refl, refl)
