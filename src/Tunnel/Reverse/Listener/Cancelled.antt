-- ===== src/Tunnel/Reverse/Listener/Cancelled.antt =====
-- How a listener ends.
use gonc.Prelude.{ℕ, zero, suc, ◌≡◌, refl, ap, ◌∙◌, List, [], ◌∷◌, ◌++◌, true, false}
use gonc.Tunnel.Reverse.{SshForwardListener, ChannelForwardMsg}
use gonc.Tunnel.Reverse.Listener.{close, close_at}

module _ {Client Incoming : Type 0} where
  -- `Close` called so many times
  abbrev pub closes :
      ℕ
      → SshForwardListener Client Incoming
      → SshForwardListener Client Incoming × List ChannelForwardMsg
  closes zero l = (l, [])
  closes (suc n) l = let (k, sent) = close l in let (m, more) = closes n k in (m, sent ++ more)

  closes-closed :
      (n : ℕ) (l : SshForwardListener Client Incoming)
      → closes n (record l { closed = true }) ≡ (record l { closed = true }, [])
  unfolding close close_at
  closes-closed zero l = refl
  closes-closed (suc n) l = ap (λ p. (p.0, p.1)) (closes-closed n l)

  -- However often `Close` is called, it sends one request to cancel the forward, with the address and
  -- the port of the listener, and makes `done` ready for `Accept`.
  pub closes-once :
      (n : ℕ) (l : SshForwardListener Client Incoming)
      → l.closed ≡ false
      → closes (suc n) l
        ≡ (record l { closed = true }, record { addr = l.bind_addr; port = l.bind_port } ∷ [])
  unfolding close close_at
  closes-once n l c =
      ap (λ b. let (k, sent) = close_at b l in let (m, more) = closes n k in (m, sent ++ more)) c
      ∙ ap (λ p. (p.0, (record { addr = l.bind_addr; port = l.bind_port } ∷ []) ++ p.1))
          (closes-closed n l)
