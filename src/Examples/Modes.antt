-- ===== src/Examples/Modes.antt =====
-- A client and a listener.
use gonc.Prelude.{ℕ, ◌≡◌, ◌⊎◌, refl, [], ◌∷◌, ◌++◌, Option, none, some, true, false}
use gonc.Prelude.Int.{pos}
use gonc.Prelude.Result.{Result, ok, err}
use gonc.Text.{Str, codes}
use gonc.Errors.{Error, plain, cause, is_retryable}
use gonc.Core.{Network, tcp, tcp_dialer, Capability, relay, ConnectMode, ListenMode}
use gonc.Core.Connect.{run_connect}
use gonc.Core.Connect.Closed.{dialer_open, conn_open, run_connect_closes}
use gonc.Core.Listen.{closes_listener, run_listen}
use gonc.Core.Listen.Served.{script, spawned, run_listen_spawns}

abbrev refusal : Error
refusal = plain (codes "connection refused")

abbrev refuses : Network → Str → Result Error ℕ
refuses n a = err refusal

abbrev no_error : Capability → ℕ → Option Error
no_error c conn = none

abbrev client : ConnectMode
client = record {
  dialer = tcp_dialer (pos 0) (pos 0);
  capability = relay;
  network = tcp;
  address = codes "h:80";
}

run_connect_closes_example :
    (dialer_open true (run_connect refuses no_error client).events ≡ false)
    × (conn_open false (run_connect refuses no_error client).events ≡ false)
    × (((conn : ℕ) × (refuses client.network client.address ≡ ok conn)
          × ((run_connect refuses no_error client).returned ≡ no_error client.capability conn))
        ⊎ ((e : Error) × (f : Error) × (refuses client.network client.address ≡ err e)
            × ((run_connect refuses no_error client).returned ≡ some f)
            × (is_retryable (cause f) ≡ is_retryable (cause e))))
run_connect_closes_example = run_connect_closes refuses no_error client

abbrev server : ListenMode
server = record {
  address = codes ":8080";
  network = tcp;
  keep_open = true;
  timeout = pos 0;
  capability = relay;
}

abbrev handled : ℕ → Option Error
handled conn = none

run_listen_spawns_example :
    run_listen handled server none none none (script (1 ∷ 2 ∷ []) refusal true)
    ≡ some (record { returned = none; events = spawned (1 ∷ 2 ∷ []) ++ closes_listener ∷ [] })
run_listen_spawns_example =
    run_listen_spawns handled server (1 ∷ 2 ∷ []) refusal true none none refl refl
