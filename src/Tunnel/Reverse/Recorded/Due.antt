-- ===== src/Tunnel/Reverse/Recorded/Due.antt =====
-- What the accept loop and the keepalive loops are to add to the counters.
use gonc.Prelude.{
  ℕ, suc, ◌+◌, ◌≡◌, refl, ap, subst, ◌∙◌, List, [], ◌∷◌, Option, none, some, Bool, true, false,
  arith,
}
use gonc.Prelude.Int.{pos, ◌+ℤ◌, sub_ℕ}
use gonc.Text.{Str}
use gonc.Errors.{Error}
use gonc.Metrics.{
  Call, connection_opened, connection_closed, bytes_received, bytes_sent, tunnel_reconnect,
  record_error, record_health_check,
}
use gonc.Metrics.Amounts.{active, total, errors, due_all, due_by}
use gonc.Tunnel.Reverse.Reconnect.{
  Event, closes_listener, closes_client, counts, sleeps, starts_keepalive, Reconnected, reconnect,
}
use gonc.Tunnel.Reverse.Reconnect.Quiet.{AllQuiet, reconnect-AllQuiet}
use gonc.Tunnel.Reverse.Reconnect.Course.{recorded}
use gonc.Tunnel.Reverse.Recorded.{
  Round, takes, fails, goes_on, calls_then, on_failure, accept_calls, keepalive_calls,
}

pub nothing_more : (n : ℕ) → pos 0 +ℤ pos n ≡ pos n
unfolding ◌+ℤ◌
nothing_more n = ground arith

pub one_more : (n : ℕ) → pos 1 +ℤ pos n ≡ pos (suc n)
unfolding ◌+ℤ◌
one_more n = ground arith

pub both : (m n : ℕ) → pos m +ℤ pos n ≡ pos (m + n)
unfolding ◌+ℤ◌
both m n = ground arith

below_zero : (n : ℕ) → pos 0 +ℤ sub_ℕ 0 n ≡ sub_ℕ 0 n
unfolding ◌+ℤ◌
below_zero n = ground arith

-- So many connections are opened and errors recorded, and none closed.
pub record Due (ms : List Call) (connections recorded : ℕ) : Type 0 where
  pub on_active : due_all active ms ≡ pos connections
  pub on_total : due_all total ms ≡ pos connections
  pub on_errors : due_all errors ms ≡ pos recorded

none-Due : Due [] 0 0
none-Due = record { on_active = refl; on_total = refl; on_errors = refl }

opened-Due : {ms : List Call} {a e : ℕ} → Due ms a e → Due (connection_opened ∷ ms) (suc a) e
opened-Due {a = a} {e = e} d = record {
  on_active = ap (λ z. pos 1 +ℤ z) d.on_active ∙ one_more a;
  on_total = ap (λ z. pos 1 +ℤ z) d.on_total ∙ one_more a;
  on_errors = ap (λ z. pos 0 +ℤ z) d.on_errors ∙ nothing_more e;
}

error-Due :
    {ms : List Call} {a e : ℕ} (t : ℕ) (s : Str)
    → Due ms a e
    → Due (record_error t s ∷ ms) a (suc e)
error-Due {a = a} {e = e} t s d = record {
  on_active = ap (λ z. pos 0 +ℤ z) d.on_active ∙ nothing_more a;
  on_total = ap (λ z. pos 0 +ℤ z) d.on_total ∙ nothing_more a;
  on_errors = ap (λ z. pos 1 +ℤ z) d.on_errors ∙ one_more e;
}

reconnect-Due : {ms : List Call} {a e : ℕ} → Due ms a e → Due (tunnel_reconnect ∷ ms) a e
reconnect-Due {a = a} {e = e} d = record {
  on_active = ap (λ z. pos 0 +ℤ z) d.on_active ∙ nothing_more a;
  on_total = ap (λ z. pos 0 +ℤ z) d.on_total ∙ nothing_more a;
  on_errors = ap (λ z. pos 0 +ℤ z) d.on_errors ∙ nothing_more e;
}

module _ {Client Listener : Type 0} where
  calls_then-Due :
      (es : List (Event Client Listener)) {rest : List Call} {a e : ℕ}
      → AllQuiet es
      → Due rest a e
      → Due (calls_then es rest) a (recorded es + e)
  unfolding calls_then
  calls_then-Due [] q d = subst (Due _ _) (omega arith) d
  calls_then-Due (counts (record_error t s) ∷ es) (_, q) d =
      subst (Due _ _) (omega arith) (error-Due t s (calls_then-Due es q d))
  calls_then-Due (counts tunnel_reconnect ∷ es) (_, q) d = reconnect-Due (calls_then-Due es q d)
  calls_then-Due (counts connection_opened ∷ es) (q, _) d = absurd q
  calls_then-Due (counts connection_closed ∷ es) (q, _) d = absurd q
  calls_then-Due (counts (bytes_received n) ∷ es) (q, _) d = absurd q
  calls_then-Due (counts (bytes_sent n) ∷ es) (q, _) d = absurd q
  calls_then-Due (counts (record_health_check t) ∷ es) (q, _) d = absurd q
  calls_then-Due (sleeps x ∷ es) q d = calls_then-Due es q d
  calls_then-Due (closes_listener l ∷ es) q d = calls_then-Due es q d
  calls_then-Due (closes_client c ∷ es) q d = calls_then-Due es q d
  calls_then-Due (starts_keepalive ∷ es) q d = calls_then-Due es q d

abbrev pub unless : Option Error → ℕ → ℕ
unless none n = n
unless (some e) n = 0

goes_on-Due :
    (o : Option Error) {rest : List Call} {a e : ℕ}
    → Due rest a e
    → Due (goes_on o rest) (unless o a) (unless o e)
unfolding goes_on
goes_on-Due none d = d
goes_on-Due (some x) d = none-Due

module _ {Client Listener : Type 0} where
  -- how many connections the later rounds take, and how many errors this round and they record
  abbrev pub then_taken : (ctx_done auto_reconnect : Bool) → Reconnected Client Listener → ℕ → ℕ
  then_taken true auto_reconnect r n = 0
  then_taken false false r n = 0
  then_taken false true r n = unless r.returned n

  abbrev pub then_recorded : (ctx_done auto_reconnect : Bool) → Reconnected Client Listener → ℕ → ℕ
  then_recorded true auto_reconnect r n = 0
  then_recorded false false r n = 1
  then_recorded false true r n = suc (recorded r.events + unless r.returned n)

  on_failure-Due :
      (d auto : Bool) (t : ℕ) (s : Str) (r : Reconnected Client Listener) {rest : List Call}
      {a e : ℕ}
      → AllQuiet r.events
      → Due rest a e
      → Due
          (on_failure d auto (record_error t s) r rest)
          (then_taken d auto r a)
          (then_recorded d auto r e)
  unfolding on_failure
  on_failure-Due true auto t s r q v = none-Due
  on_failure-Due false false t s r q v = error-Due t s none-Due
  on_failure-Due false true t s r q v =
      error-Due t s (calls_then-Due r.events q (goes_on-Due r.returned v))

module _ {Client Listener : Type 0} (error_text : Error → Str) (now : ℕ → ℕ)
    (keepalive auto_reconnect : Bool) where
  -- the connections that the accept loop takes in these rounds
  abbrev pub taken_in : List (Round Client Listener) → ℕ
  taken_in [] = 0
  taken_in (takes ∷ rounds) = suc (taken_in rounds)
  taken_in (fails d t e attempt l c ∷ rounds) =
      then_taken d auto_reconnect (reconnect attempt error_text now keepalive l c) (taken_in rounds)

  -- its failed calls of `Accept`, but for one that ends it with the context, and the failed attempts
  -- to reconnect
  abbrev pub recorded_in : List (Round Client Listener) → ℕ
  recorded_in [] = 0
  recorded_in (takes ∷ rounds) = recorded_in rounds
  recorded_in (fails d t e attempt l c ∷ rounds) =
      then_recorded d auto_reconnect (reconnect attempt error_text now keepalive l c)
        (recorded_in rounds)

  pub accept_calls-Due :
      (rounds : List (Round Client Listener))
      → Due
          (accept_calls error_text now keepalive auto_reconnect rounds)
          (taken_in rounds)
          (recorded_in rounds)
  unfolding accept_calls
  accept_calls-Due [] = none-Due
  accept_calls-Due (takes ∷ rounds) = opened-Due (accept_calls-Due rounds)
  accept_calls-Due (fails d t e attempt l c ∷ rounds) =
      on_failure-Due d auto_reconnect t _ _
        (reconnect-AllQuiet error_text now keepalive attempt l c) (accept_calls-Due rounds)

-- A keepalive loop ends with the first request that is not answered.
abbrev pub unanswered : List (Option Error) → ℕ
unanswered [] = 0
unanswered (none ∷ answers) = unanswered answers
unanswered (some e ∷ answers) = 1

abbrev pub all_unanswered : List (List (Option Error)) → ℕ
all_unanswered [] = 0
all_unanswered (answers ∷ more) = unanswered answers + all_unanswered more

module _ (error_text : Error → Str) (now : ℕ) where
  -- the keepalive loops before the other goroutines
  abbrev pub watched : List (List (Option Error)) → List (List Call) → List (List Call)
  watched [] rest = rest
  watched (answers ∷ more) rest = keepalive_calls error_text now answers ∷ watched more rest

  health-Due :
      {ms : List Call} {a e : ℕ} (t : ℕ) → Due ms a e → Due (record_health_check t ∷ ms) a e
  health-Due {a = a} {e = e} t d = record {
    on_active = ap (λ z. pos 0 +ℤ z) d.on_active ∙ nothing_more a;
    on_total = ap (λ z. pos 0 +ℤ z) d.on_total ∙ nothing_more a;
    on_errors = ap (λ z. pos 0 +ℤ z) d.on_errors ∙ nothing_more e;
  }

  keepalive_calls-Due :
      (answers : List (Option Error))
      → Due (keepalive_calls error_text now answers) 0 (unanswered answers)
  unfolding keepalive_calls
  keepalive_calls-Due [] = none-Due
  keepalive_calls-Due (none ∷ answers) = health-Due now (keepalive_calls-Due answers)
  keepalive_calls-Due (some e ∷ answers) = error-Due now _ none-Due

  pub watched-active :
      (bs : List (List (Option Error))) (rest : List (List Call)) (n : ℕ)
      → due_by active rest ≡ sub_ℕ 0 n
      → due_by active (watched bs rest) ≡ sub_ℕ 0 n
  watched-active [] rest n h = h
  watched-active (b ∷ bs) rest n h =
      ap (λ z. z +ℤ due_by active (watched bs rest)) (keepalive_calls-Due b).on_active
      ∙ ap (λ z. pos 0 +ℤ z) (watched-active bs rest n h)
      ∙ below_zero n

  pub watched-total :
      (bs : List (List (Option Error))) (rest : List (List Call))
      → due_by total rest ≡ pos 0
      → due_by total (watched bs rest) ≡ pos 0
  watched-total [] rest h = h
  watched-total (b ∷ bs) rest h =
      ap (λ z. z +ℤ due_by total (watched bs rest)) (keepalive_calls-Due b).on_total
      ∙ ap (λ z. pos 0 +ℤ z) (watched-total bs rest h)
      ∙ nothing_more 0

  pub watched-errors :
      (bs : List (List (Option Error))) (rest : List (List Call)) (n : ℕ)
      → due_by errors rest ≡ pos n
      → due_by errors (watched bs rest) ≡ pos (all_unanswered bs + n)
  watched-errors [] rest n h = h ∙ ap pos (omega arith)
  watched-errors (b ∷ bs) rest n h =
      ap (λ z. z +ℤ due_by errors (watched bs rest)) (keepalive_calls-Due b).on_errors
      ∙ ap (λ z. pos (unanswered b) +ℤ z) (watched-errors bs rest n h)
      ∙ both (unanswered b) (all_unanswered bs + n)
      ∙ ap pos (omega arith)
