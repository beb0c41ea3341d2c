-- ===== src/Util/Copy/Stopped.antt =====
-- What makes `BidirectionalCopy` close the connection.
use gonc.Prelude.{
  ◌≡◌, inl, inr, refl, sym, ap, subst, ◌∙◌, List, [], ◌∷◌, Option, none, some, Bool, true, false,
  ◌||◌, arith, Option-cases, some-eq,
}
use gonc.Errors.{Error}
use gonc.Util.Copy.{
  Sentinels, Phase, copying, half_closing, reporting, cancelling, leaving, gone, Caller, waiting,
  Copying, started, Move, outer_ends, conn_copied, reader_copied, conn_moves, reader_moves,
  caller_moves, is_error, conn_ends_copy, conn_step, reader_ends_copy, reader_step, caller_step,
  step, run,
}
use gonc.Util.Copy.Kept.{reported}
use gonc.Util.Copy.Joined.{run-none}

abbrev is_some : Option (Option Error) → Bool
is_some none = false
is_some (some e) = true

abbrev has_failed : Option (Option Error) → Bool
has_failed none = false
has_failed (some err) = is_error err

-- the outer context is done, the copy from the connection has ended, or the other one has failed
abbrev pub has_cause : Copying → Bool
has_cause s = s.outer_done || is_some (reported s.from_conn) || has_failed (reported s.from_reader)

abbrev is_waiting : Caller → Bool
is_waiting waiting = true
is_waiting _ = false

record Caused (s : Copying) : Type 0 where
  by_cancel : s.cancelled ≡ true → has_cause s ≡ true
  by_caller : s.conn_closed ≡ true → has_cause s ≡ true
  past : is_waiting s.caller ≡ false → has_cause s ≡ true

module _ (sentinels : Sentinels) (is_tcp : Bool) where
  conn_step-Caused :
      (s : Copying) (ph : Phase) {t : Copying}
      → Caused s
      → s.from_conn ≡ ph
      → conn_step s ph ≡ some t
      → Caused t
  unfolding conn_step
  conn_step-Caused s copying v e h = absurd (cc)
  conn_step-Caused s (half_closing err) v e h = absurd (cc)
  conn_step-Caused s (reporting err) v e h = ground arith
  conn_step-Caused s (cancelling err) v e h = ground arith
  conn_step-Caused s (leaving err) v e h = ground arith
  conn_step-Caused s (gone err) v e h = absurd (cc)

  reader_step-Caused :
      (s : Copying) (ph : Phase) {t : Copying}
      → Caused s
      → s.from_reader ≡ ph
      → reader_step sentinels is_tcp s ph ≡ some t
      → Caused t
  unfolding reader_step
  reader_step-Caused s copying v e h = absurd (cc)
  reader_step-Caused s (half_closing err) v e h = ground arith
  reader_step-Caused s (reporting err) v e h = ground arith
  reader_step-Caused s (cancelling err) v e h = ground arith
  reader_step-Caused s (leaving err) v e h = ground arith
  reader_step-Caused s (gone err) v e h = absurd (cc)

  caller_step-Caused :
      (s : Copying) (c : Caller) {t : Copying}
      → Caused s
      → s.caller ≡ c
      → caller_step sentinels is_tcp s c ≡ some t
      → Caused t
  unfolding caller_step
  caller_step-Caused s c v e h = ground arith

  conn_ends_copy-Caused :
      (err : Option Error) (s : Copying) (ph : Phase) {t : Copying}
      → Caused s
      → s.from_conn ≡ ph
      → conn_ends_copy err s ph ≡ some t
      → Caused t
  unfolding conn_ends_copy
  conn_ends_copy-Caused err s ph v e h = ground arith

  reader_ends_copy-Caused :
      (err : Option Error) (s : Copying) (ph : Phase) {t : Copying}
      → Caused s
      → s.from_reader ≡ ph
      → reader_ends_copy err s ph ≡ some t
      → Caused t
  unfolding reader_ends_copy
  reader_ends_copy-Caused err s ph v e h = ground arith

  step-Caused :
      (s : Copying) (m : Move) {t : Copying}
      → Caused s
      → step sentinels is_tcp s m ≡ some t
      → Caused t
  unfolding step
  step-Caused s outer_ends v h =
      subst Caused (some-eq h)
        (record { by_cancel = λ c. refl; by_caller = λ c. refl; past = λ c. refl })
  step-Caused s (conn_copied err) v h = conn_ends_copy-Caused err s s.from_conn v refl h
  step-Caused s (reader_copied err) v h = reader_ends_copy-Caused err s s.from_reader v refl h
  step-Caused s conn_moves v h = conn_step-Caused s s.from_conn v refl h
  step-Caused s reader_moves v h = reader_step-Caused s s.from_reader v refl h
  step-Caused s caller_moves v h = caller_step-Caused s s.caller v refl h

  run-Caused :
      (s : Copying) (ms : List Move) {t : Copying}
      → Caused s
      → run sentinels is_tcp (some s) ms ≡ some t
      → Caused t
  unfolding run
  run-Caused s [] v h = subst Caused (some-eq h) v
  run-Caused s (m ∷ ms) v h = elim (Option-cases (step sentinels is_tcp s m)) [
    | inl e ↦
        absurd (run-none sentinels is_tcp ms (sym (ap (λ o. run sentinels is_tcp o ms) e) ∙ h))
    | inr (u, e) ↦
        run-Caused u ms (step-Caused s m v e) (sym (ap (λ o. run sentinels is_tcp o ms) e) ∙ h)
  ]

  -- The connection is closed only for a cause: the outer context is done, or the copy from the
  -- connection has ended and reported, or the copy to it has reported an error. The end of the reader
  -- alone leaves it open for what is still to come from the other side.
  pub run_caused :
      (ms : List Move) {s : Copying}
      → run sentinels is_tcp (some started) ms ≡ some s
      → s.conn_closed ≡ true
      → has_cause s ≡ true
  run_caused ms h c =
      (run-Caused started ms
          (record {
            by_cancel = λ x. absurd (cc);
            by_caller = λ x. absurd (cc);
            past = λ x. absurd (cc);
          })
          h).by_caller
        c
