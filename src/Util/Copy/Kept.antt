-- ===== src/Util/Copy/Kept.antt =====
-- What holds of the channel, the wait group and the caller of `BidirectionalCopy` at every moment.
use gonc.Prelude.{
  ℕ, ◌+◌, ◌-◌, ◌≡◌, ◌≢◌, ◌⊎◌, inl, inr, refl, sym, ap, subst, ◌∙◌, List, [], ◌∷◌, ◌++◌, Option,
  none, some, Bool, true, false, ◌||◌, arith, Bool-cases, some-eq, length, ltb, ◌==◌,
}
use gonc.Errors.{Error}
use gonc.Util.Copy.{
  Sentinels, Phase, copying, half_closing, reporting, cancelling, leaving, gone, Caller, waiting,
  closing, joining, returned, Copying, started, Move, outer_ends, conn_copied, reader_copied,
  conn_moves, reader_moves, caller_moves, is_error, conn_ends_copy, conn_step, reader_ends_copy,
  reader_step, caller_step, first_harmful, step,
}

-- what a goroutine has sent
abbrev pub reported : Phase → Option (Option Error)
reported (cancelling err) = some err
reported (leaving err) = some err
reported (gone err) = some err
reported _ = none

abbrev pub unfinished : Phase → ℕ
unfinished (gone err) = 0
unfinished _ = 1

-- The channel holds what the two have sent, in either order.
abbrev pub Holds : List (Option Error) → Option (Option Error) → Option (Option Error) → Type 0
Holds ch none none = ch ≡ []
Holds ch (some a) none = ch ≡ a ∷ []
Holds ch none (some b) = ch ≡ b ∷ []
Holds ch (some a) (some b) = (ch ≡ a ∷ b ∷ []) ⊎ (ch ≡ b ∷ a ∷ [])

-- The caller is past `conn.Close()`.
abbrev pub has_closed : Caller → Bool
has_closed waiting = false
has_closed closing = false
has_closed joining = true
has_closed (returned err) = true

module _ (sentinels : Sentinels) where
  -- what is so at the return
  abbrev pub Returned : Copying → Caller → Type 0
  Returned s (returned err) = (s.wait_group ≡ 0) × (err ≡ first_harmful sentinels s.err_ch)
  Returned s _ = Unit

  pub record Inv (s : Copying) : Type 0 where
    pub counted : s.wait_group ≡ unfinished s.from_conn + unfinished s.from_reader
    pub held : Holds s.err_ch (reported s.from_conn) (reported s.from_reader)
    pub closed : s.conn_closed ≡ has_closed s.caller
    pub at_return : Returned s s.caller

  pub started-Inv : Inv started
  started-Inv = record { counted = refl; held = refl; closed = refl; at_return = tt }

  still : (s t : Copying) (c : Caller) → Returned s c → s.wait_group ≢ 0 → Returned t c
  still s t (returned err) (z, e) n = absurd (n z)
  still s t waiting r n = tt
  still s t closing r n = tt
  still s t joining r n = tt

  conn_sends :
      (ch : List (Option Error)) (err : Option Error) (b : Option (Option Error))
      → Holds ch none b
      → Holds (ch ++ err ∷ []) (some err) b
  conn_sends ch err none h = ap (λ xs. xs ++ err ∷ []) h
  conn_sends ch err (some b) h = inr (ap (λ xs. xs ++ err ∷ []) h)

  reader_sends :
      (ch : List (Option Error)) (err : Option Error) (a : Option (Option Error))
      → Holds ch a none
      → Holds (ch ++ err ∷ []) a (some err)
  reader_sends ch err none h = ap (λ xs. xs ++ err ∷ []) h
  reader_sends ch err (some a) h = inl (ap (λ xs. xs ++ err ∷ []) h)

  -- A goroutine that is not at its end keeps the caller from returning.
  conn_works :
      (s : Copying) (ph : Phase) → Inv s → s.from_conn ≡ ph → unfinished ph ≡ 1 → s.wait_group ≢ 0
  conn_works s ph v e u z = omega (arith, v.counted, ap unfinished e)

  reader_works :
      (s : Copying) (ph : Phase) → Inv s → s.from_reader ≡ ph → unfinished ph ≡ 1 → s.wait_group ≢ 0
  reader_works s ph v e u z = omega (arith, v.counted, ap unfinished e)

  conn_goes :
      (s t : Copying) (ph q : Phase)
      → Inv s
      → s.from_conn ≡ ph
      → unfinished ph ≡ 1
      → t.from_conn ≡ q
      → t.from_reader ≡ s.from_reader
      → t.caller ≡ s.caller
      → t.conn_closed ≡ s.conn_closed
      → t.wait_group + 1 ≡ s.wait_group + unfinished q
      → Holds t.err_ch (reported q) (reported s.from_reader)
      → Inv t
  conn_goes s t ph q v e u eq same_reader same_caller same_closed count h = record {
    counted =
        omega (arith, v.counted, ap unfinished e, ap unfinished eq, ap unfinished same_reader);
    held = rw (eq, same_reader) h;
    closed = same_closed ∙ v.closed ∙ ap has_closed (sym same_caller);
    at_return = rw same_caller (still s t s.caller v.at_return (conn_works s ph v e u));
  }

  reader_goes :
      (s t : Copying) (ph q : Phase)
      → Inv s
      → s.from_reader ≡ ph
      → unfinished ph ≡ 1
      → t.from_reader ≡ q
      → t.from_conn ≡ s.from_conn
      → t.caller ≡ s.caller
      → t.conn_closed ≡ s.conn_closed
      → t.wait_group + 1 ≡ s.wait_group + unfinished q
      → Holds t.err_ch (reported s.from_conn) (reported q)
      → Inv t
  reader_goes s t ph q v e u eq same_conn same_caller same_closed count h = record {
    counted = omega (arith, v.counted, ap unfinished e, ap unfinished eq, ap unfinished same_conn);
    held = rw (eq, same_conn) h;
    closed = same_closed ∙ v.closed ∙ ap has_closed (sym same_caller);
    at_return = rw same_caller (still s t s.caller v.at_return (reader_works s ph v e u));
  }

  held_conn :
      (s : Copying) (ph : Phase)
      → Inv s
      → s.from_conn ≡ ph
      → Holds s.err_ch (reported ph) (reported s.from_reader)
  held_conn s ph v e = subst (λ p. Holds s.err_ch (reported p) (reported s.from_reader)) e v.held

  held_reader :
      (s : Copying) (ph : Phase)
      → Inv s
      → s.from_reader ≡ ph
      → Holds s.err_ch (reported s.from_conn) (reported ph)
  held_reader s ph v e = subst (λ p. Holds s.err_ch (reported s.from_conn) (reported p)) e v.held

  conn_ends_copy-Inv :
      (err : Option Error) (s : Copying) (ph : Phase) {t : Copying}
      → Inv s
      → s.from_conn ≡ ph
      → conn_ends_copy err s ph ≡ some t
      → Inv t
  unfolding conn_ends_copy
  conn_ends_copy-Inv err s copying v e h = subst Inv (some-eq h) (
      conn_goes s (record s { from_conn = reporting err }) copying (reporting err) v e refl refl
        refl refl refl refl (held_conn s copying v e))
  conn_ends_copy-Inv err s (half_closing x) v e h = absurd (cc)
  conn_ends_copy-Inv err s (reporting x) v e h = absurd (cc)
  conn_ends_copy-Inv err s (cancelling x) v e h = absurd (cc)
  conn_ends_copy-Inv err s (leaving x) v e h = absurd (cc)
  conn_ends_copy-Inv err s (gone x) v e h = absurd (cc)

  conn_step-Inv :
      (s : Copying) (ph : Phase) {t : Copying}
      → Inv s
      → s.from_conn ≡ ph
      → conn_step s ph ≡ some t
      → Inv t
  unfolding conn_step
  conn_step-Inv s copying v e h = absurd (cc)
  conn_step-Inv s (half_closing err) v e h = absurd (cc)
  conn_step-Inv s (reporting err) {t} v e h = elim (Bool-cases (ltb (length s.err_ch) 2)) [
    | inl free ↦
        let u : Copying = record s { from_conn = cancelling err; err_ch = s.err_ch ++ err ∷ [] } in
        let same : u ≡ t = ground arith in
        subst Inv same (
          conn_goes s u (reporting err) (cancelling err) v e refl refl refl refl refl refl
            (conn_sends s.err_ch err (reported s.from_reader) (held_conn s (reporting err) v e)))
    | inr full ↦ absurd (ground arith)
  ]
  conn_step-Inv s (cancelling err) v e h = subst Inv (some-eq h) (
      conn_goes s (record s { from_conn = leaving err; cancelled = true }) (cancelling err)
        (leaving err) v e refl refl refl refl refl refl (held_conn s (cancelling err) v e))
  conn_step-Inv s (leaving err) v e h =
      let n = conn_works s (leaving err) v e refl in
      subst Inv (some-eq h) (
        conn_goes s (record s { from_conn = gone err; wait_group = s.wait_group - 1 }) (leaving err)
          (gone err) v e refl refl refl refl refl (omega arith) (held_conn s (leaving err) v e))
  conn_step-Inv s (gone err) v e h = absurd (cc)

  reader_ends_copy-Inv :
      (err : Option Error) (s : Copying) (ph : Phase) {t : Copying}
      → Inv s
      → s.from_reader ≡ ph
      → reader_ends_copy err s ph ≡ some t
      → Inv t
  unfolding reader_ends_copy
  reader_ends_copy-Inv err s copying v e h = subst Inv (some-eq h) (
      reader_goes s (record s { from_reader = half_closing err }) copying (half_closing err) v e
        refl refl refl refl refl refl (held_reader s copying v e))
  reader_ends_copy-Inv err s (half_closing x) v e h = absurd (cc)
  reader_ends_copy-Inv err s (reporting x) v e h = absurd (cc)
  reader_ends_copy-Inv err s (cancelling x) v e h = absurd (cc)
  reader_ends_copy-Inv err s (leaving x) v e h = absurd (cc)
  reader_ends_copy-Inv err s (gone x) v e h = absurd (cc)

  outer_keeps :
      (s : Copying) (c : Caller) → Returned s c → Returned (record s { outer_done = true }) c
  outer_keeps s (returned err) r = r
  outer_keeps s waiting r = tt
  outer_keeps s closing r = tt
  outer_keeps s joining r = tt

  module _ (is_tcp : Bool) where
    reader_step-Inv :
        (s : Copying) (ph : Phase) {t : Copying}
        → Inv s
        → s.from_reader ≡ ph
        → reader_step sentinels is_tcp s ph ≡ some t
        → Inv t
    unfolding reader_step
    reader_step-Inv s copying v e h = absurd (cc)
    reader_step-Inv s (half_closing err) v e h = subst Inv (some-eq h) (
        reader_goes s
          (record s { from_reader = reporting err; write_closed = s.write_closed || is_tcp })
          (half_closing err) (reporting err) v e refl refl refl refl refl refl
          (held_reader s (half_closing err) v e))
    reader_step-Inv s (reporting err) {t} v e h = elim (Bool-cases (ltb (length s.err_ch) 2)) [
      | inl free ↦
          let u : Copying = record s {
            from_reader = cancelling err;
            err_ch = s.err_ch ++ err ∷ [];
          } in
          let same : u ≡ t = ground arith in
          subst Inv same (
            reader_goes s u (reporting err) (cancelling err) v e refl refl refl refl refl refl (
              reader_sends s.err_ch err (reported s.from_conn) (held_reader s (reporting err) v e)))
      | inr full ↦ absurd (ground arith)
    ]
    reader_step-Inv s (cancelling err) v e h = subst Inv (some-eq h) (
        reader_goes s
          (record s { from_reader = leaving err; cancelled = s.cancelled || is_error err })
          (cancelling err) (leaving err) v e refl refl refl refl refl refl
          (held_reader s (cancelling err) v e))
    reader_step-Inv s (leaving err) v e h =
        let n = reader_works s (leaving err) v e refl in
        subst Inv (some-eq h) (
          reader_goes s (record s { from_reader = gone err; wait_group = s.wait_group - 1 })
            (leaving err) (gone err) v e refl refl refl refl refl (omega arith)
            (held_reader s (leaving err) v e))
    reader_step-Inv s (gone err) v e h = absurd (cc)

    caller_step-Inv :
        (s : Copying) (c : Caller) {t : Copying}
        → Inv s
        → s.caller ≡ c
        → caller_step sentinels is_tcp s c ≡ some t
        → Inv t
    unfolding caller_step
    caller_step-Inv s waiting {t} v e h = elim (Bool-cases (s.outer_done || s.cancelled)) [
      | inl done ↦
          let u : Copying = record s { caller = closing } in
          let same : u ≡ t = ground arith in
          subst Inv same (record {
            counted = v.counted;
            held = v.held;
            closed = v.closed ∙ ap has_closed e;
            at_return = tt;
          })
      | inr not_yet ↦ absurd (ground arith)
    ]
    caller_step-Inv s closing v e h =
        subst Inv (some-eq h)
          (record { counted = v.counted; held = v.held; closed = refl; at_return = tt })
    caller_step-Inv s joining {t} v e h = elim (Bool-cases (s.wait_group == 0)) [
      | inl zero_left ↦
          let u : Copying = record s { caller = returned (first_harmful sentinels s.err_ch) } in
          let same : u ≡ t = ground arith in
          subst Inv same (record {
            counted = v.counted;
            held = v.held;
            closed = v.closed ∙ ap has_closed e;
            at_return = (ground arith, refl);
          })
      | inr more ↦ absurd (ground arith)
    ]
    caller_step-Inv s (returned err) v e h = absurd (cc)

    pub step-Inv :
        (s : Copying) (m : Move) {t : Copying} → Inv s → step sentinels is_tcp s m ≡ some t → Inv t
    unfolding step
    step-Inv s outer_ends v h = subst Inv (some-eq h) (record {
      counted = v.counted;
      held = v.held;
      closed = v.closed;
      at_return = outer_keeps s s.caller v.at_return;
    })
    step-Inv s (conn_copied err) v h = conn_ends_copy-Inv err s s.from_conn v refl h
    step-Inv s (reader_copied err) v h = reader_ends_copy-Inv err s s.from_reader v refl h
    step-Inv s conn_moves v h = conn_step-Inv s s.from_conn v refl h
    step-Inv s reader_moves v h = reader_step-Inv s s.from_reader v refl h
    step-Inv s caller_moves v h = caller_step-Inv s s.caller v refl h
