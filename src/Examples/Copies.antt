-- ===== src/Examples/Copies.antt =====
-- A copy whose reader ends first: the other side still sends, and then closes.
use gonc.Prelude.{◌≡◌, ◌↔◌, ◌⊎◌, refl, List, [], ◌∷◌, Option, none, some, Bool, true, false, ◌||◌}
use gonc.Text.{Str, codes, str_eq}
use gonc.Errors.{Error, plain, wrapped, cause}
use gonc.Errors.Inside.{Inside}
use gonc.Util.Copy.{
  Sentinels, gone, returned, Copying, started, Move, conn_copied, reader_copied, conn_moves,
  reader_moves, caller_moves, is_harmless, run,
}
use gonc.Util.Copy.Harmless.{is_harmless_iff}
use gonc.Util.Copy.Joined.{FirstHarmful, run_joined}

abbrev says : Str → Error → Bool
says text (plain s) = str_eq s text
says text _ = false

-- the sentinels by their texts
abbrev by_text : Sentinels
by_text = record {
  is_eof = says (codes "EOF");
  is_closed = says (codes "use of closed network connection");
  is_closed_pipe = says (codes "io: read/write on closed pipe");
}

abbrev reader_first : List Move
reader_first =
    reader_copied none
    ∷ reader_moves
    ∷ reader_moves
    ∷ reader_moves
    ∷ reader_moves
    ∷ conn_copied none
    ∷ conn_moves
    ∷ conn_moves
    ∷ caller_moves
    ∷ caller_moves
    ∷ conn_moves
    ∷ caller_moves
    ∷ []

abbrev finished : Copying
finished = record {
  from_conn = gone none;
  from_reader = gone none;
  caller = returned none;
  outer_done = false;
  cancelled = true;
  conn_closed = true;
  write_closed = true;
  wait_group = 0;
  err_ch = none ∷ none ∷ [];
}

runs_to_end : run by_text true (some started) reader_first ≡ some finished
unfolding run
runs_to_end = refl

run_joined_example :
    (a : Option Error) × (b : Option Error) × (finished.from_conn ≡ gone a)
    × (finished.from_reader ≡ gone b)
    × ((finished.err_ch ≡ a ∷ b ∷ []) ⊎ (finished.err_ch ≡ b ∷ a ∷ []))
    × FirstHarmful by_text true finished.err_ch none
    × (finished.conn_closed ≡ true)
run_joined_example = run_joined by_text true reader_first runs_to_end refl

abbrev wrapped_eof : Error
wrapped_eof = wrapped (codes "copy") (cause (plain (codes "EOF")))

is_harmless_iff_example : (is_harmless by_text wrapped_eof ≡ true) ↔ (
    (x : Error) × Inside x wrapped_eof
    × ((says (codes "EOF") x
          || says (codes "use of closed network connection") x
          || says (codes "io: read/write on closed pipe") x)
        ≡ true))
is_harmless_iff_example = is_harmless_iff by_text wrapped_eof
