-- ===== src/Util/Logger.antt =====
-- util/logger.go. A message stands after `fmt.Sprintf`; the clock's text is a parameter of the write.
-- The lock makes each write one step; the output is the list of the lines written.
use gonc.Prelude.{List, [], ◌∷◌, ◌++◌, Bool, true, false, if◌then◌else◌}
use gonc.Prelude.Int.{ℤ, pos, leb_ℤ}
use gonc.Text.{Str, codes}

pub record Logger : Type 0 where
  pub level : ℤ
  pub output : List Str
  pub timestamps : Bool

-- `LogNormal`, `LogVerbose` and `LogDebug`
abbrev pub log_normal : ℤ
log_normal = pos 1

abbrev pub log_verbose : ℤ
log_verbose = pos 2

abbrev pub log_debug : ℤ
log_debug = pos 3

-- `NewLogger`
pub new_logger : ℤ → Logger
new_logger verbosity = record {
  level = verbosity;
  output = [];
  timestamps = leb_ℤ (pos 3) verbosity;
}

-- The methods that write.
pub data Call : Type 0 where
  info warn verbose debug error : Str → Call

line : Bool → Str → Str → Str → Str
line true now tag msg = now ++ (codes " [" ++ (tag ++ (codes "] " ++ (msg ++ codes "\n"))))
line false now tag msg = codes "[" ++ (tag ++ (codes "] " ++ (msg ++ codes "\n")))

-- `write`
write : Str → Str → Str → Logger → Logger
unfolding line
write now tag msg l = record l { output = l.output ++ line l.timestamps now tag msg ∷ [] }

-- `Info`, `Warn`, `Verbose`, `Debug` and `Error`, at a time with this text
pub log : Str → Call → Logger → Logger
unfolding write
log now (info msg) l = if leb_ℤ log_normal l.level then write now (codes "INF") msg l else l
log now (warn msg) l = if leb_ℤ log_normal l.level then write now (codes "WRN") msg l else l
log now (verbose msg) l = if leb_ℤ log_verbose l.level then write now (codes "VRB") msg l else l
log now (debug msg) l = if leb_ℤ log_debug l.level then write now (codes "DBG") msg l else l
log now (error msg) l = write now (codes "ERR") msg l

pub log_all : Str → List Call → Logger → Logger
unfolding log
log_all now [] l = l
log_all now (c ∷ cs) l = log_all now cs (log now c l)
