-- ===== src/Core/Log.antt =====
-- src/core/log.cpp: the log's queue, its file and the files that it was rotated to. A line is its
-- bytes; `snprintf` that puts it together, the clock and the writing of a number in decimal are
-- parameters. `shown` is what went to stderr, `active` what is in the open file, and `folder` the
-- other files beside it, under their names. Each part that runs under `g_file_mutex` is one step.
pub mod Saved
pub mod Order
pub mod Names
use iocp_echo_server.Base.{
  ℕ, zero, suc, ◌+◌, ◌-◌, Bool, true, false, not, ◌&&◌, ◌||◌, ◌==◌, ltb, leb, if◌then◌else◌, List,
  [], ◌∷◌, ◌++◌, Option, none, some, length, take, drop, is_nil,
}
use iocp_echo_server.Base.Table.{Table, find, text_key, same_text}
use iocp_echo_server.Core.SwapQueue.{SwapQueue, new_queue, swap, clear_taken, push, pending}

abbrev pub line_max : ℕ
line_max = 240

abbrev pub queue_cap : ℕ
queue_cap = 65536

pub record Log : Type 0 where
  pub level : ℕ
  pub running : Bool
  pub dropped : ℕ
  pub queue : SwapQueue (List ℕ)
  pub stem : List ℕ
  pub ext : List ℕ
  pub is_open : Bool
  pub max_bytes : ℕ
  pub keep : ℕ
  pub written : ℕ
  pub day : ℕ
  pub shown : List (List ℕ)
  pub active : List (List ℕ)
  pub folder : Table (List ℕ) (List (List ℕ))

-- What the clock, the file system and `std::to_string` say in a step.
pub record World : Type 0 where
  pub today : ℕ
  pub stamp : List ℕ
  pub opens : Bool
  pub renames : Bool
  pub decimal : ℕ → List ℕ

-- The part of a path behind its last separator.
unfoldable pub base_name : List ℕ → List ℕ
base_name path = from path path
  where
    from : List ℕ → List ℕ → List ℕ
    from [] p = p
    from (c ∷ cs) p = if c == b'/' || c == b'\\' then from cs cs else from cs p

abbrev pub bytes : List (List ℕ) → ℕ
bytes [] = 0
bytes (line ∷ lines) = length line + bytes lines

unfoldable pub emit : List ℕ → Log → Log
emit line log =
    let seen = record log { shown = log.shown ++ (line ∷ []) } in
    if log.is_open
    then record seen { active = log.active ++ (line ∷ []); written = log.written + length line }
    else seen

unfoldable pub emit_all : List (List ℕ) → Log → Log
emit_all [] log = log
emit_all (line ∷ lines) log = emit_all lines (emit line log)

-- A file that is there is written on from its end.
unfoldable pub open_file : World → Log → Log
open_file w log = record log {
  is_open = w.opens;
  day = w.today;
  written = if w.opens then bytes log.active else 0;
}

-- The name of try `seq` for the rotated file.
unfoldable pub target_name : World → ℕ → Log → List ℕ
target_name w seq log =
    log.stem ++ (b'.' ∷ (w.stamp ++ ((if ltb 0 seq then b'-' ∷ w.decimal seq else []) ++ log.ext)))

unfoldable pub exists : List ℕ → Log → Bool
exists name log = is_there (find name log.folder)
  where
    is_there : Option (List (List ℕ)) → Bool
    is_there none = false
    is_there (some lines) = true

-- The tries that are left, of 100; no name is none.
unfoldable pub rotated_target : ℕ → World → Log → Option (List ℕ)
rotated_target zero w log = none
rotated_target (suc left) w log =
    let name = target_name w (100 - suc left) log in
    let next = rotated_target left w log in if exists name log then next else some name

unfoldable pub starts_with : List ℕ → List ℕ → Bool
starts_with [] s = true
starts_with (p ∷ ps) [] = false
starts_with (p ∷ ps) (c ∷ cs) = (p == c) && starts_with ps cs

-- From the last dot of a name on.
unfoldable pub extension : List ℕ → List ℕ
extension [] = []
extension (c ∷ cs) =
    let rest = extension cs in if not (is_nil rest) then rest else if c == b'.' then c ∷ cs else []

unfoldable pub is_rotated : Log → List ℕ → Bool
is_rotated log name =
    not (same_text name (log.stem ++ log.ext))
    && same_text (extension name) log.ext
    && starts_with (log.stem ++ (b'.' ∷ [])) name

-- The order of names in which `std::sort` puts the paths.
unfoldable pub text_lt : List ℕ → List ℕ → Bool
text_lt [] [] = false
text_lt [] (b ∷ bs) = true
text_lt (a ∷ more) [] = false
text_lt (a ∷ more) (b ∷ bs) = ltb a b || ((a == b) && text_lt more bs)

unfoldable pub insert : List ℕ → List (List ℕ) → List (List ℕ)
insert name [] = name ∷ []
insert name (other ∷ others) =
    let rest = insert name others in
    if text_lt other name then other ∷ rest else name ∷ other ∷ others

-- The rotated files' names, in order.
unfoldable pub rotated_names : Log → Table (List ℕ) (List (List ℕ)) → List (List ℕ)
rotated_names log [] = []
rotated_names log ((name, lines) ∷ files) =
    let rest = rotated_names log files in if is_rotated log name then insert name rest else rest

unfoldable pub is_among : List ℕ → List (List ℕ) → Bool
is_among name [] = false
is_among name (other ∷ others) = same_text name other || is_among name others

unfoldable pub remove :
    List (List ℕ) → Table (List ℕ) (List (List ℕ)) → Table (List ℕ) (List (List ℕ))
remove names [] = []
remove names ((name, lines) ∷ files) =
    let rest = remove names files in if is_among name names then rest else (name, lines) ∷ rest

unfoldable pub purge_old : Log → Log
purge_old log =
    let names = rotated_names log log.folder in
    if log.keep == 0
    then log
    else if leb (length names) log.keep
    then log
    else record log { folder = remove (take (length names - log.keep) names) log.folder }

-- The file is renamed, if that works, and opened again in either case.
unfoldable pub rotate_to : World → Option (List ℕ) → Log → Log
rotate_to w none log = log
rotate_to w (some name) log =
    if w.renames
    then purge_old
        (open_file w (record log { active = []; folder = log.folder ++ ((name, log.active) ∷ []) }))
    else open_file w log

unfoldable pub rotate_if_needed : World → Log → Log
rotate_if_needed w log =
    let by_size = ltb 0 log.max_bytes && leb log.max_bytes log.written in
    let by_day = not (log.day == 0) && not (w.today == log.day) in
    if not log.is_open || not (by_size || by_day)
    then log
    else rotate_to w (rotated_target 100 w log) log

-- A round of the writer.
unfoldable pub drain : World → Log → Log
drain w log =
    let (batch, q) = swap log.queue in
    let taken = record log { queue = q } in
    if is_nil batch
    then taken
    else rotate_if_needed w (record (emit_all batch taken) { queue = clear_taken q })

-- A line that is too long is cut and ends in a newline all the same.
unfoldable pub fit : List ℕ → List ℕ
fit line = if leb line_max (length line) then take (line_max - 2) line ++ (b'\n' ∷ []) else line

unfoldable pub log_write : ℕ → List ℕ → Log → Log
log_write level line log =
    if ltb level log.level
    then log
    else if not log.running
    then emit (fit line) log
    else if leb queue_cap (pending log.queue)
    then record log { dropped = log.dropped + 1 }
    else record log { queue = push (fit line) log.queue }

-- `log_start`, without the thread.
unfoldable pub log_start : World → ℕ → List ℕ → List ℕ → ℕ → ℕ → Log → Log
log_start w level stem ext max_bytes keep log =
    let set_up = record log {
      level = level;
      stem = stem;
      ext = ext;
      max_bytes = max_bytes;
      keep = keep;
    } in
    if log.running
    then log
    else record (if is_nil stem then set_up else open_file w set_up) { running = true }

-- `log_stop` before it waits for the writer, whose last round is a `drain`, and after it.
unfoldable pub log_halt : Log → Log
log_halt log = record log { running = false }

unfoldable pub log_close : Log → Log
log_close log = record log { is_open = false }
