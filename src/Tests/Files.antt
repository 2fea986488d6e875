-- ===== src/Tests/Files.antt =====
-- Settings and the log.
use iocp_echo_server.Base.{
  ℕ, ◌≡◌, refl, true, false, List, [], ◌∷◌, ◌++◌, map, some, All, arith, codes,
}
use iocp_echo_server.Core.IniReader.{new_reader, strip_bom, load, get, trim_end}
use iocp_echo_server.Core.IniReader.Lines.{Line, empty, comment, section, entry, render, IsFine}
use iocp_echo_server.Core.IniReader.Settings.{settings_of, last_value, get-load}
use iocp_echo_server.Core.Log.{Log, World, target_name, text_lt}
use iocp_echo_server.Core.Log.Order.{Op, writes, drains, run, so_far, Opens, lines_in_order}
use iocp_echo_server.Core.Log.Saved.{IsKeeping, saved}
use iocp_echo_server.Core.Log.Names.{second_before_first}

abbrev first_line : Line
first_line = section [] (codes " ") (codes "net") [] (codes "\r")

abbrev settings : List Line
settings =
    comment [] b'#' (codes " ports")
    ∷ entry (codes "  ") (codes "port") (codes " ") (codes " ") (codes "9000") (codes "\r")
    ∷ empty (codes "\t")
    ∷ entry [] (codes "port") [] [] (codes "9001") []
    ∷ []

abbrev marked : List ℕ
marked = 0xEF ∷ 0xBB ∷ 0xBF ∷ render first_line

settings-IsFine : All IsFine (first_line ∷ settings)
unfolding trim_end
settings-IsFine = (
  (tt, (refl, tt), (refl, refl), tt, (refl, tt)),
  (
    (tt, refl),
    (
      (
        (refl, (refl, tt)),
        (refl, refl, (refl, (refl, (refl, (refl, tt)))), (refl, refl)),
        (refl, tt),
        (refl, tt),
        (refl, refl),
        (refl, tt),
      ),
      (
        (refl, tt),
        (
          (
            tt,
            (refl, refl, (refl, (refl, (refl, (refl, tt)))), (refl, refl)),
            tt,
            tt,
            (refl, refl),
            tt,
          ),
          tt,
        ),
      ),
    ),
  ),
)

marked_first : strip_bom marked ≡ render first_line
unfolding strip_bom render
marked_first = refl

get-load_example :
    let (done, loaded) = load [] (some (marked ∷ map render settings)) new_reader in
    (done ≡ true)
    × (get (codes "net") (codes "port") (codes "80") loaded
        ≡ last_value
            (codes "net")
            (codes "port")
            (get (codes "net") (codes "port") (codes "80") new_reader)
            (settings_of [] (first_line ∷ settings)))
get-load_example =
    get-load (codes "net") (codes "port") (codes "80") [] marked first_line settings new_reader
      marked_first settings-IsFine (refl, (refl, (refl, tt)))
      ((refl, (refl, (refl, tt))), (tt, (tt, (tt, (tt, tt)))))

-- That is the last one's value.
last_port :
    last_value (codes "net") (codes "port") [] (settings_of [] (first_line ∷ settings))
    ≡ codes "9001"
unfolding last_value settings_of
last_port = refl

abbrev digit : ℕ → List ℕ
digit n = b'1' ∷ []

abbrev noon : World
noon = record {
  today = 20240105;
  stamp = codes "20240105-120000";
  opens = true;
  renames = true;
  decimal = digit;
}

abbrev server_log : Log
server_log = record {
  level = 1;
  running = true;
  dropped = 0;
  queue = record { first = []; second = []; write = false };
  stem = codes "server";
  ext = codes ".log";
  is_open = true;
  max_bytes = 4;
  keep = 0;
  written = 0;
  day = 20240105;
  shown = [];
  active = [];
  folder = [];
}

abbrev busy : List Op
busy =
    writes 1 (codes "one\n")
    ∷ writes 0 (codes "debug\n")
    ∷ writes 2 (codes "two\n")
    ∷ drains noon
    ∷ writes 1 (codes "three\n")
    ∷ drains noon
    ∷ []

lines_in_order_example :
    let (put, last) = run busy server_log in
    (so_far last ≡ so_far server_log ++ put)
    × (All Opens busy
        → IsKeeping server_log
        → saved server_log ≡ server_log.shown
        → saved last ≡ last.shown)
lines_in_order_example = lines_in_order busy server_log refl

second_before_first_example :
    (text_lt (target_name noon 1 server_log) (target_name noon 0 server_log) ≡ true)
    × (text_lt (target_name noon 0 server_log) (target_name noon 1 server_log) ≡ false)
second_before_first_example = second_before_first noon 1 (codes "log") server_log (omega arith) refl
