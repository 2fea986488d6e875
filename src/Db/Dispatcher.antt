-- ===== src/Db/Dispatcher.antt =====
-- src/db/request_dispatcher.h and request_dispatcher.cpp. Each method runs under `mutex_`, so it is
-- one step. A null request is none: the callers pass none. `take_all` visits the table in the order
-- of its entries here; the program leaves that order open.
pub mod Order
pub mod Ready
use iocp_echo_server.Base.{
  ℕ, zero, suc, ◌+◌, ◌-◌, Bool, true, false, not, ◌&&◌, ◌||◌, ◌==◌, leb, ltb, if◌then◌else◌, List,
  [], ◌∷◌, ◌++◌, Option, none, some, length, is_nil, map,
}
use iocp_echo_server.Base.Table.{Table, find, set, erase, text_key}
use iocp_echo_server.Db.Types.{Request}

pub record KeyQueue : Type 0 where
  pub waiting : List Request
  pub working : Bool

pub record RequestDispatcher : Type 0 where
  pub queues : Table (List ℕ) KeyQueue
  pub ready_keys : List (List ℕ)
  pub depth : ℕ

abbrev pub new_dispatcher : RequestDispatcher
new_dispatcher = record { queues = []; ready_keys = []; depth = 0 }

abbrev pub empty_queue : KeyQueue
empty_queue = record { waiting = []; working = false }

unfoldable pub or_empty : Option KeyQueue → KeyQueue
or_empty none = empty_queue
or_empty (some kq) = kq

-- `queues_[key]`, which makes an entry where there is none.
unfoldable pub at : List ℕ → RequestDispatcher → KeyQueue
at key d = or_empty (find key d.queues)

unfoldable pub push : Request → ℕ → RequestDispatcher → Bool × RequestDispatcher
push req bound d =
    if leb bound d.depth
    then (false, d)
    else let kq = at req.session_key d in
      let kq' = record kq { waiting = kq.waiting ++ (req ∷ []) } in
      (
        true,
        record {
          queues = set req.session_key kq' d.queues;
          depth = d.depth + 1;
          ready_keys =
              if not kq.working && (length kq'.waiting == 1)
              then d.ready_keys ++ (req.session_key ∷ [])
              else d.ready_keys;
        },
      )

unfoldable pub front : List Request → Option (Request × KeyQueue)
front [] = none
front (req ∷ rest) = some (req, record { waiting = rest; working = true })

-- The entry of a key at the front of the list: its first request, unless it is to be passed over.
unfoldable pub pick : Option KeyQueue → Option (Request × KeyQueue)
pick none = none
pick (some kq) = if kq.working then none else front kq.waiting

-- What a round of `take` returns, unless it goes on with the keys behind this one.
unfoldable pub give :
    List ℕ
    → List (List ℕ)
    → RequestDispatcher
    → Option Request × RequestDispatcher
    → Option (Request × KeyQueue)
    → Option Request × RequestDispatcher
give key keys d onward none = onward
give key keys d onward (some (req, kq)) =
    (some req, record d { queues = set key kq d.queues; ready_keys = keys })

-- The loop of `take`, a round for each key in the list.
unfoldable pub take_loop : List (List ℕ) → RequestDispatcher → Option Request × RequestDispatcher
take_loop [] d = (none, record d { ready_keys = [] })
take_loop (key ∷ keys) d = give key keys d (take_loop keys d) (pick (find key d.queues))

unfoldable pub take : RequestDispatcher → Option Request × RequestDispatcher
take d = take_loop d.ready_keys d

unfoldable pub settle : List ℕ → RequestDispatcher → Option KeyQueue → RequestDispatcher
settle key d none = d
settle key d (some kq) =
    if is_nil kq.waiting
    then record d { queues = erase key d.queues; depth = d.depth - 1 }
    else record {
      queues = set key (record kq { working = false }) d.queues;
      depth = d.depth - 1;
      ready_keys = d.ready_keys ++ (key ∷ []);
    }

unfoldable pub finish : List ℕ → RequestDispatcher → RequestDispatcher
finish key d = settle key d (find key d.queues)

unfoldable pub ready : RequestDispatcher → Bool
ready d = not (is_nil d.ready_keys)

-- What waits in the table, and the table with all of that gone.
unfoldable pub all_waiting : Table (List ℕ) KeyQueue → List Request
all_waiting [] = []
all_waiting ((key, kq) ∷ t) = kq.waiting ++ all_waiting t

unfoldable pub cleared : Table (List ℕ) KeyQueue → Table (List ℕ) KeyQueue
cleared [] = []
cleared ((key, kq) ∷ t) = (key, record kq { waiting = [] }) ∷ cleared t

unfoldable pub take_all : RequestDispatcher → List Request × RequestDispatcher
take_all d = (
  all_waiting d.queues,
  record {
    queues = cleared d.queues;
    ready_keys = [];
    depth = d.depth - length (all_waiting d.queues);
  },
)
