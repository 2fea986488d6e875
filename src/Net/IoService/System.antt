-- ===== src/Net/IoService/System.antt =====
-- Everything that can happen to the service: sockets are adopted, connections are used and have
-- completions handed to them, and the sweeper runs. All orders of these are possible.
use iocp_echo_server.Base.{
  ℕ, ◌≡◌, refl, ◌∙◌, Bool, false, List, [], ◌∷◌, some, All, Bool-cases, inl, inr, ◌==◌,
}
use iocp_echo_server.Base.Table.{
  find, set, number_key, Values, set-Values, emplace-Values, erase-Values,
}
use iocp_echo_server.Net.Connection.{Connection, new_connection}
use iocp_echo_server.Net.Connection.Receive.{Act, sends, closes, pauses, act, acts, start}
use iocp_echo_server.Net.Connection.Port.{Step}
use iocp_echo_server.Net.Connection.Invariant.Counts.{post_receive-Counts, act-Counts}
use iocp_echo_server.Net.Connection.Invariant.Receiving.{
  Handling, act-Handling, send-Same, close-Same, Same-Receiving, post_receive-Receiving,
}
use iocp_echo_server.Net.Connection.Invariant.System.{
  Sound, fresh-Sound, act-Flow, post_receive-Flow,
}
use iocp_echo_server.Net.Connection.Safety.{IsQuiet}
use iocp_echo_server.Net.IoService.{IoService, adopt, admit, launch, reserve_id, full, sweep}

-- What other threads may do to a connection that has not begun to receive.
abbrev pub Sends : Act → Type 0
Sends pauses = ⊥
Sends _ = Unit {0}

pub data Moves : IoService → IoService → Type 0 where
  adopts :
      (bound accepted : Bool) (now : ℕ) (setup : List Act) (bound_id : ℕ) (io : IoService)
      → All Sends setup
      → Moves io (adopt bound accepted now setup bound_id io).1
  uses :
      (id : ℕ) (io : IoService) {c d : Connection}
      → find id io.connections ≡ some c
      → Step c d
      → Moves io (record io { connections = set id d io.connections })
  sweeps : (now : ℕ) (io : IoService) → Moves io (sweep now io)

pub data Runs (s : IoService) : IoService → Type 0 where
  here : Runs s s
  next : {t u : IoService} → Runs s t → Moves t u → Runs s u

-- Every connection in the table is sound, and those that the sweep took are owed nothing.
pub record Safe (io : IoService) : Type 0 where
  pub sound : Values Sound io.connections
  pub quiet : All IsQuiet io.reclaimed

-- A connection before its first receive.
pub record Young (c : Connection) : Type 0 where
  pub sound : Sound c
  pub handling : Handling c
  pub unpaused : c.recv_paused ≡ false

act-Young : (a : Act) (c : Connection) → Sends a → Young c → Young (act a c)
unfolding act
act-Young (sends posted accepted i body) c s v =
    let same = send-Same posted accepted i body c in
    record {
      sound = record {
        counts = act-Counts 0 (sends posted accepted i body) c v.sound.counts;
        receiving = Same-Receiving same v.sound.receiving;
        flow = act-Flow (sends posted accepted i body) c v.sound.flow;
      };
      handling = act-Handling (sends posted accepted i body) c v.handling;
      unpaused = same.same_paused ∙ v.unpaused;
    }
act-Young closes c s v =
    let same = close-Same c in
    record {
      sound = record {
        counts = act-Counts 0 closes c v.sound.counts;
        receiving = Same-Receiving same v.sound.receiving;
        flow = act-Flow closes c v.sound.flow;
      };
      handling = act-Handling closes c v.handling;
      unpaused = same.same_paused ∙ v.unpaused;
    }
act-Young pauses c s v = absurd s

acts-Young : (todo : List Act) (c : Connection) → All Sends todo → Young c → Young (acts todo c)
unfolding acts
acts-Young [] c s v = v
acts-Young (a ∷ todo) c s v = acts-Young todo (act a c) s.1 (act-Young a c s.0 v)

-- `start` makes a young connection one that receives, or closes it.
start-Sound : (accepted : Bool) (c : Connection) → Young c → Sound (start accepted c).1
unfolding start
start-Sound accepted c v = record {
  counts = post_receive-Counts 0 accepted c v.sound.counts;
  receiving = post_receive-Receiving accepted c v.handling v.unpaused;
  flow = post_receive-Flow accepted c v.sound.flow;
}

fresh-Young : (id : ℕ) (direct : Bool) (limit now : ℕ) → Young (new_connection id direct limit now)
fresh-Young id direct limit now =
    let v = fresh-Sound id direct limit now in
    record {
      sound = v;
      handling = record {
        buffer = v.receiving.buffer;
        none_out = unfold new_connection in refl;
        resume_paused = v.receiving.resume_paused;
      };
      unpaused = unfold new_connection in refl;
    }

launch-Safe :
    (accepted : Bool) (setup : List Act) (id : ℕ) (c : Connection) (io : IoService)
    → All Sends setup
    → Young c
    → Safe io
    → Safe (launch accepted setup id c io).1
unfolding launch
launch-Safe accepted setup id c io s y v =
    let begun = start-Sound accepted (acts setup c) (acts-Young setup c s y) in
    elim (Bool-cases (start accepted (acts setup c)).0) [
      | inl ok ↦
          simp ok
            (record { sound = set-Values Sound id _ io.connections begun v.sound; quiet = v.quiet })
      | inr no_receive ↦
          simp no_receive
            (record { sound = erase-Values Sound id io.connections v.sound; quiet = v.quiet })
    ]

admit-Safe :
    (accepted : Bool) (setup : List Act) (id : ℕ) (c : Connection) (io : IoService)
    → All Sends setup
    → Young c
    → Safe io
    → Safe (admit accepted setup id c io).1
unfolding admit
admit-Safe accepted setup id c io s y v = elim (Bool-cases (full io)) [
  | inl no_place ↦ simp no_place (record { sound = v.sound; quiet = v.quiet })
  | inr place ↦ simp place (
      launch-Safe accepted setup id c _ s y (record {
        sound = emplace-Values Sound id c io.connections y.sound v.sound;
        quiet = v.quiet;
      }))
]

pub adopt-Safe :
    (bound accepted : Bool) (now : ℕ) (setup : List Act) (bound_id : ℕ) (io : IoService)
    → All Sends setup
    → Safe io
    → Safe (adopt bound accepted now setup bound_id io).1
unfolding adopt reserve_id
adopt-Safe bound accepted now setup bound_id io s v = elim (Bool-cases (bound_id == 0)) [
  | inl unnamed ↦ elim (Bool-cases bound) [
    | inl ok ↦
        simp (unnamed, ok)
          (admit-Safe accepted setup io.next_id _ _ s (fresh-Young _ _ _ _)
            (record { sound = v.sound; quiet = v.quiet }))
    | inr unbound ↦ simp (unnamed, unbound) (record { sound = v.sound; quiet = v.quiet })
  ]
  | inr named ↦ simp named (admit-Safe accepted setup bound_id _ io s (fresh-Young _ _ _ _) v)
]
