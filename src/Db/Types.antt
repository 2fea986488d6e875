-- ===== src/Db/Types.antt =====
-- src/db/db_types.h: what the logic thread asks of the database and what comes back. A text is the
-- list of its bytes; times are microseconds on a clock that starts at 0.
use iocp_echo_server.Base.{ℕ, Bool, false, List, []}

pub data RequestKind : Type 0 where
  save history counter : RequestKind

pub data Status : Type 0 where
  ok unavailable failed expired : Status

pub record Request : Type 0 where
  pub kind : RequestKind
  pub conn_id : ℕ
  pub session_key : List ℕ
  pub payload : List ℕ
  pub request_key : List ℕ
  pub limit : ℕ
  pub submitted_us : ℕ
  pub deadline_us : ℕ

pub record LogRow : Type 0 where
  pub log_id : ℕ
  pub payload : List ℕ
  pub created_at_ms : ℕ

pub record Response : Type 0 where
  pub kind : RequestKind
  pub conn_id : ℕ
  pub status : Status
  pub log_id : ℕ
  pub rows : List LogRow
  pub hit_count : ℕ
  pub already_applied : Bool
  pub db_us : ℕ
  pub submitted_us : ℕ

-- The initialisers of the two structs.
abbrev pub new_request : Request
new_request = record {
  kind = RequestKind.save;
  conn_id = 0;
  session_key = [];
  payload = [];
  request_key = [];
  limit = 0;
  submitted_us = 0;
  deadline_us = 0;
}

abbrev pub new_response : Response
new_response = record {
  kind = RequestKind.save;
  conn_id = 0;
  status = Status.ok;
  log_id = 0;
  rows = [];
  hit_count = 0;
  already_applied = false;
  db_us = 0;
  submitted_us = 0;
}
