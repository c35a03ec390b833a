-- ===== src/Cli/Http.antt =====
-- syntropy-cli/src/ui.rs: the requests and responses of the local web server, and what it shows of
-- the audit ledger.
pub mod Audit
pub mod Body
use syntropy.Prelude.{
  ℕ, ◌-◌, Bool, true, false, ◌&&◌, ◌||◌, not, Option, none, some, List, [], ◌∷◌, ◌++◌, map, Text,
  lit, text_eq, find?, show, length, text_lines, split_whitespace, Result, ok, err, ◌==◌,
  if◌then◌else◌,
}
use mathlib.Core.Option
use syntropy.Security.Crypto.{Crypto}
use syntropy.Security.Ledger.{IntegrityReport, verify_integrity}
use syntropy.Security.Ledger.Database.{I64, AuditEntry, LedgerError, Sqlite}
use syntropy.Security.Ledger.Merkle.{compute_merkle_root}
use syntropy.Security.Ledger.Readers.{get_entries, count}
use syntropy.Exec.Jail.{FileSystem}
use syntropy.Exec.Diff.Commit.{Files}
use syntropy.Cli.Turn.{
  ChatRequest, ChatResponse, Arrival, Start, TurnError, TurnState, execute_turn_via_tunnel,
  root_text,
}

pub record AuditEntryView : Type 0 where
  pub id : I64
  pub timestamp : Text
  pub agent_id : Text
  pub action_type : Text
  pub entry_hash : Text
  pub previous_hash : Text

-- The answer to `/api/audit`.
pub record AuditView : Type 0 where
  pub total_entries : ℕ
  pub verified : Bool
  pub merkle_root : Text
  pub entries : List AuditEntryView

abbrev pub view_of : AuditEntry → AuditEntryView
view_of e = record {
  id = e.entry_id;
  timestamp = e.timestamp;
  agent_id = e.agent_id;
  action_type = e.action_type;
  entry_hash = e.entry_hash;
  previous_hash = e.previous_hash;
}

-- `r.unwrap_or(a)`
abbrev pub or_else : {E A : Type 0} → Result E A → A → A
or_else (ok a) b = a
or_else (err e) b = b

module _ (s : Sqlite) where
  unfoldable pub query_recent_audit_entries : Bool → s.Db → List AuditEntryView
  unfolding count get_entries
  query_recent_audit_entries poisoned db =
      let n = or_else (count s poisoned db) 0 in
      map view_of (or_else (get_entries s poisoned db (n - 25) 25) [])

  unfoldable pub audit_view : Crypto → Bool → s.Db → AuditView
  unfolding query_recent_audit_entries verify_integrity compute_merkle_root
  audit_view c poisoned db =
      let integrity : IntegrityReport =
        or_else (verify_integrity c s poisoned db)
          (record { is_valid = false; verified_count = 0; latest_hash = none; violation = none }) in
      record {
        total_entries = integrity.verified_count;
        verified = integrity.is_valid;
        merkle_root = root_text (or_else (compute_merkle_root c s poisoned db) (some none));
        entries = query_recent_audit_entries poisoned db;
      }

abbrev pub no_audit : AuditView
no_audit = record { total_entries = 0; verified = true; merkle_root = lit "Genesis"; entries = [] }

unfoldable pub status_text : ℕ → Text
status_text status =
    if status == 200
    then lit "OK"
    else if status == 204
    then lit "No Content"
    else if status == 400
    then lit "Bad Request"
    else if status == 404
    then lit "Not Found"
    else if status == 500
    then lit "Internal Server Error"
    else if status == 502
    then lit "Bad Gateway"
    else lit "Status"

-- Lines that each end in CR LF, and the empty line behind them.
unfoldable pub head_of : List Text → Text
head_of [] = lit "\r\n"
head_of (l ∷ ls) = l ++ (lit "\r\n" ++ head_of ls)

-- What `send_http_response` writes.
unfoldable pub send_http_response : ℕ → Text → Text → Text
unfolding status_text head_of show
send_http_response status content_type body =
    head_of (
      (lit "HTTP/1.1 " ++ (show status ++ (lit " " ++ status_text status)))
      ∷ (lit "Content-Type: " ++ content_type)
      ∷ (lit "Content-Length: " ++ show (length body))
      ∷ lit "Access-Control-Allow-Origin: *"
      ∷ lit "Access-Control-Allow-Headers: Content-Type"
      ∷ lit "Connection: close"
      ∷ [])
    ++ body

-- The text behind the first empty line, whatever the header says of its length.
unfoldable pub body_of : Text → Text
unfolding find?
body_of raw = elim (find? (lit "\r\n\r\n") raw) [ none ↦ [] | some (header, body) ↦ body ]

pub data Route : Type 0 where
  index_page status_page audit_page clear chat preflight not_found : Route

-- `match (method, path)`
unfoldable pub route_of : Text → Text → Route
unfolding text_eq
route_of method path =
    if text_eq method (lit "GET") && (text_eq path (lit "/") || text_eq path (lit "/index.html"))
    then index_page
    else if text_eq method (lit "GET") && text_eq path (lit "/api/status")
    then status_page
    else if text_eq method (lit "GET") && text_eq path (lit "/api/audit")
    then audit_page
    else if text_eq method (lit "POST") && text_eq path (lit "/api/clear")
    then clear
    else if text_eq method (lit "POST") && text_eq path (lit "/api/chat")
    then chat
    else if text_eq method (lit "OPTIONS")
    then preflight
    else not_found

-- The first word of the request line is the method, and the second the path.
abbrev pub word_or : Text → List Text → Text
word_or default [] = default
word_or default (w ∷ words) = w

abbrev pub rest_of : List Text → List Text
rest_of [] = []
rest_of (w ∷ words) = words

unfoldable pub route_line : Text → Route
unfolding split_whitespace route_of
route_line request_line =
    let words = split_whitespace request_line in
    route_of (word_or (lit "GET") words) (word_or (lit "/") (rest_of words))

module _ (c : Crypto) (s : Sqlite) (fs : FileSystem) where
  -- What a connection meets: what one read of 8192 bytes gives, `String::from_utf8_lossy`, the
  -- pages on disk and the one that is built in, the ledger, `serde_json`, and what a turn meets.
  pub record Surrounding : Type 0 where
    pub bytes : Result Text Text
    pub lossy : Text → Text
    pub page_of_workspace : Option Text
    pub page_of_sources : Option Text
    pub index_html : Text
    pub audit_exists : Bool
    pub opened : Result LedgerError s.Db
    pub status_json : Text
    pub cleared_json : Text
    pub audit_json : AuditView → Text
    pub open_error_json : LedgerError → Text
    pub parse_request : Text → Result Text ChatRequest
    pub parse_error_json : Text → Text
    pub chat_json : ChatResponse → Text
    pub turn_error_json : TurnError c s fs → Text
    pub start : Start c s fs
    pub workspace : fs.PathBuf
    pub arrivals : List Arrival
    pub files : Files

  abbrev pub json_response : ℕ → Text → Text
  json_response status body = send_http_response status (lit "application/json") body

  abbrev pub page : Surrounding → Text
  page w = elim w.page_of_workspace [
    | some html ↦ html
    | none ↦ Option.get_or w.page_of_sources w.index_html
  ]

  abbrev pub audit_response : Surrounding → Text
  audit_response w =
      if not w.audit_exists then json_response 200 (w.audit_json no_audit) else elim w.opened [
        | ok db ↦ json_response 200 (w.audit_json (audit_view s c false db))
        | err e ↦ json_response 500 (w.open_error_json e)
      ]

  -- `POST /api/chat`: the response, and the state of a turn that began.
  unfoldable pub chat_response : Surrounding → Text → Text × Option (TurnState c s fs)
  unfolding execute_turn_via_tunnel send_http_response
  chat_response w body = elim (w.parse_request body) [
    | err e ↦ (json_response 400 (w.parse_error_json e), none)
    | ok req ↦
        let (r, t) = execute_turn_via_tunnel c s fs req w.start w.workspace w.arrivals w.files in
        elim r [
          | ok resp ↦ (json_response 200 (w.chat_json resp), t)
          | err e ↦ (json_response 502 (w.turn_error_json e), t)
        ]
  ]

  unfoldable pub respond : Surrounding → Route → Text → Text × Option (TurnState c s fs)
  unfolding chat_response send_http_response audit_view
  respond w index_page body =
      (send_http_response 200 (lit "text/html; charset=utf-8") (page w), none)
  respond w status_page body = (json_response 200 w.status_json, none)
  respond w audit_page body = (audit_response w, none)
  respond w clear body = (json_response 200 w.cleared_json, none)
  respond w chat body = chat_response w body
  respond w preflight body = (send_http_response 204 (lit "text/plain") [], none)
  respond w not_found body = (send_http_response 404 (lit "text/plain") (lit "Not Found"), none)

  -- The bytes that are written, and the state of a turn that began; `err` is a read that failed.
  unfoldable pub handle_connection :
      Surrounding → Result Text (Option Text × Option (TurnState c s fs))
  unfolding text_lines route_line body_of respond
  handle_connection w = elim w.bytes [
    | err e ↦ err e
    | ok [] ↦ ok (none, none)
    | ok (b ∷ bytes) ↦
        let raw = w.lossy (b ∷ bytes) in
        elim (text_lines raw) [
          | [] ↦ ok (none, none)
          | request_line ∷ lines ↦
              let (response, t) = respond w (route_line request_line) (body_of raw) in
              ok (some response, t)
        ]
  ]
