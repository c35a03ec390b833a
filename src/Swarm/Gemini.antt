-- ===== src/Swarm/Gemini.antt =====
-- swarm-orchestrator/src/gemini.rs: the client of the model: its requests, the reading of a
-- response, and the mock without a network.
use syntropy.Prelude.{
  Bool, true, false, not, ◌||◌, Option, none, some, List, [], ◌∷◌, ◌++◌, Text, lit, text_eq, Result,
  ok, err, ◌>>=◌, if◌then◌else◌, join, contains, find?, trim,
}

abbrev pub and_then : {A B : Type 0} → Option A → (A → Option B) → Option B
and_then none f = none
and_then (some a) f = f a

abbrev pub unwrap_or : {A : Type 0} → A → Option A → A
unwrap_or a none = a
unwrap_or a (some b) = b

pub record ChatMessage : Type 0 where
  pub role : Text
  pub text : Text

pub record GeminiConfig : Type 0 where
  pub api_key : Text
  pub model : Text
  pub endpoint : Text
  pub is_dev_mock : Bool

abbrev pub default_config : GeminiConfig
default_config = record {
  api_key = [];
  model = lit "gemini-flash-latest";
  endpoint = lit "https://generativelanguage.googleapis.com/v1beta/models";
  is_dev_mock = false;
}

-- `GeminiClient::new`
unfoldable pub new_client : Text → Text → GeminiConfig
unfolding text_eq
new_client key model = record default_config {
  api_key = key;
  model = model;
  is_dev_mock = text_eq key [] || text_eq key (lit "mock") || text_eq key (lit "dev");
}

abbrev pub dev_mock : GeminiConfig
dev_mock = record default_config {
  api_key = lit "dev_mock_key";
  model = lit "gemini-flash-latest-dev-mock";
  is_dev_mock = true;
}

-- With the value of `GEMINI_API_KEY`, if it is set.
unfoldable pub from_env : Option Text → GeminiConfig
unfolding new_client trim text_eq
from_env none = dev_mock
from_env (some key) =
    if not (text_eq (trim key) []) then new_client key (lit "gemini-flash-latest") else dev_mock

-- An answer of the server: its status, its text if it can be read, and its JSON if it is some.
pub record HttpResponse (Value : Type 0) : Type 0 where
  pub is_success : Bool
  pub status : Text
  pub body : Option Text
  pub json_body : Result Text Value

-- `serde_json::Value` and the network, and `str::to_lowercase`.
pub record ModelApi : Type 1 where
  pub Value : Type 0
  pub get : Text → Value → Option Value
  pub as_str : Value → Option Text
  pub as_array : Value → Option (List Value)
  pub as_object : Value → Option Value
  pub of_text : Text → Value
  pub of_array : List Value → Value
  pub of_fields : List (Text × Value) → Value
  pub print : Value → Text
  pub to_lowercase : Text → Text
  pub post : Text → Value → Result Text (HttpResponse Value)

module _ (j : ModelApi) where
  pub record GeminiToolCall : Type 0 where
    pub name : Text
    pub args : j.Value

  pub record GeminiTurnResult : Type 0 where
    pub content : Text
    pub tool_calls : List GeminiToolCall
    pub finish_reason : Text
    pub is_dev_mock : Bool

  abbrev pub text_at : Text → j.Value → Option Text
  text_at key v = and_then (j.get key v) j.as_str

  abbrev pub first_of : Option (List j.Value) → Option j.Value
  first_of none = none
  first_of (some []) = none
  first_of (some (v ∷ vs)) = some v

  -- The texts of the parts, and the calls that have a name.
  abbrev pub texts_of : List j.Value → List Text
  texts_of [] = []
  texts_of (part ∷ parts) =
      let rest = texts_of parts in
      elim (text_at (lit "text") part) [ none ↦ rest | some t ↦ t ∷ rest ]

  abbrev pub call_of : j.Value → GeminiToolCall
  call_of fc = record {
    name = unwrap_or [] (text_at (lit "name") fc);
    args = unwrap_or (j.of_fields []) (j.get (lit "args") fc);
  }

  abbrev pub calls_of : List j.Value → List GeminiToolCall
  calls_of [] = []
  calls_of (part ∷ parts) =
      let rest = calls_of parts in
      elim (and_then (j.get (lit "functionCall") part) j.as_object) [
        | none ↦ rest
        | some fc ↦ if not (text_eq (call_of fc).name []) then call_of fc ∷ rest else rest
      ]

  unfoldable pub parse_gemini_response : j.Value → Result Text GeminiTurnResult
  unfolding join text_eq
  parse_gemini_response val = elim (first_of (and_then (j.get (lit "candidates") val) j.as_array)) [
    | none ↦ err (lit "No candidate in Gemini response: " ++ j.print val)
    | some candidate ↦
        let parts = unwrap_or [] (
          and_then (and_then (j.get (lit "content") candidate) (j.get (lit "parts"))) j.as_array) in
        ok (record {
          content = join (lit "\n") (texts_of parts);
          tool_calls = calls_of parts;
          finish_reason = unwrap_or (lit "STOP") (text_at (lit "finishReason") candidate);
          is_dev_mock = false;
        })
  ]

  abbrev pub mock_result : Text → List GeminiToolCall → GeminiTurnResult
  mock_result content tool_calls = record {
    content = content;
    tool_calls = tool_calls;
    finish_reason = lit "STOP";
    is_dev_mock = true;
  }

  abbrev pub listing : GeminiToolCall
  listing = record {
    name = lit "exec_command";
    args = j.of_fields (
        (lit "command", j.of_text (lit "ls"))
        ∷ (lit "args", j.of_array (j.of_text (lit "-la") ∷ []))
        ∷ []);
  }

  abbrev pub mock_patch : GeminiToolCall
  mock_patch = record {
    name = lit "apply_patch";
    args = j.of_fields (
        (lit "file_path", j.of_text (lit "dev_patch.txt"))
        ∷ (lit "diff", j.of_text (lit "@@ -0,0 +1,1 @@\n+Dev patch line\n"))
        ∷ []);
  }

  -- Outside Windows.
  unfoldable pub generate_dev_mock_turn : Text → GeminiTurnResult
  unfolding find?
  generate_dev_mock_turn prompt =
      let p_lower = j.to_lowercase prompt in
      if contains (lit "list") p_lower
        || contains (lit "file") p_lower
        || contains (lit "dir") p_lower
      then mock_result
          (lit "Syntropy Dev Mock: Executing workspace listing for prompt: '"
            ++ (prompt ++ lit "'"))
          (listing ∷ [])
      else if contains (lit "patch") p_lower || contains (lit "edit") p_lower
      then mock_result (lit "Syntropy Dev Mock: Applying mock patch.") (mock_patch ∷ [])
      else mock_result
          (lit "Syntropy Dev Mock: Received prompt '"
            ++ (prompt ++ lit "'. Swarm reasoning complete."))
          []

  abbrev pub content_of : Text → Text → j.Value
  content_of role text = j.of_fields (
      (lit "role", j.of_text role)
      ∷ (lit "parts", j.of_array (j.of_fields ((lit "text", j.of_text text) ∷ []) ∷ []))
      ∷ [])

  abbrev pub contents_of : List ChatMessage → Text → List j.Value
  contents_of [] prompt = content_of (lit "user") prompt ∷ []
  contents_of (msg ∷ history) prompt =
      content_of (if text_eq msg.role (lit "assistant") then lit "model" else msg.role) msg.text
      ∷ contents_of history prompt

  abbrev pub described : Text → Text → List (Text × j.Value) → j.Value
  described kind text more =
      j.of_fields
        ((lit "type", j.of_text kind) ∷ (more ++ (lit "description", j.of_text text) ∷ []))

  abbrev pub strings : List Text → List j.Value
  strings [] = []
  strings (t ∷ ts) = j.of_text t ∷ strings ts

  abbrev pub function_of : Text → Text → List (Text × j.Value) → List Text → j.Value
  function_of name description properties required = j.of_fields (
      (lit "name", j.of_text name)
      ∷ (lit "description", j.of_text description)
      ∷ (
        lit "parameters",
        j.of_fields (
            (lit "type", j.of_text (lit "object"))
            ∷ (lit "properties", j.of_fields properties)
            ∷ (lit "required", j.of_array (strings required))
            ∷ []),
      )
      ∷ [])

  abbrev pub tools_value : j.Value
  tools_value = j.of_array (
      j.of_fields (
        (
          lit "functionDeclarations",
          j.of_array (
              function_of (lit "exec_command")
                (lit "Execute a shell command inside the user's isolated virtual PTY jail")
                ((
                  lit "command",
                  described (lit "string") (lit "Binary or shell executable to run") [],
                )
                  ∷ (
                    lit "args",
                    described (lit "array") (lit "Command line arguments") (
                        (lit "items", j.of_fields ((lit "type", j.of_text (lit "string")) ∷ []))
                        ∷ []),
                  )
                  ∷ [])
                (lit "command" ∷ [])
              ∷ function_of (lit "apply_patch")
                  (lit "Apply a unified diff atomically to a repository file")
                  ((
                    lit "file_path",
                    described (lit "string") (lit "Relative path to target file") [],
                  )
                    ∷ (lit "diff", described (lit "string") (lit "Unified diff payload") [])
                    ∷ [])
                  (lit "file_path" ∷ lit "diff" ∷ [])
              ∷ []),
        )
        ∷ [])
      ∷ [])

  abbrev pub body_of : Text → Text → List ChatMessage → j.Value
  body_of prompt system history = j.of_fields (
      (lit "contents", j.of_array (contents_of history prompt))
      ∷ (lit "tools", tools_value)
      ∷ (
        lit "systemInstruction",
        j.of_fields (
            (lit "parts", j.of_array (j.of_fields ((lit "text", j.of_text system) ∷ []) ∷ []))
            ∷ []),
      )
      ∷ [])

  abbrev pub read_response : HttpResponse j.Value → Result Text GeminiTurnResult
  read_response res =
      if res.is_success
      then res.json_body >>= parse_gemini_response
      else err (
          lit "Gemini API error ("
          ++ (res.status ++ (lit "): " ++ unwrap_or (lit "Unknown error") res.body)))

  unfoldable pub generate_turn :
      GeminiConfig → Text → Text → List ChatMessage → Result Text GeminiTurnResult
  unfolding parse_gemini_response generate_dev_mock_turn text_eq
  generate_turn config prompt system history =
      if config.is_dev_mock
      then ok (generate_dev_mock_turn prompt)
      else j.post
          (config.endpoint
            ++ (lit "/" ++ (config.model ++ (lit ":generateContent?key=" ++ config.api_key))))
          (body_of prompt system history)
        >>= read_response
