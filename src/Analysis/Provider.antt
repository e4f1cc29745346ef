-- ===== src/Analysis/Provider.antt =====
-- internal/analysis/provider.go, provider_anthropic.go and provider_openai.go: one forced tool call to a
-- backend, and how its answer is read. The SDKs are parameters: a function from a request to a reply.
pub mod Answers
use Prim.Native.String
use tuti_server.Base.{ℕ, String, Bool, List, [], ◌∷◌, ◌++◌, map, ◌==◌, not, if◌then◌else◌, is_empty}
use tuti_server.Errors.{Result, ok, err, errorf, wrapf, str, map_err, bind}

abbrev pub Bytes : Type 0
Bytes = List ℕ

-- `Image` of analysis.go
pub record Image : Type 0 where
  pub bytes : Bytes
  pub content_type : String

-- `structuredCallRequest`; the tool's description and its schema are fixed by the tool's name.
pub record StructuredCallRequest : Type 0 where
  pub system : String
  pub prompt : String
  pub images : List Image
  pub tool_name : String
  pub max_tokens : ℕ

-- `provider`
pub record Provider : Type 0 where
  pub call_structured : StructuredCallRequest → Result Bytes
  pub call_text : String → ℕ → Result String

-- A part of the user's message.
pub data Part : Type 0 where
  image_part : (content_type encoded : String) → Part
  text_part : String → Part

abbrev pub prompt_parts : (Bytes → String) → StructuredCallRequest → List Part
prompt_parts base64 req =
    map (λ i. image_part i.content_type (base64 i.bytes)) req.images ++ text_part req.prompt ∷ []

-- A block of a message of the Anthropic SDK: its text and the tool call that it holds, with empty
-- texts where it is of the other kind.
pub record AnthropicBlock : Type 0 where
  pub tool_name : String
  pub input : Bytes
  pub text : String

pub record AnthropicMessage : Type 0 where
  pub refused : Bool
  pub stop_reason : String
  pub content : List AnthropicBlock

-- The loop over the blocks: the first call of the tool.
unfoldable pub find_tool_use : String → List AnthropicBlock → Result Bytes → Result Bytes
find_tool_use tool [] otherwise = otherwise
find_tool_use tool (b ∷ bs) otherwise =
    let later = find_tool_use tool bs otherwise in if b.tool_name == tool then ok b.input else later

unfoldable pub find_text : List AnthropicBlock → Result String → Result String
find_text [] otherwise = otherwise
find_text (b ∷ bs) otherwise =
    let later = find_text bs otherwise in if b.text == "" then later else ok b.text

-- `anthropicProvider`; `ask` is `client.Messages.New` at the model of the provider.
module _ (base64 : Bytes → String)
    (ask : (system : String) (parts : List Part) (tool : String) (max_tokens : ℕ)
      → Result AnthropicMessage) where
  unfoldable pub anthropic_call_structured : StructuredCallRequest → Result Bytes
  anthropic_call_structured req =
      if is_empty req.images
      then err (errorf "analysis: at least one image is required" [])
      else bind
          (map_err (wrapf "analysis: %w" [])
            (ask req.system (prompt_parts base64 req) req.tool_name req.max_tokens))
          (λ message.
            if message.refused
            then err (errorf "analysis: model declined to respond (refusal)" [])
            else find_tool_use req.tool_name message.content (
                err (
                  errorf "analysis: model did not call %s (stop_reason=%s)"
                    (str req.tool_name ∷ str message.stop_reason ∷ []))))

  unfoldable pub anthropic_call_text : String → ℕ → Result String
  anthropic_call_text prompt max_tokens =
      bind (map_err (wrapf "analysis: %w" []) (ask "" (text_part prompt ∷ []) "" max_tokens))
        (λ message.
          if message.refused
          then err (errorf "analysis: model declined to respond (refusal)" [])
          else find_text message.content (
              err (
                errorf "analysis: no text in response (stop_reason=%s)"
                  (str message.stop_reason ∷ []))))

  abbrev pub anthropic : Provider
  anthropic = record {
    call_structured = anthropic_call_structured;
    call_text = anthropic_call_text;
  }

-- An item of a reply of the OpenAI SDK, by its `Type`. A message is the list of its contents, each with
-- its type and its text.
pub record OpenaiItem : Type 0 where
  pub kind : String
  pub name : String
  pub arguments : Bytes
  pub contents : List (String × String)

pub record OpenaiResponse : Type 0 where
  pub output : List OpenaiItem
  pub error_message : String
  pub status : String

unfoldable pub find_function_call : String → List OpenaiItem → Result Bytes → Result Bytes
find_function_call tool [] otherwise = otherwise
find_function_call tool (item ∷ items) otherwise =
    let later = find_function_call tool items otherwise in
    if not (item.kind == "function_call")
    then later
    else if item.name == tool
    then ok item.arguments
    else later

unfoldable pub find_output_text : List (String × String) → Result String → Result String
find_output_text [] otherwise = otherwise
find_output_text ((kind, text) ∷ contents) otherwise =
    let later = find_output_text contents otherwise in
    if kind == "output_text" then ok text else later

unfoldable pub find_message : List OpenaiItem → Result String → Result String
find_message [] otherwise = otherwise
find_message (item ∷ items) otherwise =
    let later = find_message items otherwise in
    if not (item.kind == "message") then later else find_output_text item.contents later

-- The parts of the user's message. The image's data URL is built here, where the Anthropic SDK builds its
-- own block.
abbrev data_url : (Bytes → String) → Image → Part
data_url base64 i =
    image_part i.content_type
      (String.◌++◌ "data:" (String.◌++◌ i.content_type (String.◌++◌ ";base64," (base64 i.bytes))))

abbrev pub data_url_parts : (Bytes → String) → StructuredCallRequest → List Part
data_url_parts base64 req = map (data_url base64) req.images ++ text_part req.prompt ∷ []

-- `openaiProvider`; `ask` is `client.Responses.New` at the model of the provider.
module _ (base64 : Bytes → String)
    (ask : (instructions : String) (parts : List Part) (tool : String) (max_tokens : ℕ)
      → Result OpenaiResponse) where
  unfoldable pub openai_call_structured : StructuredCallRequest → Result Bytes
  openai_call_structured req =
      if is_empty req.images
      then err (errorf "analysis: at least one image is required" [])
      else bind
          (map_err (wrapf "analysis: %w" [])
            (ask req.system (data_url_parts base64 req) req.tool_name req.max_tokens))
          (λ resp. find_function_call req.tool_name resp.output (
            if not (resp.error_message == "")
            then err (errorf "analysis: %s" (str resp.error_message ∷ []))
            else err (
                errorf "analysis: model did not call %s (status=%s)"
                  (str req.tool_name ∷ str resp.status ∷ []))))

  unfoldable pub openai_call_text : String → ℕ → Result String
  openai_call_text prompt max_tokens =
      bind (map_err (wrapf "analysis: %w" []) (ask "" (text_part prompt ∷ []) "" max_tokens))
        (λ resp. find_message resp.output (
          if not (resp.error_message == "")
          then err (errorf "analysis: %s" (str resp.error_message ∷ []))
          else err (errorf "analysis: no text in response (status=%s)" (str resp.status ∷ []))))

  abbrev pub openai : Provider
  openai = record { call_structured = openai_call_structured; call_text = openai_call_text }
