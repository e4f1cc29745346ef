-- ===== src/Tests/Backends.antt =====
-- Runs of the two backends.
use tuti_server.Base.{ℕ, String, ◌≡◌, refl, false, List, [], ◌∷◌, is_empty}
use tuti_server.Errors.{Result, ok}
use tuti_server.Analysis.Provider.{
  Bytes, StructuredCallRequest, Part, AnthropicMessage, AnthropicBlock, OpenaiItem, OpenaiResponse,
  anthropic_call_structured, openai_call_structured, find_tool_use, find_function_call,
  prompt_parts, data_url_parts,
}
use tuti_server.Analysis.Provider.Answers.{
  FirstOf, calls_tool, calls_function, anthropic_gives_first, openai_gives_first,
}

abbrev base64 : Bytes → String
base64 bytes = "aW1n"

abbrev request : StructuredCallRequest
request = record {
  system = "s";
  prompt = "x";
  images = record { bytes = 7 ∷ []; content_type = "image/png" } ∷ [];
  tool_name = "extract_problem";
  max_tokens = 4096;
}

abbrev message : AnthropicMessage
message = record {
  refused = false;
  stop_reason = "tool_use";
  content =
      record { tool_name = ""; input = []; text = "Here it is." }
      ∷ record { tool_name = "extract_problem"; input = 5 ∷ []; text = "" }
      ∷ [];
}

abbrev ask_anthropic : String → List Part → String → ℕ → Result AnthropicMessage
ask_anthropic system parts tool max_tokens = ok message

anthropic_answered : anthropic_call_structured base64 ask_anthropic request ≡ ok (5 ∷ [])
unfolding anthropic_call_structured find_tool_use
anthropic_answered = refl

anthropic_gives_first_example :
    (is_empty request.images ≡ false)
    × (m : AnthropicMessage) × (ask_anthropic "s"
          (prompt_parts base64 request)
          "extract_problem"
          4096
        ≡ ok m)
    × (m.refused ≡ false)
    × (b : AnthropicBlock) × FirstOf (calls_tool "extract_problem") m.content b
    × ((5 ∷ []) ≡ b.input)
anthropic_gives_first_example =
    anthropic_gives_first base64 ask_anthropic request (5 ∷ []) anthropic_answered

abbrev response : OpenaiResponse
response = record {
  output =
      record { kind = "function_call"; name = "extract_problem"; arguments = 5 ∷ []; contents = [] }
      ∷ [];
  error_message = "";
  status = "completed";
}

abbrev ask_openai : String → List Part → String → ℕ → Result OpenaiResponse
ask_openai instructions parts tool max_tokens = ok response

openai_answered : openai_call_structured base64 ask_openai request ≡ ok (5 ∷ [])
unfolding openai_call_structured find_function_call
openai_answered = refl

openai_gives_first_example :
    (is_empty request.images ≡ false)
    × (m : OpenaiResponse) × (ask_openai "s" (data_url_parts base64 request) "extract_problem" 4096
        ≡ ok m)
    × (b : OpenaiItem) × FirstOf (calls_function "extract_problem") m.output b
    × ((5 ∷ []) ≡ b.arguments)
openai_gives_first_example = openai_gives_first base64 ask_openai request (5 ∷ []) openai_answered
