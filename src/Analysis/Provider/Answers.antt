-- ===== src/Analysis/Provider/Answers.antt =====
-- Which part of a backend's reply becomes the output of the tool.
use tuti_server.Base.{
  ℕ, String, Bool, true, false, ◌≡◌, ◌⊎◌, inl, inr, refl, not, ◌&&◌, List, [], ◌∷◌, ◌++◌, arith,
  ◌==◌, All, is_empty, Bool-cases, if◌then◌else◌,
}
use tuti_server.Errors.{Result, ok, err, Result-cases, errorf, str}
use tuti_server.Analysis.Provider.{
  Bytes, StructuredCallRequest, Part, AnthropicBlock, AnthropicMessage, OpenaiItem, OpenaiResponse,
  find_tool_use, find_function_call, anthropic_call_structured, openai_call_structured,
  prompt_parts, data_url_parts,
}

-- The first block that passes the test, with those before it failing.
abbrev pub FirstOf : {A : Type 0} → (A → Bool) → List A → A → Type 0
FirstOf {A} test items a =
    (before : List A) × (after : List A) × (items ≡ before ++ a ∷ after)
    × All (λ b. test b ≡ false) before
    × (test a ≡ true)

abbrev pub calls_tool : String → AnthropicBlock → Bool
calls_tool tool b = b.tool_name == tool

abbrev pub calls_function : String → OpenaiItem → Bool
calls_function tool item = item.kind == "function_call" && item.name == tool

find_tool_use-first :
    (tool : String) (bs : List AnthropicBlock) (otherwise : Result Bytes)
    → ((b : AnthropicBlock) × FirstOf (calls_tool tool) bs b
        × (find_tool_use tool bs otherwise ≡ ok b.input))
      ⊎ (find_tool_use tool bs otherwise ≡ otherwise)
unfolding find_tool_use
find_tool_use-first tool [] otherwise = inr refl
find_tool_use-first tool (b ∷ bs) otherwise = elim (Bool-cases (b.tool_name == tool)) [
  | inl here ↦ inl (b, ([], bs, refl, tt, here), ground arith)
  | inr passed ↦ elim (find_tool_use-first tool bs otherwise) [
    | inl (c, (before, after, split, failing, found), got) ↦
        inl (c, (b ∷ before, after, cc, (passed, failing), found), ground arith)
    | inr none_here ↦ inr (ground arith)
  ]
]

find_function_call-first :
    (tool : String) (items : List OpenaiItem) (otherwise : Result Bytes)
    → ((item : OpenaiItem) × FirstOf (calls_function tool) items item
        × (find_function_call tool items otherwise ≡ ok item.arguments))
      ⊎ (find_function_call tool items otherwise ≡ otherwise)
unfolding find_function_call
find_function_call-first tool [] otherwise = inr refl
find_function_call-first tool (b ∷ bs) otherwise = elim (Bool-cases (calls_function tool b)) [
  | inl here ↦ inl (b, ([], bs, refl, tt, here), ground arith)
  | inr passed ↦ elim (find_function_call-first tool bs otherwise) [
    | inl (c, (before, after, split, failing, found), got) ↦
        inl (c, (b ∷ before, after, cc, (passed, failing), found), ground arith)
    | inr none_here ↦ inr (ground arith)
  ]
]

abbrev no_tool_use : String → AnthropicMessage → Result Bytes
no_tool_use tool message = err (
    errorf "analysis: model did not call %s (stop_reason=%s)"
      (str tool ∷ str message.stop_reason ∷ []))

abbrev no_function_call : String → OpenaiResponse → Result Bytes
no_function_call tool resp =
    if not (resp.error_message == "")
    then err (errorf "analysis: %s" (str resp.error_message ∷ []))
    else err
        (errorf "analysis: model did not call %s (status=%s)" (str tool ∷ str resp.status ∷ []))

-- An Anthropic call that succeeds had an image, and gives the input of the first use of the requested tool
-- in a reply that was not a refusal.
pub anthropic_gives_first :
    (base64 : Bytes → String) (ask : String → List Part → String → ℕ → Result AnthropicMessage)
    (req : StructuredCallRequest) (output : Bytes)
    → anthropic_call_structured base64 ask req ≡ ok output
    → (is_empty req.images ≡ false)
      × (message : AnthropicMessage) × (ask req.system
            (prompt_parts base64 req)
            req.tool_name
            req.max_tokens
          ≡ ok message)
      × (message.refused ≡ false)
      × (b : AnthropicBlock) × FirstOf (calls_tool req.tool_name) message.content b
      × (output ≡ b.input)
unfolding anthropic_call_structured
anthropic_gives_first base64 ask req output done = elim (Bool-cases (is_empty req.images)) [
  | inl no_images ↦ ground arith
  | inr images ↦
      elim (Result-cases (ask req.system (prompt_parts base64 req) req.tool_name req.max_tokens)) [
        | inl (message, asked) ↦
            elim (find_tool_use-first req.tool_name message.content
              (no_tool_use req.tool_name message)) [
                | inl (b, first, got) ↦
                    (images, message, asked, ground arith, b, first, ground arith)
                | inr none_here ↦ ground arith
              ]
        | inr (e, failed) ↦ ground arith
      ]
]

-- An OpenAI call that succeeds had an image, and gives the arguments of the first function call in the reply
-- that names the requested tool.
pub openai_gives_first :
    (base64 : Bytes → String) (ask : String → List Part → String → ℕ → Result OpenaiResponse)
    (req : StructuredCallRequest) (output : Bytes)
    → openai_call_structured base64 ask req ≡ ok output
    → (is_empty req.images ≡ false)
      × (message : OpenaiResponse) × (ask req.system
            (data_url_parts base64 req)
            req.tool_name
            req.max_tokens
          ≡ ok message)
      × (b : OpenaiItem) × FirstOf (calls_function req.tool_name) message.output b
      × (output ≡ b.arguments)
unfolding openai_call_structured
openai_gives_first base64 ask req output done = elim (Bool-cases (is_empty req.images)) [
  | inl no_images ↦ ground arith
  | inr images ↦
      elim (Result-cases
        (ask req.system (data_url_parts base64 req) req.tool_name req.max_tokens)) [
          | inl (message, asked) ↦
              elim (find_function_call-first req.tool_name message.output
                (no_function_call req.tool_name message)) [
                  | inl (b, first, got) ↦ (images, message, asked, b, first, ground arith)
                  | inr none_here ↦ ground arith
                ]
          | inr (e, failed) ↦ ground arith
        ]
]
