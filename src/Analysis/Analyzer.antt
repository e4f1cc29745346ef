-- ===== src/Analysis/Analyzer.antt =====
-- internal/analysis/analysis.go, id.go and devlog.go: the two judgments, written once for both backends.
-- The state is what a call logs. Time stamps and latencies are left out.
pub mod Results
use Prim.Native.String
use tuti_server.Base.{
  ℕ, zero, suc, ◌+◌, String, Bool, true, false, List, [], ◌∷◌, ◌++◌, map, Option, none, some, ◌==◌,
  not, length, encode_hex, itoa, if◌then◌else◌,
}
use tuti_server.Errors.{
  Error, Result, ok, err, M, ◌>>=◌, ◌>>◌, return, lift, wrapping, map_err, errorf, wrapf, str, bind,
  to_option,
}
use tuti_server.Proto.{Problem, Mistake}
use tuti_server.Analysis.Draft.{
  MistakeDraft, ExtractOutput, EvaluateOutput, validate_extract, validate_evaluate,
  problem_to_proto, mistake_to_proto,
}
use tuti_server.Analysis.Provider.{Bytes, Image, StructuredCallRequest, Provider}

-- `randSuffix`, at the four bytes that `rand.Read` gives
unfoldable pub rand_suffix : Result Bytes → String
rand_suffix (ok b) = encode_hex b
rand_suffix (err e) = "0"

-- `ExtractResult`
pub record ExtractResult : Type 0 where
  pub blank : Bool
  pub problem : Option Problem

-- `EvaluateResult`
pub record EvaluateResult : Type 0 where
  pub problem : Problem
  pub mistakes : List Mistake

-- The fields of `llmAnalyzer`, less the backend. `has_logger` is `a.logger != nil`.
pub record Settings : Type 0 where
  pub has_logger : Bool
  pub dev_log_dir : String
  pub error_log_dir : String

-- One line of `logCall`, and one file of `writeDevLog`, with the prefix of its name.
pub data Log : Type 0 where
  line : (op tool : String) (images : ℕ) (error : Option Error) → Log
  file : (dir prefix : String) (error : Option Error) → Log

abbrev pub Logs : Type 0
Logs = List Log

abbrev error_of {ℓ} : {A : Type ℓ} → Result A → Option Error
error_of (ok a) = none
error_of (err e) = some e

-- `logCall`
unfoldable pub log_call : Settings → String → String → ℕ → Option Error → Logs → Logs
log_call a op tool images error logs =
    if a.has_logger then logs ++ line op tool images error ∷ [] else logs

-- `writeDevLog`, of the name's prefix
unfoldable pub write_dev_log : String → String → Option Error → Logs → Logs
write_dev_log dir op error logs =
    logs ++ file dir (elim error [ none ↦ op | some _ ↦ String.◌++◌ "ERROR_" op ]) error ∷ []

-- The choice between the two directories, which `RawPrompt` and `call` both make.
unfoldable pub log_to_file : Settings → String → Option Error → Logs → Logs
unfolding write_dev_log
log_to_file a op error logs =
    if not (a.dev_log_dir == "") then write_dev_log a.dev_log_dir op error logs else elim error [
      | none ↦ logs
      | some e ↦
          if not (a.error_log_dir == "")
          then write_dev_log a.error_log_dir op (some e) logs
          else logs
    ]

abbrev pub default_max_tokens : ℕ
default_max_tokens = 4096

-- The prompts of prompts.go that tell the two calls apart.
pub record Prompts : Type 0 where
  pub system : String
  pub extract : String
  pub evaluate : String

abbrev pub extract_tool_name : String
extract_tool_name = "extract_problem"

abbrev pub evaluate_tool_name : String
evaluate_tool_name = "evaluate_work"

-- `fmt.Sprintf("%s_m%d", problemID, i+1)`
abbrev pub mistake_id : String → ℕ → String
mistake_id problem_id i = String.◌++◌ problem_id (String.◌++◌ "_m" (itoa (i + 1)))

-- The loop over the mistakes, from the index `i` on.
unfoldable pub number_mistakes : String → ℕ → List MistakeDraft → List Mistake
number_mistakes problem_id i [] = []
number_mistakes problem_id i (m ∷ ms) =
    mistake_to_proto m (mistake_id problem_id i) ∷ number_mistakes problem_id (i + 1) ms

module _ (backend : Provider) (a : Settings) (prompts : Prompts) where
  -- `RawPrompt`
  unfoldable pub raw_prompt : String → M Logs String
  unfolding log_call log_to_file
  raw_prompt text logs =
      let reply = backend.call_text text default_max_tokens in
      (reply, log_to_file a "text" (error_of reply) (log_call a "text" "" 0 (error_of reply) logs))

  -- `call`; `unmarshal` is `json.Unmarshal` at the type of the output
  unfoldable pub call : {A : Type 0} → List Image → String → String → (Bytes → Result A) → M Logs A
  unfolding log_call log_to_file
  call images prompt tool unmarshal logs =
      let raw = backend.call_structured (record {
        system = prompts.system;
        prompt = prompt;
        images = images;
        tool_name = tool;
        max_tokens = default_max_tokens;
      }) in
      let logged =
        log_to_file a "structured" (error_of raw)
          (log_call a "structured" tool (length images) (error_of raw) logs) in
      (
        bind raw (λ bytes.
            map_err (wrapf "analysis: decoding %s output: %w" (str tool ∷ [])) (unmarshal bytes)),
        logged,
      )

  -- `Extract`
  unfoldable pub extract :
      (Bytes → Result ExtractOutput) → List Image → Result Bytes → M Logs ExtractResult
  extract unmarshal images rand = do
    out ← call images prompts.extract extract_tool_name unmarshal
    wrapping (wrapf "analysis: %w" []) (lift (validate_extract out))
    let problem_id = String.◌++◌ "detected_" (rand_suffix rand)
    return (record {
      blank = out.blank;
      problem =
          if not out.blank
          then elim out.problem [ none ↦ none | some p ↦ some (problem_to_proto p problem_id) ]
          else none;
    })

  -- `Evaluate`
  unfoldable pub evaluate :
      (Bytes → Result EvaluateOutput) → List Image → Result Bytes → M Logs EvaluateResult
  evaluate unmarshal images rand = do
    out ← call images prompts.evaluate evaluate_tool_name unmarshal
    wrapping (wrapf "analysis: %w" []) (lift (validate_evaluate out))
    let problem_id = String.◌++◌ "detected_" (rand_suffix rand)
    return (record {
      problem = problem_to_proto out.problem problem_id;
      mistakes = number_mistakes problem_id 0 out.mistakes;
    })
