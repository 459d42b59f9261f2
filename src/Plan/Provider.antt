-- ===== src/Plan/Provider.antt =====
-- src/internal/llm/llm.go, providerFor, SecretFor and the start of New: where a model is served.
use Prim.Native.Char.{code}
use st_air_case.Prelude.{
  String, Bool, true, false, ◌||◌, Option, none, some, ◌==◌, starts_with, if◌then◌else◌,
}

pub record Provider : Type 0 where
  pub secret : String
  pub base_url : String
  pub anthropic : Bool

abbrev pub gateway_url : String
gateway_url = "https://ai-gateway.vercel.sh/v1"

-- `strings.Contains(model, "/")`
unfoldable pub has_slash : String → Bool
has_slash String.[] = false
has_slash (String.◌∷◌ c s) = code c == b'/' || has_slash s

-- The `switch` over its tests, in their order; `none` is the result `provider{}, false`.
first_case : Bool → Bool → Bool → Bool → Bool → Option Provider
first_case gateway claude gpt gemini grok =
    if gateway
    then some (record { secret = "LLM_GATEWAY_API_KEY"; base_url = gateway_url; anthropic = false })
    else if claude
    then some (record { secret = "ANTHROPIC_API_KEY"; base_url = ""; anthropic = true })
    else if gpt
    then some (record {
      secret = "OPENAI_API_KEY";
      base_url = "https://api.openai.com/v1";
      anthropic = false;
    })
    else if gemini
    then some (record {
      secret = "GOOGLE_API_KEY";
      base_url = "https://generativelanguage.googleapis.com/v1beta/openai";
      anthropic = false;
    })
    else if grok
    then some
        (record { secret = "XAI_API_KEY"; base_url = "https://api.x.ai/v1"; anthropic = false })
    else none

unfoldable pub provider_for : String → Option Provider
unfolding first_case
provider_for model =
    first_case (has_slash model) (starts_with model "claude-")
      (starts_with model "gpt-"
        || starts_with model "o1-"
        || starts_with model "o3-"
        || starts_with model "o4-")
      (starts_with model "gemini-") (starts_with model "grok-")

-- The `secret` field of what `providerFor` returns: its zero value is "".
secret_of : Option Provider → String
secret_of none = ""
secret_of (some p) = p.secret

unfoldable pub secret_for : String → String
unfolding secret_of
secret_for model = secret_of (provider_for model)
