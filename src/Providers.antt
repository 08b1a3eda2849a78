-- ===== src/Providers.antt =====
-- The error that the "error" backend pins for a profile, as each provider of internal/provider
-- writes it.
pub mod Anthropic
pub mod Openai
pub mod Gemini
pub mod Ollama
pub mod Typesafe
pub mod Laws
pub mod Tests
use zolem.Base.{ℕ, String, List, Option, none}

-- A status, the fields of the body and the headers for retries; `kind` is the provider's name of
-- the error, and `label` the id or reason beside it.
pub record ErrorAnswer : Type 0 where
  pub status : ℕ
  pub kind : String
  pub message : String
  pub label : Option String
  pub headers : List (String × ℕ)
