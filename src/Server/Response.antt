-- ===== src/Server/Response.antt =====
-- The responses of crates/server: a status code, and a body of JSON if there is one.
use twitter_rust_formal_veri.Prelude.{ℕ, Option}

pub record Response (V : Type 0) : Type 0 where
  pub status : ℕ
  pub body : Option V
