-- ===== src/Middleware.antt =====
-- internal/middleware: the handlers that run before the routes. Each is an action that says whether
-- the request goes on, and with which identity, or is aborted with a status and a text.
pub mod Authentication
pub mod Permission
pub mod RateLimiter
pub mod Throttler
pub mod Tests
use go_lang_domain_based_ent.Prelude.{String, ℕ}

pub data Verdict : Type 0 where
  next : Verdict
  -- The identity that is put into the context of the request: `userID` and `userEmail`.
  next_as : String → String → Verdict
  abort : ℕ → String → Verdict
