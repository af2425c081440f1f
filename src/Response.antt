-- ===== src/Response.antt =====
-- response/response.go
use bydb.Base.{ℕ, Text, codes}

pub record Response : Type 0 where
  pub code : ℕ
  pub body : Text

unfoldable pub not_found : Response
not_found = record { code = 404; body = codes "not found" }

unfoldable pub conflict : Response
conflict = record { code = 409; body = codes "conflict" }

unfoldable pub success : Text → Response
success body = record { code = 200; body = body }
