-- ===== src/Health.antt =====
-- src/shadow_proxy/api/health.py: the liveness and the readiness endpoint. Whether the store has an engine
-- and whether the ping goes through is given.
use llm_shadow_proxy.Base.{ℕ, ◌≡◌, ◌↔◌, Bool, true, Option, some, none, arith, if◌then◌else◌}
use llm_shadow_proxy.Base.Text.{Text, codes}

pub record Response : Type 0 where
  pub content : Text
  pub status_code : ℕ

abbrev pub healthz : Response
healthz = record { content = codes "{\"status\":\"ok\"}"; status_code = 200 }

-- The `_engine` of the store, given by what `SELECT 1` does on it.
unfoldable pub readyz : Option Bool → Response
readyz none = record { content = codes "no store"; status_code = 503 }
readyz (some answers) =
    if answers
    then record { content = codes "ready"; status_code = 200 }
    else record { content = codes "db unreachable"; status_code = 503 }

-- The proxy is reported as ready exactly if its database answers.
readyz_iff : (engine : Option Bool) → ((readyz engine).status_code ≡ 200) ↔ (engine ≡ some true)
unfolding readyz
readyz_iff none = (λ e. absurd (omega arith), λ e. cc)
readyz_iff (some answers) = ground arith
