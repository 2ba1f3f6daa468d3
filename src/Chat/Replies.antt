-- ===== src/Chat/Replies.antt =====
-- Which reply the customer gets (`chat` of src/shadow_proxy/api/v1/chat.py).
use llm_shadow_proxy.Base.{
  any, Option, if◌then◌else◌, List, [], ◌∷◌, ◌==◌, ℕ, ◌≡◌, ◌⊎◌, true, false, none, some,
}
use llm_shadow_proxy.Base.Text.{Text}
use llm_shadow_proxy.Store.{has_id}
use llm_shadow_proxy.Dispatcher.{Dispatcher}
use llm_shadow_proxy.Llm.{Answer, replied, timed_out, call_error, crashed}
use llm_shadow_proxy.Pipeline.World.{World}
use llm_shadow_proxy.Chat.{App, Arrival, Reply, chat_out, http_error, server_error}

abbrev pub status_of : Reply → ℕ
status_of (chat_out _ _ _ _ _ _) = 200
status_of (http_error status) = status
status_of server_error = 500

-- The statuses of the primary model that the customer gets to see.
abbrev passed_on : List ℕ
passed_on = 401 ∷ 403 ∷ []

abbrev upstream_status : Option ℕ → ℕ
upstream_status none = 502
upstream_status (some code) = if any (λ c. c == code) passed_on then code else 502

-- The status that the primary model's answer calls for.
abbrev pub status_for : Answer → ℕ
status_for (replied resp) = 200
status_for (timed_out msg) = 504
status_for (call_error msg code) = upstream_status code
status_for crashed = 500

-- The insert of the request's row fails: by the database, or since the id is taken.
abbrev pub InsertFails : Arrival → App → Type 0
InsertFails arrival app =
    (arrival.insert_up ≡ false) ⊎ (any (has_id arrival.request_id) app.world.rows ≡ true)

-- The request's row is stored.
abbrev pub Inserts : Arrival → App → Type 0
Inserts arrival app =
    (arrival.insert_up ≡ true) × (any (has_id arrival.request_id) app.world.rows ≡ false)

-- The reply has the status, and the insert worked or need not; or it had to and failed, and the reply
-- is a 500.
abbrev pub Status : Arrival → App → ℕ → Reply → Type 0
Status arrival app status reply =
    ((status_of reply ≡ status) × ((app.fail_closed ≡ false) ⊎ Inserts arrival app))
    ⊎ ((reply ≡ server_error) × (app.fail_closed ≡ true) × InsertFails arrival app)
