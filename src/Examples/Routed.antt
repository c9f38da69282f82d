-- ===== src/Examples/Routed.antt =====
-- Requests to the mux.
use event_tracking.Prelude.{◌≡◌, ◌↔◌, ◌⊎◌, String, refl, true, some}
use event_tracking.Service.Routes.{
  routes, found, batch, dispatch, HttpRequest, Surroundings, serve_http, reply, method_not_allowed,
}
use event_tracking.Service.Routes.Dispatch.{IsFor, dispatch_iff, only_batch_stores}
use event_tracking.Service.Wiring.Requests.{table}
use event_tracking.Examples.Tokens.{minter, config}
use event_tracking.Examples.Exchanges.{token_codecs}
use event_tracking.Examples.Deliveries.{codecs}
use event_tracking.Examples.Twice.{ours, before, post_batch}

abbrev get_batch : HttpRequest
get_batch = record { method = "GET"; path = "/v1/batch"; request = post_batch }

abbrev all_up : Surroundings String
all_up = record { clickhouse_up = true; postgres_up = true; redis_up = true; key_set = some "{}" }

refused_get :
    serve_http codecs token_codecs ours config minter (λ s. s) all_up get_batch before
    ≡ (reply (method_not_allowed "POST"), before)
unfolding serve_http dispatch
refused_get = refl

dispatch_iff_example :
    (dispatch "POST" "/v1/batch" routes ≡ found batch) ↔ IsFor batch "POST" "/v1/batch"
dispatch_iff_example = dispatch_iff batch "POST" "/v1/batch"

only_batch_stores_example :
    (◌≡◌ {A = String} "GET" "POST" × ◌≡◌ {A = String} "/v1/batch" "/v1/batch")
    ⊎ (table codecs token_codecs ours config minter
          (serve_http codecs token_codecs ours config minter (λ s. s) all_up get_batch before).1
        ≡ table codecs token_codecs ours config minter before)
only_batch_stores_example =
    only_batch_stores codecs token_codecs ours config minter (λ s. s) all_up get_batch before
