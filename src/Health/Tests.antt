-- ===== src/Health/Tests.antt =====
-- Concrete runs of a node.
use rove.Base.{◌%◌, ◌^◌, ◌<◌}
use rove.Base.{◌≡◌, refl, ◌↔◌, ◌⊎◌, true, false, List, [], ◌∷◌, arith}
use rove.Base.{any}
use rove.Sync.{Duration}
use rove.Sync.Outage.{outage, oldest}
use rove.Base.{inl, inr}
use rove.Base.Bytes.{ascii}
use rove.Base.Result.{ok}
use rove.Base.Text.{Text, split_on, to_ascii_lowercase}
use rove.Net.StandIns.{ascii_only}
use rove.Util.{http_2xx, head_end}
use rove.Health.{HealthSnapshot}
use rove.Health.Server.{respond, serve_parts, first_word, serve_request}
use rove.Health.Answers.{serve_parts-http_2xx}
use rove.Health.Readiness.{
  Event, online, ended, polled, leases, polls, is_drained, IsCalm, observed, ready_iff,
}

abbrev minute : Duration
minute = record { secs = 60; nanos = 0 }

-- The first of two listeners ended, and a poll failed.
abbrev some_events : List Event
some_events = polled 100 false ∷ ended ∷ online ∷ online ∷ polled 40 true ∷ []

some_leases : leases some_events ≡ 1
unfolding leases
some_leases = refl

ready_iff_example : ((observed minute true some_events 7 2 159).is_ready ≡ true) ↔ (
    (any is_drained some_events ≡ false)
    × (0 < 7)
    × ((true ≡ false) ⊎ (0 < leases some_events % 2 ^ 64))
    × IsCalm (oldest (outage (polls some_events))) 159 minute)
ready_iff_example = ready_iff minute true some_events 7 2 159

abbrev no_json : HealthSnapshot → Text
no_json snapshot = ascii "{}"

abbrev asked : Text
asked = ascii "/readyz?full"

asked_path : first_word (split_on b'?' asked) ≡ ascii "/readyz"
unfolding split_on
asked_path = refl

get_method : to_ascii_lowercase (ascii "Get") ≡ ascii "get"
unfolding to_ascii_lowercase
get_method = refl

serve_parts-http_2xx_example :
    http_2xx ascii_only (
      respond
        (serve_parts no_json (observed minute true some_events 7 2 900) (ascii "Get" ∷ asked ∷ [])))
    ≡ (observed minute true some_events 7 2 900).is_ready
serve_parts-http_2xx_example =
    serve_parts-http_2xx ascii_only no_json (observed minute true some_events 7 2 900) (ascii "Get")
      asked [] (inl get_method) asked_path

put_refused :
    serve_request ascii_only no_json
      (observed minute true some_events 7 2 900)
      (ascii "PUT / HTTP/1.1" ∷ head_end ∷ [])
    ≡ ok (
        respond (
          serve_parts no_json
            (observed minute true some_events 7 2 900)
            (ascii "PUT" ∷ ascii "/" ∷ ascii "HTTP/1.1" ∷ [])))
unfolding serve_request rove.Util.read_http_head rove.Util.read_http_head_with_remainder
    rove.Util.find_sub rove.Util.position rove.Base.Text.starts_with
    rove.Base.Text.Words.split_whitespace rove.Health.Server.first_line rove.Base.Text.split_once
    rove.Base.Text.strip_space
put_refused = refl
