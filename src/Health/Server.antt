-- ===== src/Health/Server.antt =====
-- The answers of the health endpoint, `serve_request` and `respond` in src/health.rs.
use rove.Base.{ℕ, ◌*◌}
use rove.Base.{Bool, false, not, ◌&&◌, none, some, List, [], ◌∷◌, ◌++◌}
use rove.Base.{if◌then◌else◌}
use rove.Base.{length}
use rove.Base.Bytes.{ascii}
use rove.Base.Text.{Text, split_on, split_once, to_ascii_lowercase}
use rove.Base.Text.Utf8.{Utf8}
use rove.Base.Text.Words.{split_whitespace}
use rove.Base.Eq.{same, nat_eq, list_eq}
use rove.Base.Decimal.{to_decimal}
use rove.Base.Result.{Result, ok, ◌>>=◌}
use rove.Util.{HeadError, read_http_head, head_end}
use rove.Health.{HealthSnapshot}

-- The arguments of `respond`.
pub record Response : Type 0 where
  pub status : ℕ
  pub reason : Text
  pub body : Text
  pub head_only : Bool

abbrev line_feed : Text
line_feed = 13 ∷ 10 ∷ []

unfoldable pub respond : Response → Text
respond r =
    ascii "HTTP/1.1 "
    ++ (to_decimal r.status
        ++ (32
            ∷ (r.reason
                ++ (line_feed
                    ++ (ascii "Content-Type: application/json"
                        ++ (line_feed
                            ++ (ascii "Content-Length: "
                                ++ (to_decimal (length r.body)
                                    ++ (line_feed
                                        ++ (ascii "Connection: close"
                                            ++ (head_end
                                                ++ (if r.head_only then [] else r.body))))))))))))

abbrev pub first_word : List Text → Text
first_word [] = []
first_word (w ∷ ws) = w

abbrev words_after : List Text → List Text
words_after [] = []
words_after (w ∷ ws) = ws

-- `lines().next().unwrap_or("")`, whose carriage return is left to the splitting into words.
unfoldable pub first_line : Text → Text
first_line request = elim (split_once 10 request) [ none ↦ request | some (line, rest) ↦ line ]

unfoldable pub answer : (HealthSnapshot → Text) → HealthSnapshot → Text → Bool → Response
answer to_json snapshot path head_only =
    if same path (ascii "/healthz")
    then (record {
      status = 200;
      reason = ascii "OK";
      body = to_json snapshot;
      head_only = head_only;
    })
    else (if same path (ascii "/readyz")
        then (record {
          status = if snapshot.is_ready then 200 else 503;
          reason = if snapshot.is_ready then ascii "OK" else ascii "Service Unavailable";
          body = to_json snapshot;
          head_only = head_only;
        })
        else (record {
          status = 404;
          reason = ascii "Not Found";
          body = ascii "{\"status\":\"not_found\"}";
          head_only = head_only;
        }))

unfoldable pub serve_parts : (HealthSnapshot → Text) → HealthSnapshot → List Text → Response
serve_parts to_json snapshot parts =
    let method = to_ascii_lowercase (first_word parts) in
    let head_only = same method (ascii "head") in
    if not (same method (ascii "get")) && not head_only
    then (record {
      status = 405;
      reason = ascii "Method Not Allowed";
      body = ascii "{\"status\":\"method_not_allowed\"}";
      head_only = false;
    })
    else answer to_json snapshot (first_word (split_on b'?' (first_word (words_after parts))))
        head_only

-- With the reads of the connection, the encoder of JSON and the snapshot at that time.
unfoldable pub serve_request :
    Utf8 → (HealthSnapshot → Text) → HealthSnapshot → List Text → Result HeadError Text
serve_request u to_json snapshot chunks = do
  head ← read_http_head (8 * 1024) chunks
  ok (
      respond
        (serve_parts to_json snapshot (split_whitespace (first_line (u.from_utf8_lossy head)))))
