-- ===== src/Host.antt =====
-- What the agent calls and does not implement: commands, files, the HTTP transport, the parser of
-- URLs, and the text form of JSON. Each is an operation on a world `W`, which is left abstract;
-- an operation may fail in any way, and may change the world in any way.
use rook_servicechannel_agen.Common.{ℕ, String, List, ◌≡◌, false}
use rook_servicechannel_agen.Errors.{Error, is_request}
use rook_servicechannel_agen.Action.{Result, ok, err, Action}
use rook_servicechannel_agen.Json.{Json}

-- The parts of a `*url.URL` that the agent reads, and the text that stands for the whole.
pub record Url : Type 0 where
  pub scheme : String
  pub host : String
  pub whole : String

pub record HttpRequest : Type 0 where
  pub method : String
  pub url : String
  pub content_type : String
  pub accept : String
  pub body : String

-- `body` is what `io.ReadAll(response.Body)` returns.
pub record HttpResponse : Type 0 where
  pub status_code : ℕ
  pub body : Result String

pub record Host (W : Type 0) : Type 0 where
  -- `Runner.Run(ctx, name, args...)` of internal/network/network.go
  pub run : String → List String → Action W String
  -- `os.ReadFile`, `os.WriteFile`, `os.MkdirAll`, `os.Remove`
  pub read_file : String → Action W String
  pub write_file : String → String → Action W (Unit {0})
  pub mkdir_all : String → Action W (Unit {0})
  pub remove : String → Action W (Unit {0})
  -- `HTTPClient.Do` of internal/backend/client.go
  pub send : HttpRequest → Action W HttpResponse
  -- The number of ticks that a poll receives before its context is done, and the context's error.
  pub ticks : W → ℕ
  pub context_error : W → Error
  -- `url.Parse`, and `base.ResolveReference(&url.URL{Path: path}).String()`
  pub parse_url : String → Result Url
  pub endpoint : Url → String → String
  -- `filepath.Dir`
  pub dir : String → String
  -- encoding/json: the text of a value, the value of a text, and the error for a value of another
  -- shape than the struct that it should fill.
  pub print_json : Json → String
  pub print_indented : Json → String
  pub parse_json : String → Result Json
  pub shape_error : String → Error

-- The errors of encoding/json, net/http and io that the client passes on are no `*RequestError`.
pub record PlainErrors {W : Type 0} (host : Host W) : Type 0 where
  pub parse_plain : (s : String) {e : Error} → host.parse_json s ≡ err e → is_request e ≡ false
  pub shape_plain : (s : String) → is_request (host.shape_error s) ≡ false
  pub url_plain : (s : String) {e : Error} → host.parse_url s ≡ err e → is_request e ≡ false
  pub body_plain :
      (req : HttpRequest) (w w' : W) {answer : HttpResponse} {e : Error}
      → host.send req w ≡ (ok answer, w')
      → answer.body ≡ err e
      → is_request e ≡ false
