-- ===== src/ImConnect/Authorize.antt =====
-- Who may open a session: im-connect/src/main/java/com/itrjp/im/connect/websocket, of which
-- handler/AuthorizeHandler.java, listener/AuthorizationListener.java and
-- listener/DefaultAuthorization.java. What netty finds in a request is given.
use Prim.Native.Char
use im_single.Base.{
  ℕ, if◌then◌else◌, Bool, true, false, ◌&&◌, ◌==◌, Option, none, some, ◌⊎◌, inl, inr, ◌≡◌, ap,
  arith,
}
use im_single.Maps.{String}
use im_single.ImConnect.Hub.{Parameters}

pub data ErrorType : Type 0 where
  token_invalid token_expires room_throttling : ErrorType

pub record AuthorizationResult : Type 0 where
  pub is_success : Bool
  pub error_type : Option ErrorType

unfoldable pub success : AuthorizationResult
success = record { is_success = true; error_type = none }

unfoldable pub fail : ErrorType → AuthorizationResult
fail error = record { is_success = false; error_type = none }

pub record HandshakeData : Type 0 where
  pub parameters : Parameters
  pub uri : String

-- `authorize` of DefaultAuthorization.
unfoldable pub authorize : HandshakeData → AuthorizationResult
authorize handshake_data = success

-- What is read of a FullHttpRequest: its uri as it stands, with the query and nothing decoded, and the
-- parameters that QueryStringDecoder finds in it.
pub record FullHttpRequest : Type 0 where
  pub decoded : Bool
  pub get_method : Bool
  pub keep_alive : Bool
  pub uri : String
  pub parameters : Parameters

-- `startsWith` of java.lang.String.
unfoldable pub starts_with : String → String → Bool
starts_with s String.[] = true
starts_with String.[] (String.◌∷◌ c prefix) = false
starts_with (String.◌∷◌ d s) (String.◌∷◌ c prefix) =
    (Char.code d == Char.code c) && starts_with s prefix

abbrev pub handshake_data : FullHttpRequest → HandshakeData
handshake_data request = record { parameters = request.parameters; uri = request.uri }

pub data HttpResponseStatus : Type 0 where
  bad_request unauthorized forbidden too_many_requests : HttpResponseStatus

-- The codes of netty's constants.
unfoldable pub code : HttpResponseStatus → ℕ
code bad_request = 400
code unauthorized = 401
code forbidden = 403
code too_many_requests = 429

-- The message goes to the next handler, or there is a response, after which the connection is closed or
-- is not, or an exception.
pub data Answer : Type 0 where
  passed : Answer
  responded : HttpResponseStatus → Bool → Answer
  raised : Answer

unfoldable pub send_http_response : FullHttpRequest → HttpResponseStatus → Answer
send_http_response request status =
    responded status (if request.keep_alive && (code status == 200) then false else true)

-- The `switch` on the type of the error: one on null throws.
unfoldable pub refuse : FullHttpRequest → Option ErrorType → Answer
refuse request none = raised
refuse request (some token_invalid) = send_http_response request unauthorized
refuse request (some token_expires) = send_http_response request forbidden
refuse request (some room_throttling) = send_http_response request too_many_requests

module _ (websocket_path : String) (authorization : HandshakeData → AuthorizationResult) where
  unfoldable pub authorize_request : FullHttpRequest → AuthorizationResult → Answer
  authorize_request request result =
      if starts_with request.uri websocket_path && result.is_success
      then passed
      else refuse request result.error_type

  unfoldable pub read_decoded : FullHttpRequest → Answer
  read_decoded request =
      if request.get_method
      then authorize_request request (authorization (handshake_data request))
      else send_http_response request forbidden

  -- `channelRead` of a message, which may be another than a request.
  unfoldable pub channel_read : Option FullHttpRequest → Answer
  channel_read none = passed
  channel_read (some request) =
      if request.decoded then read_decoded request else send_http_response request bad_request

  -- What a request gets.
  abbrev pub answer : FullHttpRequest → Bool → Answer
  answer request authorized =
      if request.decoded
      then (if request.get_method
          then (if starts_with request.uri websocket_path && authorized then passed else raised)
          else responded forbidden true)
      else responded bad_request true

  closed :
      (request : FullHttpRequest) (status : HttpResponseStatus)
      → send_http_response request status ≡ responded status true
  unfolding send_http_response code
  closed request status = ground arith

  asked :
      (request : FullHttpRequest) (result : AuthorizationResult)
      → (result ≡ success) ⊎ ((error : ErrorType) × (result ≡ fail error))
      → result.error_type ≡ none
  unfolding success fail
  asked request result (inl h) = ap (λ r. r.error_type) h
  asked request result (inr (error, h)) = ap (λ r. r.error_type) h

  -- If every result of the authorization is made by `success` or `fail`, a request that could be decoded
  -- and is a GET passes if its whole uri begins with the service's path and it is authorized, and
  -- otherwise there is an exception and no response, whatever the error; another request gets the
  -- response BAD_REQUEST or FORBIDDEN, and its connection is closed.
  pub channel_read-answers :
      ((d : HandshakeData)
        → (authorization d ≡ success) ⊎ ((error : ErrorType) × (authorization d ≡ fail error)))
      → (request : FullHttpRequest)
      → channel_read (some request)
        ≡ answer request (authorization (handshake_data request)).is_success
  unfolding channel_read read_decoded authorize_request refuse
  channel_read-answers made request =
      let result = authorization (handshake_data request) in
      let untyped = asked request result (made (handshake_data request)) in
      ground (arith, untyped, closed request forbidden, closed request bad_request)
