-- ===== src/Communication/Messages.antt =====
-- `Message` of core/communication/models.py. The payload has values and None; a new id and
-- the time are arguments.
use core_host.Base.Scalars.{Scalar}
use core_host.Base.{ℕ, String, Option, some}
use core_host.Base.Dict.{Dict}

pub record Message : Type 0 where
  pub source : String
  pub destination : String
  pub message_type : String
  pub payload : Dict (Option Scalar)
  pub message_id : String
  pub timestamp : ℕ
  pub request_id : Option String
  pub identity_id : Option String

-- The type is "RESPONSE" where none is given, and the payload is empty.
unfoldable pub create_response :
    String → ℕ → String → Dict (Option Scalar) → String → Message → Message
create_response message_id now source payload message_type m = record {
  source = source;
  destination = m.source;
  message_type = message_type;
  payload = payload;
  message_id = message_id;
  timestamp = now;
  request_id = some m.message_id;
  identity_id = m.identity_id;
}
