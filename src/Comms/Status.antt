-- ===== src/Comms/Status.antt =====
-- `grpc::Status`, as the handlers of planning_service/comms/ return it.
use planning_service.Prelude.{String}

-- The codes of `grpc::StatusCode` that the handlers use.
pub data StatusCode : Type 0 where
  ok internal resource_exhausted invalid_argument permission_denied unimplemented : StatusCode

pub record Status : Type 0 where
  pub code : StatusCode
  pub message : String

abbrev pub status_ok : Status
status_ok = record { code = ok; message = "" }

abbrev pub failed : String → Status
failed message = record { code = internal; message = message }
