-- ===== src/Protocol/Failure.antt =====
-- src/protocol.rs: the builders of `Failure`.
use rp1_rust.Protocol.Types.{Failure, ErrorClass, FailureScope}

abbrev pub malformed_request : Failure
malformed_request = record {
  class = ErrorClass.malformed_request;
  scope = FailureScope.connection_fatal;
}

abbrev pub unsupported_protocol_version : Failure
unsupported_protocol_version = record {
  class = ErrorClass.unsupported_protocol_version;
  scope = FailureScope.connection_fatal;
}

abbrev pub unsupported_operation : Failure
unsupported_operation = record {
  class = ErrorClass.unsupported_operation;
  scope = FailureScope.request_scoped;
}

abbrev pub invalid_argument : Failure
invalid_argument = record {
  class = ErrorClass.invalid_argument;
  scope = FailureScope.request_scoped;
}

abbrev pub resource_limit : Failure
resource_limit = record { class = ErrorClass.resource_limit; scope = FailureScope.connection_fatal }

abbrev pub protocol_violation : Failure
protocol_violation = record {
  class = ErrorClass.protocol_violation;
  scope = FailureScope.connection_fatal;
}
