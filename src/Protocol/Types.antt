-- ===== src/Protocol/Types.antt =====
-- src/protocol.rs: the assigned values of the wire, and the failure classification.
-- `Version`, `Flags`, `RequestId` and `Opcode` wrap one number and are that number here.
pub mod Laws
use rp1_rust.Base.{
  ℕ, List, Bool, true, false, ◌||◌, ◌&&◌, Option, some, none, ◌==◌, leb, if◌then◌else◌, ◌*◌,
}

abbrev pub header_length : ℕ
header_length = 20

abbrev pub max_frame_size : ℕ
max_frame_size = 65536

abbrev pub max_metadata_size : ℕ
max_metadata_size = 4096

abbrev pub handshake_opcode : ℕ
handshake_opcode = 1

abbrev pub ping_opcode : ℕ
ping_opcode = 2

abbrev pub get_opcode : ℕ
get_opcode = 3

abbrev pub set_opcode : ℕ
set_opcode = 4

abbrev pub del_opcode : ℕ
del_opcode = 5

abbrev pub exists_opcode : ℕ
exists_opcode = 6

abbrev pub minimum_negotiated_frame_size : ℕ
minimum_negotiated_frame_size = 65536

abbrev pub minimum_negotiated_metadata_size : ℕ
minimum_negotiated_metadata_size = 4096

abbrev pub highest_header_version : ℕ
highest_header_version = 255

-- The state a connection occupies when it reads a frame.
pub data ConnectionState : Type 0 where
  pre_negotiation negotiated terminal : ConnectionState

pub data Role : Type 0 where
  client server : Role

abbrev pub role_eq : Role → Role → Bool
role_eq Role.client Role.client = true
role_eq Role.server Role.server = true
role_eq Role.client Role.server = false
role_eq Role.server Role.client = false

pub record Limits : Type 0 where
  pub frame_size : ℕ
  pub metadata_size : ℕ

abbrev pub pre_negotiation_limits : Limits
pre_negotiation_limits = record { frame_size = max_frame_size; metadata_size = max_metadata_size }

-- The connection context a receiver decodes a frame under.
pub record Admission : Type 0 where
  pub role : Role
  pub state : ConnectionState
  pub limits : Limits
  pub in_flight : List ℕ

pub data FailureScope : Type 0 where
  request_scoped connection_fatal : FailureScope

pub data Kind : Type 0 where
  request response error : Kind

unfoldable pub kind_value : Kind → ℕ
kind_value Kind.request = 1
kind_value Kind.response = 2
kind_value Kind.error = 3

-- The peer that sends a kind.
unfoldable pub sender : Kind → Role
sender Kind.request = Role.client
sender Kind.response = Role.server
sender Kind.error = Role.server

unfoldable pub kind_from_wire : ℕ → Option Kind
kind_from_wire value =
    if value == 1
    then some Kind.request
    else if value == 2
    then some Kind.response
    else if value == 3
    then some Kind.error
    else none

unfoldable pub names_a_request_for_scope : Kind → FailureScope → Bool
names_a_request_for_scope Kind.request scope = true
names_a_request_for_scope Kind.response scope = true
names_a_request_for_scope Kind.error FailureScope.request_scoped = true
names_a_request_for_scope Kind.error FailureScope.connection_fatal = false

-- Whether this revision assigns the opcode.
unfoldable pub is_assigned : ℕ → Bool
is_assigned value =
    value == handshake_opcode
    || (value == ping_opcode
        || (value == get_opcode
            || (value == set_opcode || (value == del_opcode || value == exists_opcode))))

pub data ResultCode : Type 0 where
  success absent value_held_outside_memory : ResultCode

unfoldable pub result_code_value : ResultCode → ℕ
result_code_value ResultCode.success = 0
result_code_value ResultCode.absent = 1
result_code_value ResultCode.value_held_outside_memory = 4

unfoldable pub result_code_from_wire : ℕ → Option ResultCode
result_code_from_wire value =
    if value == 0
    then some ResultCode.success
    else if value == 1
    then some ResultCode.absent
    else if value == 4
    then some ResultCode.value_held_outside_memory
    else none

pub data ErrorClass : Type 0 where
  malformed_request unsupported_protocol_version unsupported_operation : ErrorClass
  invalid_argument resource_limit overloaded internal_error : ErrorClass
  protocol_violation wrong_type : ErrorClass

unfoldable pub error_class_value : ErrorClass → ℕ
error_class_value ErrorClass.malformed_request = 0x1
error_class_value ErrorClass.unsupported_protocol_version = 0x2
error_class_value ErrorClass.unsupported_operation = 0x3
error_class_value ErrorClass.invalid_argument = 0x4
error_class_value ErrorClass.resource_limit = 0x5
error_class_value ErrorClass.overloaded = 0x8
error_class_value ErrorClass.internal_error = 0xb
error_class_value ErrorClass.protocol_violation = 0xc
error_class_value ErrorClass.wrong_type = 0xe

-- The failure scope that a class carries.
unfoldable pub scope_of_class : ErrorClass → FailureScope
scope_of_class ErrorClass.malformed_request = FailureScope.connection_fatal
scope_of_class ErrorClass.unsupported_protocol_version = FailureScope.connection_fatal
scope_of_class ErrorClass.unsupported_operation = FailureScope.request_scoped
scope_of_class ErrorClass.invalid_argument = FailureScope.request_scoped
scope_of_class ErrorClass.resource_limit = FailureScope.connection_fatal
scope_of_class ErrorClass.overloaded = FailureScope.request_scoped
scope_of_class ErrorClass.internal_error = FailureScope.request_scoped
scope_of_class ErrorClass.protocol_violation = FailureScope.connection_fatal
scope_of_class ErrorClass.wrong_type = FailureScope.request_scoped

unfoldable pub error_class_from_wire : ℕ → Option ErrorClass
error_class_from_wire value =
    if value == 0x1
    then some ErrorClass.malformed_request
    else if value == 0x2
    then some ErrorClass.unsupported_protocol_version
    else if value == 0x3
    then some ErrorClass.unsupported_operation
    else if value == 0x4
    then some ErrorClass.invalid_argument
    else if value == 0x5
    then some ErrorClass.resource_limit
    else if value == 0x8
    then some ErrorClass.overloaded
    else if value == 0xb
    then some ErrorClass.internal_error
    else if value == 0xc
    then some ErrorClass.protocol_violation
    else if value == 0xe
    then some ErrorClass.wrong_type
    else none

pub record Failure : Type 0 where
  pub class : ErrorClass
  pub scope : FailureScope
