-- ===== src/Protocol/Types/Laws.antt =====
-- The assigned numbers of src/protocol.rs: from a value to the wire and back.
use rp1_rust.Base.{ℕ, ◌≡◌, some, arith}
use rp1_rust.Protocol.Types.{
  Kind, ErrorClass, kind_value, kind_from_wire, error_class_value, error_class_from_wire,
}

pub kind_from_wire-value : (k : Kind) → kind_from_wire (kind_value k) ≡ some k
unfolding kind_from_wire kind_value
kind_from_wire-value k = ground arith

pub kind_value-from_wire : (n : ℕ) (k : Kind) → kind_from_wire n ≡ some k → kind_value k ≡ n
unfolding kind_from_wire kind_value
kind_value-from_wire n k h = ground arith

pub error_class-from_wire : (c : ErrorClass) → error_class_from_wire (error_class_value c) ≡ some c
unfolding error_class_from_wire error_class_value
error_class-from_wire c = ground arith

pub error_class_value-from_wire :
    (n : ℕ) (c : ErrorClass) → error_class_from_wire n ≡ some c → error_class_value c ≡ n
unfolding error_class_from_wire error_class_value
error_class_value-from_wire n c h = ground arith
