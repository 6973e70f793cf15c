-- ===== src/Lifecycle.antt =====
-- src/connection/mod.rs and src/connection/driver.rs: the lifecycle state of a connection.
use rp1_rust.Base.{Bool, true, false}
use rp1_rust.Protocol.Types

-- `ConnectionState` of src/connection/mod.rs.
pub data Lifecycle : Type 0 where
  usable closing closed failed unusable : Lifecycle

unfoldable pub protocol_state : Lifecycle → Types.ConnectionState
protocol_state Lifecycle.usable = Types.negotiated
protocol_state Lifecycle.closing = Types.negotiated
protocol_state Lifecycle.closed = Types.terminal
protocol_state Lifecycle.failed = Types.terminal
protocol_state Lifecycle.unusable = Types.terminal

unfoldable pub is_usable : Lifecycle → Bool
is_usable Lifecycle.usable = true
is_usable Lifecycle.closing = false
is_usable Lifecycle.closed = false
is_usable Lifecycle.failed = false
is_usable Lifecycle.unusable = false

-- `mark_state` of the driver: later signals keep the first terminal state.
unfoldable pub mark_state : Lifecycle → Lifecycle → Lifecycle
mark_state Lifecycle.usable next = next
mark_state Lifecycle.closing next = next
mark_state Lifecycle.closed next = Lifecycle.closed
mark_state Lifecycle.failed next = Lifecycle.failed
mark_state Lifecycle.unusable next = Lifecycle.unusable
