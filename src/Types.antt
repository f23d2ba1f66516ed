-- ===== src/Types.antt =====
-- The data that the control loop works on: the types of workflows/runtime/types and the event
-- classes of workflows/events.py.
mod Classes
mod EventTypes
mod Work
mod Config
mod State
mod Commands
mod Ticks
mod Outside
unfoldable pub use Classes.*
unfoldable pub use EventTypes.*
unfoldable pub use Work.*
unfoldable pub use Config.*
unfoldable pub use State.*
unfoldable pub use Commands.*
unfoldable pub use Ticks.*
unfoldable pub use Outside.*
