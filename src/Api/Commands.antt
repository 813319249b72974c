-- ===== src/Api/Commands.antt =====
-- client/pdh_api/api.py: the commands.
mod Line
pub mod Registers
mod Coefficients
pub mod Captures
pub use Line.*
unfoldable pub use Registers.*
unfoldable pub use Coefficients.*
unfoldable pub use Captures.*
